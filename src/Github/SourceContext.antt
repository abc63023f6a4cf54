-- ===== src/Github/SourceContext.antt =====
-- github_integration/source_context.py: the source files that a diagnosis may read. What the reader
-- returns for a blob, the tokens of a signal, the decoder of UTF-8 and the digest are arguments.
pub mod Safety
pub mod References
pub mod Bounded
use vh26_pixel_perfect.Prelude.{
  ℕ, ◌+◌, ◌-◌, Bool, true, false, ◌&&◌, ◌||◌, not, Option, none, some, List, [], ◌∷◌, ◌++◌, map,
  any, length, take, count_if, ltb, leb, nat_beq, ◌==◌, if◌then◌else◌,
}
use vh26_pixel_perfect.Prelude.Text.{codes, lower_code}
use vh26_pixel_perfect.Prelude.Codes.{
  Codes, is_blank, same_text, starts_with, ends_with, has, split, strip,
}
use vh26_pixel_perfect.Prelude.Codes.Laws.{text_eq}
use vh26_pixel_perfect.Prelude.Result.{Result, ok, err, ◌>>=◌, ◌>>◌, raise_if}
use vh26_pixel_perfect.Github.SourcePolicy.{
  Blob, RowSize, SnapshotRow, SourceContext, SourceContextError, SourceContextPolicy, SourceExcerpt,
  SourceFileReference, bad_size, but_last, generated_directory_parts, generated_file_suffixes,
  has_hidden_part, is_dot_part, is_one_of, is_relative, is_safe_path, last_part, no_size,
  sensitive_directory_parts, sensitive_file_names, sized, source_context_error, suffix_of,
}

abbrev pub is_blob : Option Codes → Bool
is_blob none = true
is_blob (some kind) = same_text kind (codes "blob")

-- The size that a row declares, unless it is invalid or above the limit.
abbrev pub size_within : ℕ → RowSize → Option (Option ℕ)
size_within limit no_size = some none
size_within limit bad_size = none
size_within limit (sized n) = if ltb limit n then none else some (some n)

-- An accepted row with an empty sha is an error.
abbrev pub referenced :
    Codes → Codes → Option (Option ℕ) → Result SourceContextError (Option SourceFileReference)
referenced path sha none = ok none
referenced path sha (some size) =
    if is_blank (strip sha)
    then err source_context_error
    else ok (some (record { path = path; blob_sha = strip sha; size_bytes = size }))

abbrev pub reference_to :
    Option Codes
    → Option Codes
    → RowSize
    → SourceContextPolicy
    → Result SourceContextError (Option SourceFileReference)
reference_to none sha size policy = ok none
reference_to (some path) none size policy = ok none
reference_to (some path) (some sha) size policy =
    if is_safe_path path policy
    then referenced path sha (size_within policy.max_file_bytes size)
    else ok none

unfoldable pub reference_from_row :
    SnapshotRow → SourceContextPolicy → Result SourceContextError (Option SourceFileReference)
reference_from_row row policy =
    if is_blob row.object_type then reference_to row.path row.blob_sha row.size policy else ok none

abbrev pub paths_of : List SourceFileReference → List Codes
paths_of references = map (λ r. r.path) references

-- A reference whose path is not seen yet.
abbrev pub new_reference : Option SourceFileReference → List Codes → Option SourceFileReference
new_reference none seen = none
new_reference (some r) seen = if is_one_of seen r.path then none else some r

abbrev pub added : Option SourceFileReference → List SourceFileReference → List SourceFileReference
added none rest = rest
added (some r) rest = r ∷ rest

abbrev pub seen_with : Option SourceFileReference → List Codes → List Codes
seen_with none seen = seen
seen_with (some r) seen = r.path ∷ seen

-- The loop over the rows.
unfoldable pub collect_references :
    List SnapshotRow
    → SourceContextPolicy
    → List Codes
    → Result SourceContextError (List SourceFileReference)
unfolding reference_from_row
collect_references [] policy seen = ok []
collect_references (row ∷ rows) policy seen = do
  found ← reference_from_row row policy
  let new = new_reference found seen
  rest ← collect_references rows policy (seen_with new seen)
  ok (added new rest)

-- The order of Python's texts.
unfoldable pub text_before : Codes → Codes → Bool
text_before _ [] = false
text_before [] (_ ∷ _) = true
text_before (a ∷ s) (b ∷ t) = ltb a b || nat_beq a b && text_before s t

abbrev pub size_or : ℕ → Option ℕ → ℕ
size_or default none = default
size_or default (some n) = n

abbrev pub by_size : ℕ → SourceFileReference → SourceFileReference → Bool
by_size limit r s =
    ltb (size_or limit r.size_bytes) (size_or limit s.size_bytes)
    || nat_beq (size_or limit r.size_bytes) (size_or limit s.size_bytes)
      && text_before r.path s.path

module _ (signal_matches : Codes → ℕ) (policy : SourceContextPolicy) where
  -- rank(r) < rank(s): more tokens of the signals in the path, then fewer bytes, then the path.
  unfoldable pub ranks_before : SourceFileReference → SourceFileReference → Bool
  unfolding text_before
  ranks_before r s =
      ltb (signal_matches s.path) (signal_matches r.path)
      || nat_beq (signal_matches s.path) (signal_matches r.path)
        && by_size policy.max_file_bytes r s

  -- sorted(references, key=rank), which is stable
  unfoldable pub insert_ranked :
      SourceFileReference → List SourceFileReference → List SourceFileReference
  insert_ranked r [] = r ∷ []
  insert_ranked r (s ∷ rest) = if ranks_before s r then s ∷ insert_ranked r rest else r ∷ s ∷ rest

  unfoldable pub sort_ranked : List SourceFileReference → List SourceFileReference
  unfolding insert_ranked
  sort_ranked [] = []
  sort_ranked (r ∷ rest) = insert_ranked r (sort_ranked rest)

  unfoldable pub select_source_files :
      List SnapshotRow → Result SourceContextError (List SourceFileReference)
  unfolding sort_ranked
  select_source_files rows = do
    references ← collect_references rows policy []
    ok (take policy.max_files (sort_ranked references))

-- The size that a response must declare.
abbrev pub differs_from : ℕ → Option ℕ → Bool
differs_from size none = false
differs_from size (some expected) = not (nat_beq size expected)

-- The declared size and the bytes of a response that is consistent with its reference.
unfoldable pub checked_content : SourceFileReference → Blob → Result SourceContextError (ℕ × Codes)
checked_content r blob = do
  raise_if (not (blob.sha == r.blob_sha)) source_context_error
  elim blob.size [
    | none ↦ err source_context_error
    | some size ↦ elim blob.content [
      | none ↦ err source_context_error
      | some content ↦ do
        raise_if (not (nat_beq (length content) size)) source_context_error
        raise_if (differs_from size r.size_bytes) source_context_error
        ok (size, content)
    ]
  ]

-- What a text adds to the bytes and to the excerpts.
abbrev pub bytes_of : Option Codes → ℕ → ℕ
bytes_of none size = 0
bytes_of (some text) size = size

abbrev pub excerpted :
    SourceFileReference → ℕ → Option Codes → List SourceExcerpt → List SourceExcerpt
excerpted r size none rest = rest
excerpted r size (some text) rest =
    record { path = r.path; blob_sha = r.blob_sha; text = text; byte_count = size } ∷ rest

module _ (decode : Codes → Option Codes) (policy : SourceContextPolicy) where
  -- The text of a file that the limits let in, from the bytes so far.
  unfoldable pub included_text : ℕ → ℕ → Codes → Option Codes
  included_text total size content =
      if ltb policy.max_file_bytes size
        || ltb policy.max_total_bytes (total + size)
        || has 0 content
      then none
      else decode content

  -- The loop over the candidates.
  unfoldable pub fetch_excerpts :
      (Codes → Blob)
      → List SourceFileReference
      → ℕ
      → Result SourceContextError (List SourceExcerpt × ℕ)
  unfolding included_text
  fetch_excerpts get_blob [] total = ok ([], total)
  fetch_excerpts get_blob (r ∷ candidates) total = do
    (size, content) ← checked_content r (get_blob r.blob_sha)
    let text = included_text total size content
    (rest, sum) ← fetch_excerpts get_blob candidates (total + bytes_of text size)
    ok (excerpted r size text rest, sum)

  unfoldable pub build_source_context :
      (List SourceExcerpt → Codes)
      → (Codes → ℕ)
      → (Codes → Blob)
      → Codes
      → Codes
      → List SnapshotRow
      → Result SourceContextError SourceContext
  build_source_context digest_of signal_matches get_blob owner repository rows = do
    raise_if (is_blank (strip owner) || is_blank (strip repository)) source_context_error
    candidates ← select_source_files signal_matches policy rows
    (excerpts, total) ← fetch_excerpts get_blob candidates 0
    ok (record {
      excerpts = excerpts;
      omitted_file_count = length candidates - length excerpts;
      total_bytes = total;
      digest = digest_of excerpts;
    })
