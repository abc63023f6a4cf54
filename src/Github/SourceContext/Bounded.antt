-- ===== src/Github/SourceContext/Bounded.antt =====
-- What github_integration/source_context.py hands to a diagnosis.
use mathlib.Core.Path.{subst}
use vh26_pixel_perfect.Prelude.{
  ℕ, ◌+◌, ◌≤◌, ◌≡◌, refl, false, ◌||◌, Option, none, some, List, [], ◌∷◌, All, length, arith,
}
use vh26_pixel_perfect.Prelude.Codes.{Codes, is_blank, has, strip}
use vh26_pixel_perfect.Prelude.Codes.Laws.{text_eq, same_text_iff}
use vh26_pixel_perfect.Prelude.Result.{ok, >>=-eq-ok, passed, ok_inj}
use vh26_pixel_perfect.Github.SourcePolicy.{
  source_context_error, SourceContextPolicy, SourceFileReference, SourceExcerpt, SourceContext,
  SnapshotRow, Blob,
}
use vh26_pixel_perfect.Github.SourceContext.{
  bytes_of, excerpted, select_source_files, checked_content, included_text, fetch_excerpts,
  build_source_context,
}
use vh26_pixel_perfect.Github.SourceContext.References.{Refers, select_source_files-Refers}

checked_content-fields :
    (r : SourceFileReference) (blob : Blob) (size : ℕ) (content : Codes)
    → checked_content r blob ≡ ok (size, content)
    → (blob.sha ≡ r.blob_sha) × (blob.content ≡ some content) × (length content ≡ size)
unfolding checked_content
checked_content-fields r blob size content h = ground (arith, same_text_iff blob.sha r.blob_sha)

abbrev pub total_of : List SourceExcerpt → ℕ
total_of [] = 0
total_of (e ∷ es) = e.byte_count + total_of es

module _ (decode : Codes → Option Codes) (policy : SourceContextPolicy) (get_blob : Codes → Blob)
    (rows : List SnapshotRow) where
  -- An excerpt is the whole text of a blob that a row of the snapshot names: the reader returned it
  -- under that sha, its bytes are as many as it says, within the limit of a file, and decode to it.
  pub record Quotes (e : SourceExcerpt) : Type 0 where
    pub reference : SourceFileReference
    pub refers : Refers policy rows reference
    pub path : e.path ≡ reference.path
    pub blob_sha : e.blob_sha ≡ reference.blob_sha
    pub identity : (get_blob e.blob_sha).sha ≡ e.blob_sha
    pub content : Codes
    pub answered : (get_blob e.blob_sha).content ≡ some content
    pub counted : length content ≡ e.byte_count
    pub small : e.byte_count ≤ policy.max_file_bytes
    pub no_nul : has 0 content ≡ false
    pub decoded : decode content ≡ some e.text

  -- What the loop leaves, from the bytes before it.
  abbrev Fetched : List SourceFileReference → ℕ → List SourceExcerpt × ℕ → Type 0
  Fetched cs total (es, sum) =
      All Quotes es
      × (sum ≡ total + total_of es)
      × (sum ≤ policy.max_total_bytes)
      × (length es ≤ length cs)

  included-limits :
      (total size : ℕ) (content text : Codes)
      → included_text decode policy total size content ≡ some text
      → (size ≤ policy.max_file_bytes)
        × (total + size ≤ policy.max_total_bytes)
        × (has 0 content ≡ false)
        × (decode content ≡ some text)
  unfolding included_text
  included-limits total size content text h = ground arith

  Fetched-excerpted :
      (r : SourceFileReference) (cs : List SourceFileReference) (total size : ℕ) (content : Codes)
      (o : Option Codes) (rest : List SourceExcerpt) (sum : ℕ)
      → Refers policy rows r
      → checked_content r (get_blob r.blob_sha) ≡ ok (size, content)
      → included_text decode policy total size content ≡ o
      → Fetched cs (total + bytes_of o size) (rest, sum)
      → Fetched (r ∷ cs) total (excerpted r size o rest, sum)
  Fetched-excerpted r cs total size content none rest sum refers answer out (q, s, m, l) =
      (q, omega arith, m, omega arith)
  Fetched-excerpted r cs total size content (some text) rest sum refers answer out (q, s, m, l) =
      let (small, fits, no_nul, decoded) = included-limits total size content text out in
      let (identity, answered, counted) =
        checked_content-fields r (get_blob r.blob_sha) size content answer in
      (
        (
          record {
            reference = r;
            refers = refers;
            path = refl;
            blob_sha = refl;
            identity = identity;
            content = content;
            answered = answered;
            counted = counted;
            small = small;
            no_nul = no_nul;
            decoded = decoded;
          },
          q,
        ),
        omega arith,
        m,
        omega arith,
      )

  bytes-within :
      (total size : ℕ) (content : Codes) (o : Option Codes)
      → included_text decode policy total size content ≡ o
      → total ≤ policy.max_total_bytes
      → total + bytes_of o size ≤ policy.max_total_bytes
  bytes-within total size content none e h = omega arith
  bytes-within total size content (some text) e h = (included-limits total size content text e).1

  fetch_excerpts-Fetched :
      (cs : List SourceFileReference) (total : ℕ) (r : List SourceExcerpt × ℕ)
      → fetch_excerpts decode policy get_blob cs total ≡ ok r
      → All (Refers policy rows) cs
      → total ≤ policy.max_total_bytes
      → Fetched cs total r
  unfolding fetch_excerpts
  fetch_excerpts-Fetched [] total r h refers within =
      subst (Fetched [] total) (ok_inj h) (tt, omega arith, within, omega arith)
  fetch_excerpts-Fetched (c ∷ cs) total r h (refers, others) within =
      let ((size, content), answer, h1) = >>=-eq-ok (checked_content c (get_blob c.blob_sha)) _ h in
      let text = included_text decode policy total size content in
      let ((rest, sum), more, h2) =
        >>=-eq-ok (fetch_excerpts decode policy get_blob cs (total + bytes_of text size)) _ h1 in
      subst (Fetched (c ∷ cs) total) (ok_inj h2) (
        Fetched-excerpted c cs total size content text rest sum refers answer refl (
          fetch_excerpts-Fetched cs (total + bytes_of text size) (rest, sum) more others
            (bytes-within total size content text refl within)))

  -- A context has at most the number of files that the policy allows, all quoted; its total is the sum
  -- of their bytes and within the limit; and it counts the candidates that it left out.
  pub record IsBounded (context : SourceContext) : Type 0 where
    pub quotes : All Quotes context.excerpts
    pub few : length context.excerpts ≤ policy.max_files
    pub summed : context.total_bytes ≡ total_of context.excerpts
    pub within : context.total_bytes ≤ policy.max_total_bytes
    pub accounted : length context.excerpts + context.omitted_file_count ≤ policy.max_files

  -- Whatever the reader answers, a context that is returned has at most as many files as the policy
  -- allows, with the omitted ones; the sum of their bytes, which it reports, is within the limit; and
  -- each excerpt is the whole content of a blob within the limit of a file, free of NUL, that the
  -- reader returned under the sha that a row of the snapshot names at a safe path, as it decodes.
  pub build_source_context-IsBounded :
      (digest_of : List SourceExcerpt → Codes) (signal_matches : Codes → ℕ)
      (owner repository : Codes) (context : SourceContext)
      → build_source_context decode policy digest_of signal_matches get_blob owner repository rows
        ≡ ok context
      → IsBounded context
  unfolding build_source_context
  build_source_context-IsBounded digest_of signal_matches owner repository context h =
      let (_, h1) =
        passed (is_blank (strip owner) || is_blank (strip repository)) source_context_error _ h in
      let (cs, chosen, h2) = >>=-eq-ok (select_source_files signal_matches policy rows) _ h1 in
      let ((es, sum), fetched, h3) = >>=-eq-ok (fetch_excerpts decode policy get_blob cs 0) _ h2 in
      let (refers, few) = select_source_files-Refers policy signal_matches rows cs chosen in
      let (quotes, summed, within, fewer) =
        fetch_excerpts-Fetched cs 0 (es, sum) fetched refers (omega arith) in
      subst IsBounded (ok_inj h3) (record {
        quotes = quotes;
        few = omega arith;
        summed = omega arith;
        within = within;
        accounted = omega arith;
      })
