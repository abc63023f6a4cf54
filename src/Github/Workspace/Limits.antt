-- ===== src/Github/Workspace/Limits.antt =====
-- The sets of files that github_integration/workspace.py accepts.
use mathlib.Core.Bool.{false≢true}
use mathlib.Core.Path.{subst}
use vh26_pixel_perfect.Prelude.{
  ℕ, ◌+◌, ◌≤◌, ◌≡◌, refl, ◌∙◌, sym, ap, Bool, true, false, ◌||◌, none, some, List, [], ◌∷◌, ◌++◌,
  map, any, any-map, All, length, ltb, ◌==◌, Bool-cases, Option-cases, inl, inr, if◌then◌else◌,
  ltb→le, arith, or_true,
}
use vh26_pixel_perfect.Prelude.Tests.{nat_eq}
use vh26_pixel_perfect.Prelude.Dict
use vh26_pixel_perfect.Prelude.Codes.{Codes, can_encode, utf8_length}
use vh26_pixel_perfect.Prelude.Codes.Laws.{text_eq, same_text_iff}
use vh26_pixel_perfect.Prelude.Result.{ok, >>=-eq-ok, passed, checked, ok_inj}
use vh26_pixel_perfect.Github.Paths.{
  patch_validation_error, validate_path, slash, validate_metadata_text, validate_optional,
}
use vh26_pixel_perfect.Github.Workspace.{
  WorkspaceLimits, ProposedPatch, PlannedChange, Files, is_file, ancestors, byte_count,
  validate_files, validate_file_set, validate_no_file_directory_collisions, plan_from, plan_changes,
  no_changes,
}
use vh26_pixel_perfect.Github.Workspace.Plan.{Plans, plan_from-Plans}

abbrev pub total_bytes : Files → ℕ
total_bytes [] = 0
total_bytes ((path, content) ∷ files) = utf8_length content + total_bytes files

-- Every file stands at a valid path, within the limit of a file; the count and the sum of their bytes
-- are within theirs; and no file is at the place of a directory of another.
pub record IsBounded (limits : WorkspaceLimits) (files : Files) : Type 0 where
  pub count : length files ≤ limits.max_file_count
  pub total : total_bytes files ≤ limits.max_total_bytes
  pub each :
      All
        (λ (path, content).
          (validate_path limits.max_path_length path ≡ ok path)
          × (can_encode content ≡ true)
          × (utf8_length content ≤ limits.max_file_bytes))
        files
  pub apart :
      (path rest content : Codes)
      → Dict.get path files ≡ some content
      → Dict.get (path ++ slash ∷ rest) files ≡ none

-- What stands before a slash is among the ancestors.
pub any-ancestors :
    (f : Codes → Bool) (path rest : Codes)
    → f path ≡ true
    → any f (ancestors (path ++ slash ∷ rest)) ≡ true
unfolding ancestors
any-ancestors f [] rest h = ground arith
any-ancestors f (c ∷ path) rest h =
    let found : any f (map (λ p. c ∷ p) (ancestors (path ++ slash ∷ rest))) ≡ true =
      any-map f (λ p. c ∷ p) (ancestors (path ++ slash ∷ rest))
      ∙ any-ancestors (λ p. f (c ∷ p)) path rest h in
    elim (Bool-cases (c == slash)) [
      | inl same ↦ rw same (ap (λ b. f [] || b) found ∙ or_true (f []))
      | inr differs ↦ rw differs found
    ]

-- A test that no entry passes fails at each path that is stored.
pub none-passes :
    (f : Codes → Bool) (files : Files) (path content : Codes)
    → any (λ e. f e.0) files ≡ false
    → Dict.get path files ≡ some content
    → f path ≡ false
unfolding Dict.get
none-passes f [] path content h found = cc
none-passes f ((p, c) ∷ files) path content h found = elim (Bool-cases (p == path)) [
  | inl same ↦
      let e : p ≡ path = (same_text_iff p path).0 same in
      let first : f p ≡ false = ground arith in ap f (sym e) ∙ first
  | inr differs ↦
      none-passes f files path content (ground arith)
        (sym (ap (λ b. if b then some c else Dict.get path files) differs) ∙ found)
]

is_file-get :
    (files : Files) (path content : Codes)
    → Dict.get path files ≡ some content
    → is_file files path ≡ true
unfolding is_file
is_file-get files path content h = rw (h, is_file) refl

apart-validate :
    (files : Files) (path rest content : Codes)
    → validate_no_file_directory_collisions files ≡ ok tt
    → Dict.get path files ≡ some content
    → Dict.get (path ++ slash ∷ rest) files ≡ none
unfolding validate_no_file_directory_collisions
apart-validate files path rest content h found =
    elim (Option-cases (Dict.get (path ++ slash ∷ rest) files)) [
      | inl absent ↦ absent
      | inr (other, there) ↦
          let apart : any (λ e. any (is_file files) (ancestors e.0)) files ≡ false = ground arith in
          absurd (
            false≢true (
              sym (
                none-passes (λ p. any (is_file files) (ancestors p)) files (path ++ slash ∷ rest)
                  other apart there)
              ∙ any-ancestors (is_file files) path rest (is_file-get files path content found)))
    ]

pub valid_same :
    (limit : ℕ) (path q : Codes)
    → validate_path limit path ≡ ok q
    → validate_path limit path ≡ ok path
unfolding validate_path
valid_same limit path q h = ground arith

size-byte_count :
    (content : Codes) (size : ℕ) → byte_count content ≡ ok size → size ≡ utf8_length content
unfolding byte_count
size-byte_count content size h = ground arith

encoded-byte_count :
    (content : Codes) (size : ℕ) → byte_count content ≡ ok size → can_encode content ≡ true
unfolding byte_count
encoded-byte_count content size h = ground arith

module _ (limits : WorkspaceLimits) where
  validate_files_lem :
      (total : ℕ) (files : Files)
      → validate_files limits total files ≡ ok tt
      → total ≤ limits.max_total_bytes
      → (total + total_bytes files ≤ limits.max_total_bytes)
        × All
            (λ (path, content).
              (validate_path limits.max_path_length path ≡ ok path)
              × (can_encode content ≡ true)
              × (utf8_length content ≤ limits.max_file_bytes))
            files
  unfolding validate_files
  validate_files_lem total [] h within = (omega arith, tt)
  validate_files_lem total ((path, content) ∷ files) h within =
      let (q, valid, h1) = >>=-eq-ok (validate_path limits.max_path_length path) _ h in
      let (size, counted, h2) = >>=-eq-ok (byte_count content) _ h1 in
      let (small, h3) = passed (ltb limits.max_file_bytes size) patch_validation_error _ h2 in
      let (fits, h4) =
        passed (ltb limits.max_total_bytes (total + size)) patch_validation_error _ h3 in
      let same = size-byte_count content size counted in
      let (sum, each) =
        validate_files_lem (total + size) files h4
          (ltb→le limits.max_total_bytes (total + size) fits) in
      (
        omega (arith, same),
        (
          (
            valid_same limits.max_path_length path q valid,
            encoded-byte_count content size counted,
            omega (arith, same, ltb→le limits.max_file_bytes size small),
          ),
          each,
        ),
      )

  pub validate_file_set-IsBounded :
      (files : Files) → validate_file_set limits files ≡ ok tt → IsBounded limits files
  unfolding validate_file_set
  validate_file_set-IsBounded files h =
      let (few, h1) =
        passed (ltb limits.max_file_count (length files)) patch_validation_error _ h in
      let (valid, h2) = checked (validate_files limits 0 files) _ h1 in
      let (sum, each) = validate_files_lem 0 files valid (omega arith) in
      record {
        count = ltb→le limits.max_file_count (length files) few;
        total = omega (arith, sum);
        each = each;
        apart = λ path rest content found. apart-validate files path rest content h2 found;
      }

  -- A plan that is accepted has one step for each change of the proposal, in their order, at valid
  -- paths that differ. A step finds at its path what the files contain: a creation nothing, an update
  -- or a deletion a file, whose digest is the expected one if the proposal names one; and it leaves the
  -- proposed contents, which an update makes different, or nothing. In the result the paths of the
  -- plan contain what the steps leave, every other path what it did; and the result is within the
  -- limits, its paths are valid, and no file is at the place of a directory.
  pub plan_changes-Plans :
      (sha256 : Codes → Codes) (proposal : ProposedPatch) (files result : Files)
      (planned : List PlannedChange)
      → plan_changes sha256 limits proposal files ≡ ok (planned, result)
      → Plans sha256 limits proposal.changes files planned result × IsBounded limits result
  unfolding plan_changes
  plan_changes-Plans sha256 proposal files result planned h =
      let (_, h1) = checked (validate_metadata_text 128 proposal.patch_id) _ h in
      let (_, h2) = checked (validate_metadata_text 2000 proposal.summary) _ h1 in
      let (_, h3) = checked (validate_optional 8000 proposal.rationale) _ h2 in
      let (_, h4) = passed (no_changes proposal.changes) patch_validation_error _ h3 in
      let (_, h5) =
        passed (ltb limits.max_changes (length proposal.changes)) patch_validation_error _ h4 in
      let (r, plan, h6) = >>=-eq-ok (plan_from sha256 limits proposal.changes [] 0 files) _ h5 in
      let (valid, h7) = checked (validate_file_set limits r.1) _ h6 in
      subst (λ s. Plans sha256 limits proposal.changes files s.0 s.1 × IsBounded limits s.1)
        (ok_inj h7)
        (
          (plan_from-Plans sha256 limits proposal.changes [] 0 files r plan).0,
          validate_file_set-IsBounded r.1 valid,
        )
