-- ===== src/Github/Workspace.antt =====
-- github_integration/workspace.py: a proposed patch, planned over the files of a private workspace.
-- The digest of a text is an argument.
pub mod Round
pub mod Plan
pub mod Limits
pub mod Keys
pub mod Accepted
use vh26_pixel_perfect.Prelude.{
  ℕ, ◌+◌, Bool, true, false, ◌&&◌, ◌||◌, not, Option, none, some, List, [], ◌∷◌, ◌++◌, map, any,
  length, ltb, ◌==◌, if◌then◌else◌,
}
use vh26_pixel_perfect.Prelude.Tests.{nat_eq}
use vh26_pixel_perfect.Prelude.Dict
use vh26_pixel_perfect.Prelude.Dict.{Dict}
use vh26_pixel_perfect.Prelude.Text.{codes}
use vh26_pixel_perfect.Prelude.Codes.{Codes, same_text, starts_with, can_encode, utf8_length}
use vh26_pixel_perfect.Prelude.Codes.Laws.{text_eq}
use vh26_pixel_perfect.Prelude.Result.{Result, ok, err, ◌>>=◌, ◌>>◌, raise_if}
use vh26_pixel_perfect.Github.Paths.{
  PatchError, patch_validation_error, patch_conflict_error, workspace_closed, slash, validate_path,
  validate_metadata_text, validate_optional, normalize_sha256,
}

pub data ChangeAction : Type 0 where
  create update delete : ChangeAction

pub record WorkspaceLimits : Type 0 where
  pub max_file_count : ℕ
  pub max_changes : ℕ
  pub max_file_bytes : ℕ
  pub max_total_bytes : ℕ
  pub max_patch_bytes : ℕ
  pub max_diff_bytes : ℕ
  pub max_path_length : ℕ

-- The action is the text of the proposal.
pub record ProposedFileChange : Type 0 where
  pub path : Codes
  pub action : Codes
  pub content : Option Codes
  pub expected_sha256 : Option Codes
  pub explanation : Option Codes

pub record ProposedPatch : Type 0 where
  pub patch_id : Codes
  pub summary : Codes
  pub changes : List ProposedFileChange
  pub rationale : Option Codes

pub record PlannedChange : Type 0 where
  pub change : ProposedFileChange
  pub action : ChangeAction
  pub path : Codes
  pub before : Option Codes
  pub after : Option Codes

abbrev pub Files : Type 0
Files = Dict Codes Codes

abbrev pub Checked : Type 0 → Type 0
Checked A = Result PatchError A

-- `path in files`
unfoldable pub is_file : Files → Codes → Bool
is_file files path = elim (Dict.get path files) [ none ↦ false | some _ ↦ true ]

-- ChangeAction(raw_action)
unfoldable pub coerce_action : Codes → Checked ChangeAction
coerce_action action =
    if same_text action (codes "create")
    then ok create
    else if same_text action (codes "update")
    then ok update
    else if same_text action (codes "delete")
    then ok delete
    else err patch_validation_error

-- "/".join(parts[:index]) for each index above 0, of the parts of the path: what stands before each
-- slash.
unfoldable pub ancestors : Codes → List Codes
ancestors [] = []
ancestors (c ∷ path) =
    let rest = map (λ p. c ∷ p) (ancestors path) in if c == slash then [] ∷ rest else rest

unfoldable pub ensure_no_file_directory_collision : Codes → Files → Checked (Unit {0})
unfolding ancestors is_file
ensure_no_file_directory_collision path files = do
  raise_if (any (is_file files) (ancestors path)) patch_conflict_error
  raise_if (any (λ e. starts_with e.0 (path ++ slash ∷ [])) files) patch_conflict_error

unfoldable pub validate_no_file_directory_collisions : Files → Checked (Unit {0})
unfolding ancestors is_file
validate_no_file_directory_collisions files =
    raise_if (any (λ e. any (is_file files) (ancestors e.0)) files) patch_validation_error

-- _utf8_bytes, of which only the length is used
unfoldable pub byte_count : Codes → Checked ℕ
byte_count content = do
  raise_if (not (can_encode content)) patch_validation_error
  ok (utf8_length content)

-- The loop over the files, from the bytes that are counted already.
unfoldable pub validate_files : WorkspaceLimits → ℕ → Files → Checked (Unit {0})
unfolding byte_count
validate_files limits total [] = ok tt
validate_files limits total ((path, content) ∷ files) = do
  _ ← validate_path limits.max_path_length path
  size ← byte_count content
  raise_if (ltb limits.max_file_bytes size) patch_validation_error
  raise_if (ltb limits.max_total_bytes (total + size)) patch_validation_error
  validate_files limits (total + size) files

unfoldable pub validate_file_set : WorkspaceLimits → Files → Checked (Unit {0})
validate_file_set limits files = do
  raise_if (ltb limits.max_file_count (length files)) patch_validation_error
  validate_files limits 0 files
  validate_no_file_directory_collisions files

unfoldable pub require_change_content : WorkspaceLimits → ProposedFileChange → Checked Codes
unfolding byte_count
require_change_content limits change = elim change.content [
  | none ↦ err patch_validation_error
  | some content ↦ do
    size ← byte_count content
    raise_if (ltb limits.max_file_bytes size) patch_validation_error
    ok content
]

-- `before`, or the conflict of a change to a file that is missing
abbrev pub existing : Option Codes → Checked Codes
existing none = err patch_conflict_error
existing (some before) = ok before

abbrev pub is_some {ℓ} : {A : Type ℓ} → Option A → Bool
is_some none = false
is_some (some _) = true

unfoldable pub verify_expected_sha256 : (Codes → Codes) → Codes → Option Codes → Checked (Unit {0})
verify_expected_sha256 sha256 before none = ok tt
verify_expected_sha256 sha256 before (some expected) =
    raise_if (not (sha256 before == expected)) patch_conflict_error

abbrev pub content_bytes : Option Codes → Checked ℕ
content_bytes none = ok 0
content_bytes (some after) = byte_count after

abbrev pub no_changes : List ProposedFileChange → Bool
no_changes [] = true
no_changes (_ ∷ _) = false

module _ (sha256 : Codes → Codes) (limits : WorkspaceLimits) where
  -- The branch of an action: what the file contains afterwards, and the files.
  unfoldable pub apply_change :
      ChangeAction
      → ProposedFileChange
      → Codes
      → Option Codes
      → Option Codes
      → Files
      → Checked (Option Codes × Files)
  apply_change create change path before expected files = do
    raise_if (is_some before) patch_conflict_error
    raise_if (is_some expected) patch_validation_error
    ensure_no_file_directory_collision path files
    after ← require_change_content limits change
    ok (some after, Dict.put path after files)
  apply_change update change path before expected files = do
    old ← existing before
    verify_expected_sha256 sha256 old expected
    after ← require_change_content limits change
    raise_if (after == old) patch_validation_error
    ok (some after, Dict.put path after files)
  apply_change delete change path before expected files = do
    old ← existing before
    verify_expected_sha256 sha256 old expected
    raise_if (is_some change.content) patch_validation_error
    ok (none, Dict.remove path files)

  -- One round of the loop, with the paths that were seen and the files so far.
  unfoldable pub plan_change :
      ProposedFileChange → List Codes → Files → Checked (PlannedChange × Files)
  unfolding coerce_action apply_change
  plan_change change seen files = do
    path ← validate_path limits.max_path_length change.path
    raise_if (any (same_text path) seen) patch_validation_error
    action ← coerce_action change.action
    let before = Dict.get path files
    expected ← normalize_sha256 change.expected_sha256
    validate_optional 4000 change.explanation
    (after, result) ← apply_change action change path before expected files
    ok (
      record { change = change; action = action; path = path; before = before; after = after },
      result,
    )

  -- The loop, with the bytes of the contents so far.
  unfoldable pub plan_from :
      List ProposedFileChange → List Codes → ℕ → Files → Checked (List PlannedChange × Files)
  plan_from [] seen bytes files = ok ([], files)
  plan_from (change ∷ changes) seen bytes files = do
    (planned, result) ← plan_change change seen files
    size ← content_bytes planned.after
    raise_if (ltb limits.max_patch_bytes (bytes + size)) patch_validation_error
    (rest, final) ← plan_from changes (planned.path ∷ seen) (bytes + size) result
    ok (planned ∷ rest, final)

  unfoldable pub plan_changes : ProposedPatch → Files → Checked (List PlannedChange × Files)
  plan_changes proposal files = do
    validate_metadata_text 128 proposal.patch_id
    validate_metadata_text 2000 proposal.summary
    validate_optional 8000 proposal.rationale
    raise_if (no_changes proposal.changes) patch_validation_error
    raise_if (ltb limits.max_changes (length proposal.changes)) patch_validation_error
    (planned, result) ← plan_from proposal.changes [] 0 files
    validate_file_set limits result
    ok (planned, result)
