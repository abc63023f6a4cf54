-- ===== src/Github/Session.antt =====
-- github_integration/workspace.py: the life of a patch workspace, from its base files over the
-- proposals that it applies to its cleanup. The digest of a text and the difference of two lists of
-- lines are arguments; the base files are given as texts, and the metadata of a review are left out.
pub mod Bases
pub mod Outcome
mod Tests
use vh26_pixel_perfect.Prelude.{
  ℕ, Bool, true, false, ◌&&◌, ◌||◌, not, leb, nat_beq, Option, none, some, List, [], ◌∷◌, ◌++◌, map,
  ltb, ◌==◌, if◌then◌else◌,
}
use vh26_pixel_perfect.Prelude.Dict
use vh26_pixel_perfect.Prelude.Text.{codes}
use vh26_pixel_perfect.Prelude.Codes.{Codes, onto_first, starts_with, can_encode, utf8_length}
use vh26_pixel_perfect.Prelude.Codes.Laws.{text_eq}
use vh26_pixel_perfect.Prelude.Result.{ok, ◌>>=◌, ◌>>◌, raise_if}
use vh26_pixel_perfect.Github.Paths.{patch_validation_error, workspace_closed, validate_path}
use vh26_pixel_perfect.Github.Workspace.{
  ChangeAction, WorkspaceLimits, ProposedPatch, PlannedChange, Files, Checked, is_file, is_some,
  validate_file_set, plan_changes,
}
use vh26_pixel_perfect.Github.Directory.{Node, dir, end}
use vh26_pixel_perfect.Github.Directory.Result.{write_result_files}
use vh26_pixel_perfect.Github.Directory.Reading.{read_workspace_files}

pub record ReviewedFileChange : Type 0 where
  pub path : Codes
  pub action : ChangeAction
  pub before_sha256 : Option Codes
  pub after_sha256 : Option Codes
  pub before_bytes : ℕ
  pub after_bytes : ℕ
  pub explanation : Option Codes

pub record PatchReview : Type 0 where
  pub patch_id : Codes
  pub summary : Codes
  pub rationale : Option Codes
  pub changed_files : List ReviewedFileChange
  pub unified_diff : Codes

pub record LocalPatchWorkspace : Type 0 where
  pub limits : WorkspaceLimits
  pub is_closed : Bool
  pub root : Node

-- The loop over the base files, onto the ones that were taken.
unfoldable pub normalize_from : WorkspaceLimits → Files → Files → Checked Files
normalize_from limits [] normalized = ok normalized
normalize_from limits ((raw_path, content) ∷ files) normalized = do
  path ← validate_path limits.max_path_length raw_path
  raise_if (is_file normalized path) patch_validation_error
  raise_if (not (can_encode content)) patch_validation_error
  normalize_from limits files (Dict.put path content normalized)

unfoldable pub normalize_base_files : WorkspaceLimits → Files → Checked Files
unfolding normalize_from
normalize_base_files limits base = do
  normalized ← normalize_from limits base []
  validate_file_set limits normalized
  ok normalized

unfoldable pub new_workspace : WorkspaceLimits → Files → Checked LocalPatchWorkspace
unfolding normalize_base_files write_result_files
new_workspace limits base = do
  normalized ← normalize_base_files limits base
  root ← write_result_files limits [] normalized (dir end)
  ok (record { limits = limits; is_closed = false; root = root })

-- A second cleanup does nothing.
unfoldable pub cleanup : LocalPatchWorkspace → LocalPatchWorkspace
cleanup workspace =
    if workspace.is_closed then workspace else record workspace { is_closed = true; root = dir end }

abbrev pub ensure_open : LocalPatchWorkspace → Checked (Unit {0})
ensure_open workspace = raise_if workspace.is_closed workspace_closed

abbrev pub is_line_break : ℕ → Bool
is_line_break c =
    leb 10 c && leb c 13
    || leb 28 c && leb c 30
    || nat_beq c 0x85
    || nat_beq c 0x2028
    || nat_beq c 0x2029

-- text.splitlines(), where a carriage return and a line feed behind it are one break
unfoldable pub splitlines : Codes → List Codes
splitlines [] = []
splitlines (c ∷ s) =
    let rest = splitlines s in
    if nat_beq c 13 && starts_with s (10 ∷ [])
    then rest
    else if is_line_break c
    then [] ∷ rest
    else onto_first c rest

-- "\n".join(lines) + "\n", if there are lines
abbrev pub end_lines : List Codes → Codes
end_lines [] = []
end_lines (line ∷ lines) = line ++ b'\n' ∷ end_lines lines

unfoldable pub lines_of : Option Codes → List Codes
unfolding splitlines
lines_of none = []
lines_of (some content) = splitlines content

-- The name of a file that may be absent.
abbrev pub named : Codes → Codes → Option Codes → Codes
named prefix path none = codes "/dev/null"
named prefix path (some content) = prefix ++ path

abbrev pub bytes_of : Option Codes → ℕ
bytes_of none = 0
bytes_of (some content) = utf8_length content

module _ (unified_diff : List Codes → List Codes → Codes → Codes → List Codes) where
  unfoldable pub fragments : List PlannedChange → List Codes
  unfolding lines_of
  fragments [] = []
  fragments (item ∷ items) =
      unified_diff (lines_of item.before) (lines_of item.after)
        (named (codes "a/") item.path item.before) (named (codes "b/") item.path item.after)
      ++ fragments items

  abbrev pub build_unified_diff : List PlannedChange → Codes
  build_unified_diff planned = end_lines (fragments planned)

module _ (sha256 : Codes → Codes) where
  abbrev pub digest_of : Option Codes → Option Codes
  digest_of none = none
  digest_of (some content) = some (sha256 content)

  abbrev pub reviewed : PlannedChange → ReviewedFileChange
  reviewed item = record {
    path = item.path;
    action = item.action;
    before_sha256 = digest_of item.before;
    after_sha256 = digest_of item.after;
    before_bytes = bytes_of item.before;
    after_bytes = bytes_of item.after;
    explanation = item.change.explanation;
  }

  abbrev pub review : ProposedPatch → List PlannedChange → Codes → PatchReview
  review proposal planned diff = record {
    patch_id = proposal.patch_id;
    summary = proposal.summary;
    rationale = proposal.rationale;
    changed_files = map reviewed planned;
    unified_diff = diff;
  }

module _ (sha256 : Codes → Codes)
    (unified_diff : List Codes → List Codes → Codes → Codes → List Codes) where
  -- What stands before the first write: the files, the plan, its result and its difference.
  unfoldable pub prepare :
      LocalPatchWorkspace → ProposedPatch → Checked (Files × List PlannedChange × Files)
  unfolding read_workspace_files plan_changes fragments
  prepare workspace proposal = do
    ensure_open workspace
    current ← read_workspace_files workspace.limits workspace.root
    (planned, result) ← plan_changes sha256 workspace.limits proposal current
    let diff = build_unified_diff unified_diff planned
    raise_if (not (can_encode diff)) patch_validation_error
    raise_if (ltb workspace.limits.max_diff_bytes (utf8_length diff)) patch_validation_error
    ok (current, planned, result)

  unfoldable pub apply :
      LocalPatchWorkspace → ProposedPatch → Checked (PatchReview × LocalPatchWorkspace)
  unfolding prepare write_result_files fragments
  apply workspace proposal = do
    (current, planned, result) ← prepare workspace proposal
    root ← write_result_files workspace.limits current result workspace.root
    ok (
      review sha256 proposal planned (build_unified_diff unified_diff planned),
      record workspace { root = root },
    )
