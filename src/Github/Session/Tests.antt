-- ===== src/Github/Session/Tests.antt =====
-- Tests of a patch workspace: a file gives way to a directory.
use mathlib.Core.Path.{subst}
use vh26_pixel_perfect.Prelude.{
  inl, inr, ◌⊎◌, ◌↔◌, ◌≡◌, refl, sym, false, none, some, List, [], ◌∷◌, ◌∙◌,
}
use vh26_pixel_perfect.Prelude.Dict
use vh26_pixel_perfect.Prelude.Text.{codes, lower_code}
use vh26_pixel_perfect.Prelude.Codes.{
  Codes, same_text, starts_with, ends_with, lstrip, rstrip, strip, split, partition,
}
use vh26_pixel_perfect.Prelude.Codes.Laws.{text_eq}
use vh26_pixel_perfect.Prelude.Result.{err, ok, ok_inj}
use vh26_pixel_perfect.Github.Paths.{
  PatchError, patch_validation_error, validate_path, is_dots, ends_badly, is_windows_reserved_name,
  validate_metadata_text, normalize_sha256, is_base_16,
}
use vh26_pixel_perfect.Github.Workspace.{
  WorkspaceLimits, ProposedFileChange, ProposedPatch, PlannedChange, Files, is_file, coerce_action,
  ancestors, ensure_no_file_directory_collision, validate_no_file_directory_collisions, byte_count,
  validate_files, validate_file_set, require_change_content, verify_expected_sha256, apply_change,
  plan_change, plan_from, plan_changes, create, delete,
}
use vh26_pixel_perfect.Github.Workspace.Plan.{Plans}
use vh26_pixel_perfect.Github.Workspace.Keys.{NodupKeys}
use vh26_pixel_perfect.Github.Workspace.Limits.{IsBounded, plan_changes-Plans}
use vh26_pixel_perfect.Github.Directory.{
  Node, file, dir, end, entry, find, without, place, materialize, replace, prune,
}
use vh26_pixel_perfect.Github.Directory.Result.{
  names, text_ltb, insert_path, sort_paths, is_deeper, is_required, is_blocker, obsolete_files,
  shape_blockers, other_obsolete_files, materialize_target, atomic_write_text, delete_all,
  write_path, write_changed, write_result_files,
}
use vh26_pixel_perfect.Github.Directory.Reading.{collect, read_workspace_files}
use vh26_pixel_perfect.Github.Session.{
  LocalPatchWorkspace, normalize_from, normalize_base_files, new_workspace, cleanup, lines_of,
  splitlines, fragments, build_unified_diff, review, prepare, apply,
}
use vh26_pixel_perfect.Github.Session.Outcome.{
  apply-prepare_iff, IsOpen, new_workspace-IsOpen, apply-Carries,
  read_workspace_files-write_result_files,
}

abbrev limits : WorkspaceLimits
limits = record {
  max_file_count = 5;
  max_changes = 3;
  max_file_bytes = 100;
  max_total_bytes = 200;
  max_patch_bytes = 150;
  max_diff_bytes = 300;
  max_path_length = 40;
}

abbrev digest : Codes → Codes
digest text = text

-- The lines that are there before or after.
abbrev diff : List Codes → List Codes → Codes → Codes → List Codes
diff [] lines from to = lines
diff (line ∷ lines) new from to = line ∷ lines

abbrev base : Files
base = (codes "src", codes "old") ∷ (codes "docs/a", codes "text") ∷ []

abbrev files : Files
files = (codes "docs/a", codes "text") ∷ (codes "src", codes "old") ∷ []

abbrev docs : Node
docs = dir (entry (codes "a") (file (codes "text")) end)

abbrev workspace : LocalPatchWorkspace
workspace = record {
  limits = limits;
  is_closed = false;
  root = dir (entry (codes "src") (file (codes "old")) (entry (codes "docs") docs end));
}

abbrev removal : ProposedFileChange
removal = record {
  path = codes "src";
  action = codes "delete";
  content = none;
  expected_sha256 = none;
  explanation = none;
}

abbrev addition : ProposedFileChange
addition = record {
  path = codes "src/app";
  action = codes "create";
  content = some (codes "new");
  expected_sha256 = none;
  explanation = none;
}

abbrev patch : ProposedPatch
patch = record {
  patch_id = codes "p1";
  summary = codes "split";
  changes = removal ∷ addition ∷ [];
  rationale = none;
}

abbrev planned : List PlannedChange
planned =
    record {
      change = removal;
      action = delete;
      path = codes "src";
      before = some (codes "old");
      after = none;
    }
    ∷ record {
      change = addition;
      action = create;
      path = codes "src/app";
      before = none;
      after = some (codes "new");
    }
    ∷ []

abbrev result : Files
result = (codes "src/app", codes "new") ∷ (codes "docs/a", codes "text") ∷ []

base_accepted : normalize_base_files limits base ≡ ok files
unfolding normalize_base_files normalize_from validate_path is_dots ends_badly
    is_windows_reserved_name split same_text starts_with ends_with partition Dict.get Dict.put
    Dict.remove byte_count validate_file_set validate_files validate_no_file_directory_collisions
    ancestors is_file
base_accepted = refl

workspace_made : new_workspace limits base ≡ ok workspace
unfolding new_workspace normalize_base_files normalize_from validate_path is_dots ends_badly
    is_windows_reserved_name split same_text starts_with ends_with partition Dict.get Dict.put
    Dict.remove byte_count validate_file_set validate_files validate_no_file_directory_collisions
    ancestors is_file write_result_files names text_ltb insert_path sort_paths is_deeper is_required
    is_blocker obsolete_files shape_blockers other_obsolete_files materialize_target
    atomic_write_text delete_all write_path write_changed find without place materialize replace
    prune
workspace_made = refl

new_workspace-IsOpen_example :
    ((made : LocalPatchWorkspace) × (new_workspace limits base ≡ ok made)
      × (made.limits ≡ limits)
      × IsOpen made base
      × NodupKeys base)
    ⊎ ((e : PatchError) × (new_workspace limits base ≡ err e)
        × ¬ (NodupKeys base × IsBounded limits base))
new_workspace-IsOpen_example = new_workspace-IsOpen limits base

workspace-IsOpen : IsOpen workspace base
workspace-IsOpen = elim (new_workspace-IsOpen limits base) [
  | inl (made, eq, same, opened, once) ↦
      let at : made ≡ workspace = ok_inj (sym eq ∙ workspace_made) in
      subst (λ w. IsOpen w base) at opened
  | inr (e, refused, reason) ↦ let clash = sym refused ∙ workspace_made in cc
]

-- A base file given twice is refused.
twice_refused :
    new_workspace limits ((codes "src", codes "old") ∷ (codes "src", codes "old") ∷ [])
    ≡ err patch_validation_error
unfolding new_workspace normalize_base_files normalize_from validate_path is_dots ends_badly
    is_windows_reserved_name split same_text starts_with ends_with partition Dict.get Dict.put
    is_file
twice_refused = refl

plan_accepted : plan_changes digest limits patch files ≡ ok (planned, result)
unfolding plan_changes plan_from plan_change validate_path is_dots ends_badly
    is_windows_reserved_name split same_text starts_with ends_with partition Dict.get Dict.put
    Dict.remove normalize_sha256 is_base_16 strip lstrip rstrip lower_code validate_metadata_text
    verify_expected_sha256 require_change_content byte_count validate_file_set validate_files
    validate_no_file_directory_collisions ensure_no_file_directory_collision ancestors is_file
    coerce_action apply_change
plan_accepted = refl

prepared : prepare digest diff workspace patch ≡ ok (files, planned, result)
unfolding prepare read_workspace_files collect plan_changes plan_from plan_change validate_path
    is_dots ends_badly is_windows_reserved_name split same_text starts_with ends_with partition
    Dict.get Dict.put Dict.remove normalize_sha256 is_base_16 strip lstrip rstrip lower_code
    validate_metadata_text verify_expected_sha256 require_change_content byte_count
    validate_file_set validate_files validate_no_file_directory_collisions
    ensure_no_file_directory_collision ancestors is_file coerce_action apply_change lines_of
    splitlines fragments
prepared = refl

apply-Carries_example :
    (after : LocalPatchWorkspace) × (apply digest diff workspace patch
      ≡ ok (review digest patch planned (build_unified_diff diff planned), after))
    × IsOpen after result
    × Plans digest limits (removal ∷ addition ∷ []) files planned result
    × ((path : Codes) → Dict.get path files ≡ Dict.get path base)
apply-Carries_example =
    apply-Carries digest diff workspace patch base files result planned workspace-IsOpen prepared

read_workspace_files-write_result_files_example :
    (after : Node) × (read : Files) × (write_result_files limits base result workspace.root
      ≡ ok after)
    × (read_workspace_files limits after ≡ ok read)
    × ((path : Codes) → Dict.get path read ≡ Dict.get path result)
read_workspace_files-write_result_files_example =
    read_workspace_files-write_result_files workspace base result workspace-IsOpen
      (plan_changes-Plans limits digest patch files result planned plan_accepted).1

abbrev nothing : ProposedPatch
nothing = record patch { changes = [] }

apply-prepare_iff_example :
    (apply digest diff workspace nothing ≡ err patch_validation_error)
    ↔ (prepare digest diff workspace nothing ≡ err patch_validation_error)
apply-prepare_iff_example =
    apply-prepare_iff digest diff workspace nothing base patch_validation_error workspace-IsOpen

-- A proposal without changes is refused.
nothing_refused : prepare digest diff workspace nothing ≡ err patch_validation_error
unfolding prepare read_workspace_files collect plan_changes validate_path is_dots ends_badly
    is_windows_reserved_name split same_text starts_with ends_with partition Dict.get Dict.put
    Dict.remove strip lstrip rstrip validate_metadata_text byte_count validate_file_set
    validate_files validate_no_file_directory_collisions ancestors is_file
nothing_refused = refl

-- A closed workspace is cleaned up only once.
cleanup_twice : cleanup (cleanup workspace) ≡ cleanup workspace
unfolding cleanup
cleanup_twice = refl
