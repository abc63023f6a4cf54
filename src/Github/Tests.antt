-- ===== src/Github/Tests.antt =====
-- Tests of github_integration/.
use vh26_pixel_perfect.Prelude.{
  ◌≡◌, ◌≢◌, refl, ◌≤◌, true, false, none, some, List, [], ◌∷◌, if◌then◌else◌,
}
use vh26_pixel_perfect.Prelude.Dict.{get, put, remove}
use vh26_pixel_perfect.Prelude.Text.{codes, lower_code}
use vh26_pixel_perfect.Prelude.Codes.{
  Codes, is_blank, same_text, starts_with, ends_with, lstrip, rstrip, strip, split, partition,
  utf8_length, has,
}
use vh26_pixel_perfect.Prelude.Result.{ok, err}
use vh26_pixel_perfect.Github.Paths.{
  patch_validation_error, patch_conflict_error, validate_path, is_dots, ends_badly,
  is_windows_reserved_name, validate_metadata_text, normalize_sha256, is_base_16, slash,
}
use vh26_pixel_perfect.Github.Paths.Containment.{resolve_parts, below, validate_path-contained}
use vh26_pixel_perfect.Github.SourcePolicy.{
  SourceContextPolicy, SnapshotRow, no_size, Blob, SourceContext, is_safe_path,
}
use vh26_pixel_perfect.Github.SourceContext.{
  build_source_context, select_source_files, sort_ranked, ranks_before, collect_references,
  fetch_excerpts, checked_content,
}
use vh26_pixel_perfect.Github.SourceContext.Bounded
use vh26_pixel_perfect.Github.SourceContext.Bounded.{build_source_context-IsBounded}
use vh26_pixel_perfect.Github.Workspace.{
  WorkspaceLimits, ProposedFileChange, ProposedPatch, PlannedChange, Files, is_file, coerce_action,
  ancestors, validate_no_file_directory_collisions, byte_count, validate_files, validate_file_set,
  require_change_content, verify_expected_sha256, plan_change, plan_from, plan_changes, update,
}
use vh26_pixel_perfect.Github.Workspace.Plan.{Plans}
use vh26_pixel_perfect.Github.Workspace.Limits.{IsBounded, plan_changes-Plans}
use vh26_pixel_perfect.Github.Workflow.{bind_changes, bind_patch_to_snapshot}
use vh26_pixel_perfect.Github.Workflow.Binding.{BindsEach, bind_patch_to_snapshot-BindsEach}
use vh26_pixel_perfect.Github.Workflow.Conflicts.{IsDigest, plan_changes-bind_patch}

device_refused : validate_path 100 (codes "src/Com1.txt") ≡ err patch_validation_error
unfolding validate_path is_dots ends_badly is_windows_reserved_name split same_text starts_with
    ends_with partition
device_refused = refl

parent_refused : validate_path 100 (codes "src/../x") ≡ err patch_validation_error
unfolding validate_path is_dots ends_badly is_windows_reserved_name split same_text starts_with
    ends_with partition
parent_refused = refl

source_accepted : validate_path 100 (codes "src/app.py") ≡ ok (codes "src/app.py")
unfolding validate_path is_dots ends_badly is_windows_reserved_name split same_text starts_with
    ends_with partition
source_accepted = refl

underscored : is_base_16 (codes " 0x_1f_0 ") ≡ true
unfolding is_base_16 strip lstrip rstrip lower_code
underscored = refl

validate_path-contained_example :
    (codes "src/app.py" ≡ codes "src/app.py")
    × (utf8_length (codes "src/app.py") ≤ 100)
    × (has b'\\' (codes "src/app.py") ≡ false)
    × (resolve_parts (codes "tmp" ∷ []) (split slash (codes "src/app.py"))
        ≡ below (codes "tmp" ∷ []) (split slash (codes "src/app.py")))
validate_path-contained_example =
    validate_path-contained 100 (codes "src/app.py") (codes "src/app.py") (codes "tmp" ∷ [])
      source_accepted

abbrev limits : WorkspaceLimits
limits = record {
  max_file_count = 5;
  max_changes = 3;
  max_file_bytes = 100;
  max_total_bytes = 200;
  max_patch_bytes = 150;
  max_diff_bytes = 300;
  max_path_length = 40;
}

-- A digest of 64 characters that tells an empty text from another.
abbrev digest : Codes → Codes
digest text =
    if is_blank text
    then codes "0000000000000000000000000000000000000000000000000000000000000000"
    else codes "1111111111111111111111111111111111111111111111111111111111111111"

digest-IsDigest : (text : Codes) → IsDigest (digest text)
unfolding is_base_16 strip lstrip rstrip lower_code
digest-IsDigest [] = (refl, refl, refl)
digest-IsDigest (c ∷ s) = (refl, refl, refl)

abbrev base : Files
base = (codes "src/app.py", codes "old") ∷ (codes "README", codes "text") ∷ []

abbrev change : ProposedFileChange
change = record {
  path = codes "src/app.py";
  action = codes "update";
  content = some (codes "new");
  expected_sha256 = none;
  explanation = none;
}

abbrev bound_change : ProposedFileChange
bound_change = record change { expected_sha256 = some (digest (codes "old")) }

abbrev patch : ProposedPatch
patch = record {
  patch_id = codes "p1";
  summary = codes "fix";
  changes = change ∷ [];
  rationale = none;
}

abbrev bound : ProposedPatch
bound = record patch { changes = bound_change ∷ [] }

abbrev planned : List PlannedChange
planned =
    record {
      change = bound_change;
      action = update;
      path = codes "src/app.py";
      before = some (codes "old");
      after = some (codes "new");
    }
    ∷ []

abbrev result : Files
result = (codes "src/app.py", codes "new") ∷ (codes "README", codes "text") ∷ []

binding_accepted : bind_patch_to_snapshot digest base none patch ≡ ok bound
unfolding bind_patch_to_snapshot bind_changes coerce_action same_text get
binding_accepted = refl

plan_accepted : plan_changes digest limits bound base ≡ ok (planned, result)
unfolding plan_changes plan_from plan_change validate_path is_dots ends_badly
    is_windows_reserved_name split same_text starts_with ends_with partition get put remove
    normalize_sha256 is_base_16 strip lstrip rstrip lower_code validate_metadata_text
    verify_expected_sha256 require_change_content byte_count validate_file_set validate_files
    validate_no_file_directory_collisions ancestors is_file
plan_accepted = refl

plan_changes-Plans_example :
    Plans digest limits (bound_change ∷ []) base planned result × IsBounded limits result
plan_changes-Plans_example =
    plan_changes-Plans limits digest bound base result planned plan_accepted

bind_patch_to_snapshot-BindsEach_example :
    BindsEach digest base none (change ∷ []) (bound_change ∷ [])
bind_patch_to_snapshot-BindsEach_example =
    bind_patch_to_snapshot-BindsEach digest base none patch bound binding_accepted

plan_changes-bind_patch_example : plan_changes digest limits bound base ≢ err patch_conflict_error
plan_changes-bind_patch_example =
    plan_changes-bind_patch digest limits digest-IsDigest base none patch bound binding_accepted

abbrev policy : SourceContextPolicy
policy = record {
  max_files = 2;
  max_file_bytes = 10;
  max_total_bytes = 12;
  max_path_length = 50;
  allowed_suffixes = codes ".py" ∷ [];
}

abbrev row : Codes → Codes → SnapshotRow
row path sha = record { object_type = none; path = some path; blob_sha = some sha; size = no_size }

abbrev rows : List SnapshotRow
rows =
    row (codes "src/app.py") (codes "aa")
    ∷ row (codes "secrets/key.py") (codes "bb")
    ∷ row (codes "src/log.py") (codes "cc")
    ∷ []

-- The reader: every blob has six bytes.
abbrev get_blob : Codes → Blob
get_blob sha = record { sha = sha; content = some (codes "import"); size = some 6 }

abbrev context : SourceContext
context = record {
  excerpts =
      record {
        path = codes "src/app.py";
        blob_sha = codes "aa";
        text = codes "import";
        byte_count = 6;
      }
      ∷ record {
        path = codes "src/log.py";
        blob_sha = codes "cc";
        text = codes "import";
        byte_count = 6;
      }
      ∷ [];
  omitted_file_count = 0;
  total_bytes = 12;
  digest = [];
}

-- A secret file is left out.
context_built :
    build_source_context some policy (λ _. []) (λ _. 0) get_blob (codes "o") (codes "r") rows
    ≡ ok context
unfolding build_source_context select_source_files sort_ranked ranks_before collect_references
    is_safe_path fetch_excerpts checked_content split same_text starts_with ends_with strip lstrip
    rstrip lower_code
context_built = refl

build_source_context-IsBounded_example : Bounded.IsBounded some policy get_blob rows context
build_source_context-IsBounded_example =
    build_source_context-IsBounded some policy get_blob rows (λ _. []) (λ _. 0) (codes "o")
      (codes "r") context context_built
