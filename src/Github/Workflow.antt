-- ===== src/Github/Workflow.antt =====
-- github_integration/workflow.py: a proposed patch bound to the source files that a diagnosis read.
pub mod Binding
pub mod Refusals
pub mod Conflicts
use vh26_pixel_perfect.Prelude.{
  ℕ, Bool, true, false, ◌||◌, not, Option, none, some, List, [], ◌∷◌, any, map, if◌then◌else◌,
}
use vh26_pixel_perfect.Prelude.Dict
use vh26_pixel_perfect.Prelude.Text.{lower_code}
use vh26_pixel_perfect.Prelude.Codes.{Codes, same_text, can_encode}
use vh26_pixel_perfect.Prelude.Codes.Laws.{text_eq}
use vh26_pixel_perfect.Prelude.Result.{Result, ok, err, ◌>>=◌, ◌>>◌, raise_if}
use vh26_pixel_perfect.Github.Paths.{PatchError, patch_validation_error}
use vh26_pixel_perfect.Github.Workspace.{
  ChangeAction, create, update, delete, ProposedFileChange, ProposedPatch, Files, Checked, is_file,
  coerce_action,
}

-- The paths that a patch may change: those of the files, or the given ones.
abbrev pub permitted : Option (List Codes) → Codes → Bool
permitted none path = true
permitted (some paths) path = any (same_text path) paths

abbrev pub nothing_permitted : Option (List Codes) → Files → Bool
nothing_permitted none [] = true
nothing_permitted none (_ ∷ _) = false
nothing_permitted (some []) files = true
nothing_permitted (some (_ ∷ _)) files = false

abbrev pub is_create : ChangeAction → Bool
is_create create = true
is_create _ = false

-- The supplied file at a path.
abbrev pub supplied : Option Codes → Checked Codes
supplied none = err patch_validation_error
supplied (some source) = ok source

abbrev pub differs : Codes → Option Codes → Bool
differs digest none = false
differs digest (some expected) = not (same_text (map lower_code expected) digest)

module _ (sha256 : Codes → Codes) (base_files : Files) (allowed_paths : Option (List Codes)) where
  -- A text that has no encoding is a UnicodeEncodeError, which is not a refusal of the patch: the
  -- files that were fetched are decoded from UTF-8, and have one.
  unfoldable pub bind_change : ProposedFileChange → Checked ProposedFileChange
  bind_change change = do
    action ← coerce_action change.action
    raise_if (is_create action) patch_validation_error
    source ← supplied (Dict.get change.path base_files)
    raise_if (not (permitted allowed_paths change.path)) patch_validation_error
    raise_if (differs (sha256 source) change.expected_sha256) patch_validation_error
    ok (record change { expected_sha256 = some (sha256 source) })

  unfoldable pub bind_changes : List ProposedFileChange → Checked (List ProposedFileChange)
  unfolding bind_change
  bind_changes [] = ok []
  bind_changes (change ∷ changes) = do
    bound ← bind_change change
    rest ← bind_changes changes
    ok (bound ∷ rest)

  unfoldable pub bind_patch_to_snapshot : ProposedPatch → Checked ProposedPatch
  bind_patch_to_snapshot proposal = do
    raise_if (nothing_permitted allowed_paths base_files) patch_validation_error
    changes ← bind_changes proposal.changes
    ok (record proposal { changes = changes })
