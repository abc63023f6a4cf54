-- ===== src/Github/Workflow/Refusals.antt =====
-- Which tests of github_integration/workspace.py refuse a patch, and never for a conflict.
use vh26_pixel_perfect.Prelude.{
  ℕ, ◌+◌, ◌≡◌, ◌≢◌, Bool, true, false, Option, none, some, [], ◌∷◌, length, ltb, Option-cases, inl,
  inr, arith,
}
use vh26_pixel_perfect.Prelude.Codes.{Codes}
use vh26_pixel_perfect.Prelude.Codes.Laws.{text_eq}
use vh26_pixel_perfect.Prelude.Result.{Result, ok, err, ◌>>=◌, raise_if, >>=-ne-err}
use vh26_pixel_perfect.Github.Paths.{
  PatchError, patch_validation_error, patch_conflict_error, validate_path, validate_metadata_text,
  validate_optional, normalize_sha256,
}
use vh26_pixel_perfect.Github.Workspace.{
  WorkspaceLimits, ProposedFileChange, Files, coerce_action, require_change_content, byte_count,
  content_bytes, validate_files, validate_file_set, validate_no_file_directory_collisions,
}

abbrev pub NoConflict {ℓ} : {A : Type ℓ} → Result PatchError A → Type ℓ
NoConflict m = m ≢ err patch_conflict_error

pub raised : (test : Bool) → NoConflict (raise_if test patch_validation_error)
raised true e = cc
raised false e = cc

abbrev pub then_ {ℓ κ} :
    {A : Type ℓ} {B : Type κ} (m : Result PatchError A) (f : A → Result PatchError B)
    → NoConflict m
    → ((a : A) → m ≡ ok a → NoConflict (f a))
    → NoConflict (m >>= f)
then_ m f h k = >>=-ne-err patch_conflict_error m f h k

path_refused : (limit : ℕ) (path : Codes) → NoConflict (validate_path limit path)
unfolding validate_path
path_refused limit path e = ground arith

pub action_refused : (action : Codes) → NoConflict (coerce_action action)
unfolding coerce_action
action_refused action e = ground arith

pub text_refused : (maximum : ℕ) (value : Codes) → NoConflict (validate_metadata_text maximum value)
unfolding validate_metadata_text
text_refused maximum value e = ground arith

pub optional_refused : (maximum : ℕ) (o : Option Codes) → NoConflict (validate_optional maximum o)
optional_refused maximum none e = cc
optional_refused maximum (some value) e = text_refused maximum value e

pub digest_refused : (o : Option Codes) → NoConflict (normalize_sha256 o)
unfolding normalize_sha256
digest_refused none e = cc
digest_refused (some value) e = ground arith

bytes_refused : (content : Codes) → NoConflict (byte_count content)
unfolding byte_count
bytes_refused content e = ground arith

pub content_refused :
    (limits : WorkspaceLimits) (change : ProposedFileChange)
    → NoConflict (require_change_content limits change)
unfolding require_change_content
content_refused limits change e = elim (Option-cases change.content) [
  | inl absent ↦ ground arith
  | inr (content, found) ↦ ground (arith, bytes_refused content)
]

pub size_refused : (after : Option Codes) → NoConflict (content_bytes after)
size_refused none e = cc
size_refused (some after) e = bytes_refused after e

files_refused :
    (limits : WorkspaceLimits) (total : ℕ) (files : Files)
    → NoConflict (validate_files limits total files)
unfolding validate_files
files_refused limits total [] = λ e. cc
files_refused limits total ((path, content) ∷ files) =
    then_ (validate_path limits.max_path_length path) _ (path_refused limits.max_path_length path)
      (λ _ _. then_ (byte_count content) _ (bytes_refused content) (λ size _.
        then_ (raise_if (ltb limits.max_file_bytes size) patch_validation_error) _ (raised _)
          (λ _ _.
            then_ (raise_if (ltb limits.max_total_bytes (total + size)) patch_validation_error) _
              (raised _) (λ _ _. files_refused limits (total + size) files))))

pub file_set_refused :
    (limits : WorkspaceLimits) (files : Files) → NoConflict (validate_file_set limits files)
unfolding validate_file_set validate_no_file_directory_collisions
file_set_refused limits files =
    then_ (raise_if (ltb limits.max_file_count (length files)) patch_validation_error) _ (raised _)
      (λ _ _.
        then_ (validate_files limits 0 files) _ (files_refused limits 0 files) (λ _ _. raised _))
