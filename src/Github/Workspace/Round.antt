-- ===== src/Github/Workspace/Round.antt =====
-- What one round of the plan of github_integration/workspace.py does.
use mathlib.Core.Path.{subst}
use vh26_pixel_perfect.Prelude.{
  ◌≡◌, ◌≢◌, refl, false, Option, none, some, List, any, ◌==◌, inl, inr, if◌then◌else◌, arith,
}
use vh26_pixel_perfect.Prelude.Dict
use vh26_pixel_perfect.Prelude.Dict.{get-put, get-remove}
use vh26_pixel_perfect.Prelude.Codes.{Codes, same_text}
use vh26_pixel_perfect.Prelude.Codes.Laws.{text_eq, same_text_iff}
use vh26_pixel_perfect.Prelude.Result.{ok, >>=-eq-ok, passed, checked, ok_inj, Result-cases}
use vh26_pixel_perfect.Github.Paths.{
  patch_validation_error, validate_path, normalize_sha256, validate_optional,
}
use vh26_pixel_perfect.Github.Workspace.{
  ChangeAction, create, update, delete, WorkspaceLimits, ProposedFileChange, PlannedChange, Files,
  coerce_action, require_change_content, verify_expected_sha256, apply_change, plan_change,
}

-- A change of each kind: what it found, what it was told to expect, and what it leaves.
abbrev pub Fits :
    (Codes → Codes)
    → ChangeAction
    → Option Codes
    → Option Codes
    → Option Codes
    → Option Codes
    → Type 0
Fits sha256 create content before expected after =
    (before ≡ none) × (expected ≡ none) × (after ≡ content) × (after ≢ none)
Fits sha256 update content before expected after =
    (old : Codes) × (before ≡ some old)
    × ((e : Codes) → expected ≡ some e → sha256 old ≡ e)
    × (after ≡ content)
    × (after ≢ none)
    × (after ≢ before)
Fits sha256 delete content before expected after =
    (old : Codes) × (before ≡ some old)
    × ((e : Codes) → expected ≡ some e → sha256 old ≡ e)
    × (content ≡ none)
    × (after ≡ none)

content-require :
    (limits : WorkspaceLimits) (change : ProposedFileChange) (after : Codes)
    → require_change_content limits change ≡ ok after
    → some after ≡ change.content
unfolding require_change_content
content-require limits change after h = ground arith

digest-verify :
    (sha256 : Codes → Codes) (before : Codes) (expected : Option Codes) (e : Codes)
    → verify_expected_sha256 sha256 before expected ≡ ok tt
    → expected ≡ some e
    → sha256 before ≡ e
unfolding verify_expected_sha256
digest-verify sha256 before none e h k = cc
digest-verify sha256 before (some e') e h k = ground (arith, same_text_iff (sha256 before) e')

module _ (sha256 : Codes → Codes) (limits : WorkspaceLimits) where
  apply_change-Fits :
      (action : ChangeAction) (change : ProposedFileChange) (path : Codes)
      (before expected after : Option Codes) (files result : Files)
      → apply_change sha256 limits action change path before expected files ≡ ok (after, result)
      → Fits sha256 action change.content before expected after
        × ((q : Codes) → Dict.get q result ≡ (if path == q then after else Dict.get q files))
  unfolding apply_change
  apply_change-Fits create change path (some b) expected after files result h = cc
  apply_change-Fits create change path none (some e) after files result h = cc
  apply_change-Fits create change path none none after files result h =
      elim (Result-cases (require_change_content limits change)) [
        | inl (c, e) ↦ (
          (refl, refl, ground (arith, content-require limits change c), ground arith),
          λ q. ground (arith, get-put path q c files),
        )
        | inr (x, e) ↦ absurd (ground arith)
      ]
  apply_change-Fits update change path none expected after files result h = cc
  apply_change-Fits update change path (some old) expected after files result h =
      elim (Result-cases (require_change_content limits change)) [
        | inl (c, e) ↦ (
          (
            old,
            refl,
            λ x k. digest-verify sha256 old expected x (ground arith) k,
            ground (arith, content-require limits change c),
            ground arith,
            ground (arith, same_text_iff c old),
          ),
          λ q. ground (arith, get-put path q c files),
        )
        | inr (x, e) ↦ absurd (ground arith)
      ]
  apply_change-Fits delete change path none expected after files result h = cc
  apply_change-Fits delete change path (some old) expected after files result h = (
    (
      old,
      refl,
      λ e k. digest-verify sha256 old expected e (ground arith) k,
      ground arith,
      ground arith,
    ),
    λ q. ground (arith, get-remove path q files),
  )

  -- A planned change is the proposal's, about a valid path, with what the files contain there.
  pub record Planned (files : Files) (p : PlannedChange) : Type 0 where
    pub expected : Option Codes
    pub normalized : normalize_sha256 p.change.expected_sha256 ≡ ok expected
    pub action : coerce_action p.change.action ≡ ok p.action
    pub path : validate_path limits.max_path_length p.change.path ≡ ok p.path
    pub before : p.before ≡ Dict.get p.path files
    pub fits : Fits sha256 p.action p.change.content p.before expected p.after

  -- One round of the loop plans its change, about a path that is new, and writes that path only.
  abbrev pub Round : ProposedFileChange → List Codes → Files → PlannedChange × Files → Type 0
  Round change seen files (p, result) =
      (p.change ≡ change)
      × (any (same_text p.path) seen ≡ false)
      × Planned files p
      × ((q : Codes) → Dict.get q result ≡ (if p.path == q then p.after else Dict.get q files))

  pub plan_change-Round :
      (change : ProposedFileChange) (seen : List Codes) (files : Files) (r : PlannedChange × Files)
      → plan_change sha256 limits change seen files ≡ ok r
      → Round change seen files r
  unfolding plan_change
  plan_change-Round change seen files r h =
      let (path, valid, h1) = >>=-eq-ok (validate_path limits.max_path_length change.path) _ h in
      let (new, h2) = passed (any (same_text path) seen) patch_validation_error _ h1 in
      let (action, acted, h3) = >>=-eq-ok (coerce_action change.action) _ h2 in
      let (expected, normal, h4) = >>=-eq-ok (normalize_sha256 change.expected_sha256) _ h3 in
      let (_, h5) = checked (validate_optional 4000 change.explanation) _ h4 in
      let ((after, result), changed, h6) =
        >>=-eq-ok
          (apply_change sha256 limits action change path (Dict.get path files) expected files) _
          h5 in
      let (fits, written) =
        apply_change-Fits action change path (Dict.get path files) expected after files result
          changed in
      subst (Round change seen files) (ok_inj h6) (
        refl,
        new,
        record {
          expected = expected;
          normalized = normal;
          action = acted;
          path = valid;
          before = refl;
          fits = fits;
        },
        written,
      )

-- What a path contains after the planned changes, from what it contained before.
