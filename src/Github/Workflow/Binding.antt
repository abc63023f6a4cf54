-- ===== src/Github/Workflow/Binding.antt =====
-- What the binding of github_integration/workflow.py guarantees of a patch, to its reviewer and to the
-- workspace that plans it.
use mathlib.Core.Path.{subst}
use vh26_pixel_perfect.Prelude.{
  ◌≡◌, ◌≢◌, refl, ap, true, false, not, Option, none, some, List, [], ◌∷◌, map, arith,
}
use vh26_pixel_perfect.Prelude.Dict
use vh26_pixel_perfect.Prelude.Dict.{get-put, get-remove}
use vh26_pixel_perfect.Prelude.Text.{lower_code}
use vh26_pixel_perfect.Prelude.Codes.{Codes}
use vh26_pixel_perfect.Prelude.Codes.Laws.{text_eq, same_text_iff}
use vh26_pixel_perfect.Prelude.Result.{ok, >>=-eq-ok, passed, ok_inj}
use vh26_pixel_perfect.Github.Paths.{patch_validation_error}
use vh26_pixel_perfect.Github.Workspace.{
  ChangeAction, create, update, delete, ProposedFileChange, ProposedPatch, Files, coerce_action,
}
use vh26_pixel_perfect.Github.Workflow.{
  permitted, is_create, supplied, differs, bind_change, bind_changes, bind_patch_to_snapshot,
  nothing_permitted,
}

-- A bound change updates or deletes a supplied and permitted file, and expects the digest of it. Only
-- the expected digest is not the proposal's, which had this one or none.
pub record Binds (sha256 : Codes → Codes) (base : Files) (allowed : Option (List Codes))
    (change bound : ProposedFileChange) : Type 0 where
  pub action : ChangeAction
  pub source : Codes
  pub acted : coerce_action bound.action ≡ ok action
  pub not_created : action ≢ create
  pub found : Dict.get bound.path base ≡ some source
  pub allows : permitted allowed bound.path ≡ true
  pub expected : bound.expected_sha256 ≡ some (sha256 source)
  pub rest : bound ≡ record change { expected_sha256 = some (sha256 source) }
  pub agreed : (e : Codes) → change.expected_sha256 ≡ some e → map lower_code e ≡ sha256 source

abbrev pub BindsEach :
    (Codes → Codes)
    → Files
    → Option (List Codes)
    → List ProposedFileChange
    → List ProposedFileChange
    → Type 0
BindsEach sha256 base allowed [] [] = Unit
BindsEach sha256 base allowed (c ∷ cs) (b ∷ bs) =
    Binds sha256 base allowed c b × BindsEach sha256 base allowed cs bs
BindsEach sha256 base allowed _ _ = ⊥

not_differs :
    (digest e : Codes) (o : Option Codes)
    → differs digest o ≡ false
    → o ≡ some e
    → map lower_code e ≡ digest
not_differs digest e none h k = cc
not_differs digest e (some x) h k =
    ground (arith, same_text_iff (map lower_code x) digest, ap (map lower_code) (some_inj k))
  where
    some_inj : {a b : Codes} → ◌≡◌ {A = Option Codes} (some a) (some b) → a ≡ b
    some_inj q = cc

created : (action : ChangeAction) → is_create action ≡ false → action ≢ create
created create h = cc
created update h = λ e. cc
created delete h = λ e. cc

get-supplied : (o : Option Codes) (source : Codes) → supplied o ≡ ok source → o ≡ some source
get-supplied o source h = ground arith

module _ (sha256 : Codes → Codes) (base : Files) (allowed : Option (List Codes)) where
  bind_change-Binds :
      (change bound : ProposedFileChange)
      → bind_change sha256 base allowed change ≡ ok bound
      → Binds sha256 base allowed change bound
  unfolding bind_change
  bind_change-Binds change bound h =
      let (action, acted, h1) = >>=-eq-ok (coerce_action change.action) _ h in
      let (old, h2) = passed (is_create action) patch_validation_error _ h1 in
      let (source, found, h3) = >>=-eq-ok (supplied (Dict.get change.path base)) _ h2 in
      let (may, h4) = passed (not (permitted allowed change.path)) patch_validation_error _ h3 in
      let (agrees, h5) =
        passed (differs (sha256 source) change.expected_sha256) patch_validation_error _ h4 in
      subst (Binds sha256 base allowed change) (ok_inj h5) (record {
        action = action;
        source = source;
        acted = acted;
        not_created = created action old;
        found = get-supplied (Dict.get change.path base) source found;
        allows = ground arith;
        expected = refl;
        rest = refl;
        agreed = λ e k. not_differs (sha256 source) e change.expected_sha256 agrees k;
      })

  bind_changes-BindsEach :
      (changes bound : List ProposedFileChange)
      → bind_changes sha256 base allowed changes ≡ ok bound
      → BindsEach sha256 base allowed changes bound
  unfolding bind_changes
  bind_changes-BindsEach [] bound h = subst (BindsEach sha256 base allowed []) (ok_inj h) tt
  bind_changes-BindsEach (change ∷ changes) bound h =
      let (b, first, h1) = >>=-eq-ok (bind_change sha256 base allowed change) _ h in
      let (bs, others, h2) = >>=-eq-ok (bind_changes sha256 base allowed changes) _ h1 in
      subst (BindsEach sha256 base allowed (change ∷ changes)) (ok_inj h2)
        (bind_change-Binds change b first, bind_changes-BindsEach changes bs others)

  -- Whatever the proposal, each change of the bound patch updates or deletes a file that was supplied
  -- and is permitted, and expects the digest of exactly that source; the rest of it is as proposed, and
  -- a proposed digest was this one up to the case of its letters.
  pub bind_patch_to_snapshot-BindsEach :
      (proposal bound : ProposedPatch)
      → bind_patch_to_snapshot sha256 base allowed proposal ≡ ok bound
      → BindsEach sha256 base allowed proposal.changes bound.changes
  unfolding bind_patch_to_snapshot
  bind_patch_to_snapshot-BindsEach proposal bound h =
      let (_, h1) = passed (nothing_permitted allowed base) patch_validation_error _ h in
      let (bs, each, h2) = >>=-eq-ok (bind_changes sha256 base allowed proposal.changes) _ h1 in
      subst (λ b. BindsEach sha256 base allowed proposal.changes b.changes) (ok_inj h2)
        (bind_changes-BindsEach proposal.changes bs each)
