-- ===== src/Github/Workflow/Conflicts.antt =====
-- A patch that github_integration/workflow.py has bound, planned by github_integration/workspace.py
-- over the files that it was bound to.
use mathlib.Core.Bool.{false≢true}
use mathlib.Core.Path.{subst}
use vh26_pixel_perfect.Prelude.{
  ℕ, ◌+◌, ◌≡◌, ◌≢◌, ◌⊎◌, refl, ◌∙◌, sym, ap, true, false, Option, some, List, [], ◌∷◌, map, any,
  All, length, ltb, All-map, ◌==◌, Bool-cases, inl, inr, if◌then◌else◌, arith, or_true,
}
use vh26_pixel_perfect.Prelude.Dict
use vh26_pixel_perfect.Prelude.Text.{lower_code}
use vh26_pixel_perfect.Prelude.Codes.{Codes, same_text, split}
use vh26_pixel_perfect.Prelude.Codes.Laws.{text_eq, same_text_iff}
use vh26_pixel_perfect.Prelude.Result.{ok, err, raise_if, ok_inj}
use vh26_pixel_perfect.Github.Paths.{
  patch_validation_error, patch_conflict_error, validate_path, validate_metadata_text,
  validate_optional, normalize_sha256, is_base_16, is_bad_text, has_bad_part, slash,
}
use vh26_pixel_perfect.Github.Workspace.{
  ChangeAction, create, update, delete, WorkspaceLimits, ProposedFileChange, ProposedPatch,
  PlannedChange, Files, coerce_action, require_change_content, verify_expected_sha256, apply_change,
  plan_change, plan_from, plan_changes, content_bytes, no_changes, is_some, validate_file_set,
}
use vh26_pixel_perfect.Github.Workspace.Round.{Round, plan_change-Round}
use vh26_pixel_perfect.Github.Workflow.{bind_patch_to_snapshot}
use vh26_pixel_perfect.Github.Workflow.Binding.{BindsEach, bind_patch_to_snapshot-BindsEach}
use vh26_pixel_perfect.Github.Workflow.Refusals.{
  NoConflict, raised, then_, action_refused, text_refused, optional_refused, digest_refused,
  content_refused, size_refused, file_set_refused,
}

-- What a hexadecimal digest looks like.
abbrev pub IsDigest : Codes → Type 0
IsDigest d = (length d ≡ 64) × (is_base_16 d ≡ true) × (map lower_code d ≡ d)

normalize-digest : (d : Codes) → IsDigest d → normalize_sha256 (some d) ≡ ok (some d)
unfolding normalize_sha256
normalize-digest d (long, hex, lower) = rw (long, hex, lower) refl

verify_own :
    (sha256 : Codes → Codes) (source : Codes)
    → verify_expected_sha256 sha256 source (some (sha256 source)) ≡ ok tt
unfolding verify_expected_sha256
verify_own sha256 source = rw ((same_text_iff (sha256 source) (sha256 source)).1 refl) refl

path-cases :
    (limit : ℕ) (path : Codes)
    → (validate_path limit path ≡ ok path) ⊎ (validate_path limit path ≡ err patch_validation_error)
unfolding validate_path
path-cases limit path = elim (Bool-cases (is_bad_text limit path)) [
  | inl bad ↦ inr (rw bad refl)
  | inr good ↦ elim (Bool-cases (has_bad_part (split slash path))) [
    | inl bad ↦ inr (rw (good, bad) refl)
    | inr fine ↦ inl (rw (good, fine) refl)
  ]
]

flip : (s t : Codes) → same_text t s ≡ false → (s == t) ≡ false
flip s t h = ground (arith, same_text_iff s t, same_text_iff t s)

module _ (sha256 : Codes → Codes) (limits : WorkspaceLimits) where
  -- A change is ready if the files still contain what it was bound to, or if it will be refused.
  abbrev Ready : List Codes → Files → ProposedFileChange → Type 0
  Ready seen files c =
      (any (same_text c.path) seen ≡ true)
      ⊎ ((action : ChangeAction) × (old : Codes) × (coerce_action c.action ≡ ok action)
          × (action ≢ create)
          × (Dict.get c.path files ≡ some old)
          × (c.expected_sha256 ≡ some (sha256 old)))

  apply_refused :
      (action : ChangeAction) (change : ProposedFileChange) (path old : Codes) (files : Files)
      → action ≢ create
      → NoConflict
          (apply_change sha256 limits action change path (some old) (some (sha256 old)) files)
  unfolding apply_change
  apply_refused create change path old files n = absurd (n refl)
  apply_refused update change path old files n = rw (verify_own sha256 old) (
      then_ (require_change_content limits change) _ (content_refused limits change) (λ after _.
        then_ (raise_if (after == old) patch_validation_error) _ (raised _) (λ _ _ e. cc)))
  apply_refused delete change path old files n =
      rw (verify_own sha256 old) (
        then_ (raise_if (is_some change.content) patch_validation_error) _ (raised _) (λ _ _ e. cc))

  ready_refused :
      ((text : Codes) → IsDigest (sha256 text))
      → (change : ProposedFileChange) (seen : List Codes) (files : Files) (action : ChangeAction)
        (expected : Option Codes)
      → Ready seen files change
      → any (same_text change.path) seen ≡ false
      → coerce_action change.action ≡ ok action
      → normalize_sha256 change.expected_sha256 ≡ ok expected
      → NoConflict (
          apply_change sha256 limits action change change.path
            (Dict.get change.path files)
            expected
            files)
  ready_refused digests change seen files action expected (inl old) new acted normal =
      absurd (false≢true (sym new ∙ old))
  ready_refused digests change seen files action expected
        (inr (action', old, acted', not_create, found, bound)) new acted normal =
      let same_action : action' ≡ action = ok_inj (sym acted' ∙ acted) in
      let same_digest : some (sha256 old) ≡ expected = ok_inj (
        sym (normalize-digest (sha256 old) (digests old))
        ∙ ap normalize_sha256 (sym bound)
        ∙ normal) in
      subst
        (λ e. NoConflict (
          apply_change sha256 limits action change change.path (Dict.get change.path files) e
            files))
        same_digest
        (rw found
          (apply_refused action change change.path old files (λ e. not_create (same_action ∙ e))))

  plan_change_refused :
      ((text : Codes) → IsDigest (sha256 text))
      → (change : ProposedFileChange) (seen : List Codes) (files : Files) → Ready seen files change
      → NoConflict (plan_change sha256 limits change seen files)
  unfolding plan_change
  plan_change_refused digests change seen files ready =
      elim (path-cases limits.max_path_length change.path) [
        | inr refused ↦ rw refused (λ e. cc)
        | inl valid ↦ rw valid (elim (Bool-cases (any (same_text change.path) seen)) [
          | inl old ↦ rw old (λ e. cc)
          | inr new ↦ rw new (
              then_ (coerce_action change.action) _ (action_refused change.action) (λ action acted.
                then_ (normalize_sha256 change.expected_sha256) _
                  (digest_refused change.expected_sha256)
                  (λ expected normal.
                    then_ (validate_optional 4000 change.explanation) _
                      (optional_refused 4000 change.explanation)
                      (λ _ _.
                        then_
                          (apply_change sha256 limits action change change.path
                            (Dict.get change.path files) expected files)
                          _
                          (ready_refused digests change seen files action expected ready new acted
                            normal)
                          (λ _ _ e. cc)))))
        ])
      ]

  -- A round leaves the other changes ready, or to be refused.
  Ready-next :
      (change c : ProposedFileChange) (seen : List Codes) (files : Files)
      (r : PlannedChange × Files)
      → Round sha256 limits change seen files r
      → Ready seen files c
      → Ready (r.0.path ∷ seen) r.1 c
  Ready-next change c seen files (p, result) round (inl old) =
      inl (rw old (or_true (same_text c.path p.path)))
  Ready-next change c seen files (p, result) (same, new, planned, written)
        (inr (action, old, acted, n, found, bound)) =
      elim (Bool-cases (same_text c.path p.path)) [
        | inl this ↦ inl (rw this refl)
        | inr other ↦ inr (
          action,
          old,
          acted,
          n,
          written c.path
              ∙ ap (λ b. if b then p.after else Dict.get c.path files) (flip p.path c.path other)
              ∙ found,
          bound,
        )
      ]

  plan_from_refused :
      ((text : Codes) → IsDigest (sha256 text))
      → (changes : List ProposedFileChange) (seen : List Codes) (bytes : ℕ) (files : Files)
      → All (Ready seen files) changes
      → NoConflict (plan_from sha256 limits changes seen bytes files)
  unfolding plan_from
  plan_from_refused digests [] seen bytes files h = λ e. cc
  plan_from_refused digests (change ∷ changes) seen bytes files (ready, h) =
      then_ (plan_change sha256 limits change seen files) _
        (plan_change_refused digests change seen files ready)
        (λ r planned. then_ (content_bytes r.0.after) _ (size_refused r.0.after) (λ size _.
          then_ (raise_if (ltb limits.max_patch_bytes (bytes + size)) patch_validation_error) _
            (raised _)
            (λ _ _.
              then_ (plan_from sha256 limits changes (r.0.path ∷ seen) (bytes + size) r.1) _
                (plan_from_refused digests changes (r.0.path ∷ seen) (bytes + size) r.1 (
                  All-map
                    (λ c.
                      Ready-next change c seen files r
                        (plan_change-Round sha256 limits change seen files r planned))
                    changes h))
                (λ _ _ e. cc))))

  Ready-Binds :
      (base : Files) (allowed : Option (List Codes)) (cs bs : List ProposedFileChange)
      → BindsEach sha256 base allowed cs bs
      → All (Ready [] base) bs
  Ready-Binds base allowed [] [] h = tt
  Ready-Binds base allowed [] (b ∷ bs) h = absurd h
  Ready-Binds base allowed (c ∷ cs) [] h = absurd h
  Ready-Binds base allowed (c ∷ cs) (b ∷ bs) (binds, h) = (
    inr (binds.action, binds.source, binds.acted, binds.not_created, binds.found, binds.expected),
    Ready-Binds base allowed cs bs h,
  )

  -- If digests are hexadecimal, planning a bound patch over the files that it was bound to ends in no
  -- conflict: it is accepted, or refused as invalid or too large.
  pub plan_changes-bind_patch :
      ((text : Codes) → IsDigest (sha256 text))
      → (base : Files) (allowed : Option (List Codes)) (proposal bound : ProposedPatch)
      → bind_patch_to_snapshot sha256 base allowed proposal ≡ ok bound
      → plan_changes sha256 limits bound base ≢ err patch_conflict_error
  unfolding plan_changes
  plan_changes-bind_patch digests base allowed proposal bound h =
      then_ (validate_metadata_text 128 bound.patch_id) _ (text_refused 128 bound.patch_id) (λ _ _.
        then_ (validate_metadata_text 2000 bound.summary) _ (text_refused 2000 bound.summary)
          (λ _ _.
            then_ (validate_optional 8000 bound.rationale) _ (optional_refused 8000 bound.rationale)
              (λ _ _.
                then_ (raise_if (no_changes bound.changes) patch_validation_error) _ (raised _)
                  (λ _ _.
                    then_
                      (raise_if (ltb limits.max_changes (length bound.changes))
                        patch_validation_error)
                      _ (raised _)
                      (λ _ _.
                        then_ (plan_from sha256 limits bound.changes [] 0 base) _
                          (plan_from_refused digests bound.changes [] 0 base (
                            Ready-Binds base allowed proposal.changes bound.changes (
                              bind_patch_to_snapshot-BindsEach sha256 base allowed proposal bound
                                h)))
                          (λ r _.
                            then_ (validate_file_set limits r.1) _ (file_set_refused limits r.1)
                              (λ _ _ e. cc)))))))
