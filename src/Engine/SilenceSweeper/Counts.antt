-- ===== src/Engine/SilenceSweeper/Counts.antt =====
-- What a sweep of engine/silence_sweeper.py reports.
use vh26_pixel_perfect.Prelude.{
  ℕ, ◌+◌, ◌≡◌, ◌≢◌, refl, ◌∙◌, sym, ap, inl, inr, false, String, List, [], ◌∷◌, length,
  length-append, if◌then◌else◌, arith,
}
use vh26_pixel_perfect.Engine.SilenceSweeper.{
  Candidate, candidates, presumed_over, changed, sweep_all, sweep_once,
}
use vh26_pixel_perfect.Inbound.Reconcile.{
  Store, ExternalAction, ResultStatus, applied, duplicate, ignored, apply_external_action,
}
use vh26_pixel_perfect.Inbound.Reconcile.Effects.{apply_external_action-Effect}

unchanged_status : (status : ResultStatus) → status ≢ applied → changed status ≡ false
unfolding changed
unchanged_status applied other = absurd (other refl)
unchanged_status duplicate other = refl
unchanged_status ignored other = refl

persisted-apply :
    (s : Store) (a : ExternalAction) (now : ℕ)
    → length (apply_external_action s a now).0.persisted
      ≡ length s.persisted + (if changed (apply_external_action s a now).1.status then 1 else 0)
unfolding changed
persisted-apply s a now = elim (apply_external_action-Effect s a now) [
  | inl (e, w) ↦
      ap length w.ledger
      ∙ length-append s.persisted (w.decision ∷ [])
      ∙ ap (λ st. length s.persisted + (if changed st then 1 else 0)) (sym e)
  | inr (e, u) ↦ omega (
    arith,
    ap length u.persisted,
    ap (λ b. length s.persisted + (if b then 1 else 0)) (unchanged_status _ e),
  )
]

persisted-sweep_all :
    (now : ℕ) (s : Store) (cs : List Candidate)
    → length (sweep_all now s cs).0.persisted ≡ length s.persisted + (sweep_all now s cs).1
unfolding sweep_all
persisted-sweep_all now s [] = omega arith
persisted-sweep_all now s (c ∷ cs) =
    let t = (apply_external_action s (presumed_over now c) now).0 in
    omega (arith, persisted-sweep_all now t cs, persisted-apply s (presumed_over now c) now)

-- A sweep adds as many entries to the ledger as it reports incidents resolved.
pub persisted-sweep_once :
    (threshold : String → ℕ) (s : Store) (now : ℕ)
    → length (sweep_once threshold s now).0.persisted
      ≡ length s.persisted + (sweep_once threshold s now).1
unfolding sweep_once
persisted-sweep_once threshold s now =
    persisted-sweep_all now s (candidates threshold now s.incidents)
