-- ===== src/Engine/SilenceSweeper/Silence.antt =====
-- What a sweep of engine/silence_sweeper.py closes.
use mathlib.Core.List.{Mem, mem-cons_self, mem-cons_of_mem}
use mathlib.Core.Path.{subst}
use vh26_pixel_perfect.Prelude.{
  ℕ, ◌≡◌, refl, ◌∙◌, ap, ◌⊎◌, inl, inr, true, String, string_eq, ◌==◌, eq_iff, some, List, [], ◌∷◌,
  All, Bool-cases, if◌then◌else◌,
}
use vh26_pixel_perfect.Prelude.Dict.{Dict}
use vh26_pixel_perfect.Engine.Lifecycle.{
  IncidentState, opened, acknowledged, quiescent, resolved, resolve, transition_state,
}
use vh26_pixel_perfect.Engine.SilenceSweeper.{
  Candidate, candidates, is_overdue, presumed_over, sweep_all, sweep_once,
}
use vh26_pixel_perfect.Inbound.Reconcile.{
  Store, IncidentRow, apply_external_action, trigger_for_kind,
}
use vh26_pixel_perfect.Inbound.Reconcile.Effects.{status_of, Applied, apply_external_action-Effect}

-- The incident has a row that is active and has been silent for its threshold.
pub record Presumed (threshold : String → ℕ) (s : Store) (now : ℕ) (id : String) : Type 0 where
  pub row : IncidentRow
  pub stored : Mem (id, row) s.incidents
  pub overdue : is_overdue (threshold id) now row ≡ true

All-candidates :
    (threshold : String → ℕ) (now : ℕ) (P : String → Type 0) (rows : Dict String IncidentRow)
    → ((id : String) (row : IncidentRow)
        → Mem (id, row) rows
        → is_overdue (threshold id) now row ≡ true
        → P id)
    → All (λ c. P c.incident_id) (candidates threshold now rows)
unfolding candidates
All-candidates threshold now P [] f = tt
All-candidates threshold now P ((id, row) ∷ rows) f =
    let rest = All-candidates threshold now P rows (λ j r m. f j r (mem-cons_of_mem (id, row) m)) in
    elim (Bool-cases (is_overdue (threshold id) now row)) [
      | inl overdue ↦ rw overdue (f id row mem-cons_self overdue, rest)
      | inr early ↦ rw early rest
    ]

resolve_ends :
    (from next : IncidentState) → transition_state from resolve ≡ some next → next ≡ resolved
unfolding transition_state
resolve_ends opened next e = cc
resolve_ends acknowledged next e = cc
resolve_ends quiescent next e = cc
resolve_ends resolved next e = cc

-- The state after a sweep, for one incident.
abbrev pub Swept : Type 0 → Store → Store → String → Type 0
Swept P s s' id = (status_of s' id ≡ status_of s id) ⊎ (P × (status_of s' id ≡ some resolved))

ends_resolved :
    (s : Store) (now : ℕ) (c : Candidate) (s' : Store)
    → (w : Applied s (presumed_over now c) s') → w.next ≡ resolved
unfolding presumed_over trigger_for_kind
ends_resolved s now c s' w =
    resolve_ends w.from_state w.next (ap (transition_state w.from_state) (cc) ∙ w.transition)

Swept-apply :
    (P : String → Type 0) (s : Store) (now : ℕ) (c : Candidate) (id : String)
    → P c.incident_id
    → Swept (P id) s (apply_external_action s (presumed_over now c) now).0 id
unfolding presumed_over
Swept-apply P s now c id p = elim (apply_external_action-Effect s (presumed_over now c) now) [
  | inl (e, w) ↦ elim (Bool-cases (c.incident_id == id)) [
    | inl same ↦ inr (
      subst P ((eq_iff c.incident_id id).0 same) p,
      w.after id
          ∙ ap (λ b. if b then some w.next else status_of s id) same
          ∙ ap some (ends_resolved s now c _ w),
    )
    | inr differs ↦ inl (w.after id ∙ ap (λ b. if b then some w.next else status_of s id) differs)
  ]
  | inr (e, u) ↦ inl (ap (λ d. status_of (record s { incidents = d }) id) u.incidents)
]

Swept-trans :
    (P : Type 0) (s t u : Store) (id : String) → Swept P s t id → Swept P t u id → Swept P s u id
Swept-trans P s t u id a (inr b) = inr b
Swept-trans P s t u id (inl a) (inl b) = inl (b ∙ a)
Swept-trans P s t u id (inr (p, a)) (inl b) = inr (p, b ∙ a)

Swept-sweep_all :
    (P : String → Type 0) (now : ℕ) (s : Store) (cs : List Candidate) (id : String)
    → All (λ c. P c.incident_id) cs
    → Swept (P id) s (sweep_all now s cs).0 id
unfolding sweep_all
Swept-sweep_all P now s [] id all_presumed = inl refl
Swept-sweep_all P now s (c ∷ cs) id (p, ps) =
    let t = (apply_external_action s (presumed_over now c) now).0 in
    Swept-trans (P id) s t (sweep_all now t cs).0 id (Swept-apply P s now c id p)
      (Swept-sweep_all P now t cs id ps)

-- A sweep leaves every incident in its state, or resolves one that was stored as active and had been
-- silent for its threshold.
pub sweep_once-Closes :
    (threshold : String → ℕ) (s : Store) (now : ℕ) (id : String)
    → Swept (Presumed threshold s now id) s (sweep_once threshold s now).0 id
unfolding sweep_once
sweep_once-Closes threshold s now id =
    Swept-sweep_all (Presumed threshold s now) now s (candidates threshold now s.incidents) id (
      All-candidates threshold now (Presumed threshold s now) s.incidents
        (λ j r m o. record { row = r; stored = m; overdue = o }))
