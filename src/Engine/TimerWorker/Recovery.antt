-- ===== src/Engine/TimerWorker/Recovery.antt =====
-- engine/timer_worker.py: which deadlines survive a restart, and what the next poll does with them.
use vh26_pixel_perfect.Prelude.{
  ℕ, false, ◌≡◌, refl, sym, ◌∙◌, ap, nat_eq, nat_beq, nat_beq_iff, Option, none, some, List, [],
  ◌∷◌, if◌then◌else◌, Bool-cases, inl, inr,
}
use vh26_pixel_perfect.Prelude.Dict.{get}
use vh26_pixel_perfect.Engine.TimerWheel.{TimerWheel, empty, schedule, insert_deadline}
use vh26_pixel_perfect.Engine.TimerWheel.View.{deadline, IsValid, empty-IsValid}
use vh26_pixel_perfect.Engine.TimerWheel.Schedule.{
  deadline-insert_deadline, insert_deadline-IsValid,
}
use vh26_pixel_perfect.Engine.TimerWheel.Due.{fires}
use vh26_pixel_perfect.Engine.TimerWorker.{
  Store, future_deadlines, schedule_all, recover_persisted_deadlines, poll_once,
}
use vh26_pixel_perfect.Engine.TimerWorker.Polls.{settled, poll_once-settles}
use vh26_pixel_perfect.Engine.TimerWorker.Rows.{
  row_deadline, is_listed, IsUnique, Distinct, recoverable, IsUnique-future_deadlines,
  row_deadline-none, row_deadline-future_deadlines,
}

scheduled_first :
    (w w2 : TimerWheel) (j q i : ℕ) (rows : List (ℕ × ℕ))
    → is_listed j rows ≡ false
    → deadline w2 i
      ≡ (if is_listed i rows then row_deadline i rows else deadline (insert_deadline w j q) i)
    → deadline w2 i
      ≡ (if is_listed i ((j, q) ∷ rows) then row_deadline i ((j, q) ∷ rows) else deadline w i)
scheduled_first w w2 j q i rows new d =
    let w1 = insert_deadline w j q in
    let first = deadline-insert_deadline w j q i in
    let kept : Option ℕ → Option ℕ = λ x. if is_listed i rows then row_deadline i rows else x in
    elim (Bool-cases (nat_beq j i)) [
      | inl same ↦
          let once : is_listed i rows ≡ false =
            ap (λ k. is_listed k rows) (sym ((nat_beq_iff j i).0 same)) ∙ new in
          rw same (
            d
            ∙ ap (λ b. if b then row_deadline i rows else deadline w1 i) once
            ∙ first
            ∙ ap (λ b. if b then some q else deadline w i) same)
      | inr other ↦
          rw other (d ∙ ap kept (first ∙ ap (λ b. if b then some q else deadline w i) other))
    ]

-- Scheduling rows of different incidents never fails, and gives each of them its deadline.
deadline-schedule_all :
    (w : TimerWheel) (rows : List (ℕ × ℕ))
    → IsUnique rows
    → IsValid w
    → (w' : TimerWheel) × (schedule_all w rows ≡ some w')
      × IsValid w'
      × ((i : ℕ) → deadline w' i ≡ (if is_listed i rows then row_deadline i rows else deadline w i))
unfolding schedule_all schedule
deadline-schedule_all w [] u v = (w, refl, v, λ i. refl)
deadline-schedule_all w ((j, q) ∷ rows) (new, u) v =
    let (w2, e, v2, d) =
      deadline-schedule_all (insert_deadline w j q) rows u (insert_deadline-IsValid w j q v) in
    (w2, e, v2, λ i. scheduled_first w w2 j q i rows new (d i))

deadline-empty : (i : ℕ) → deadline empty i ≡ none
unfolding deadline get
deadline-empty i = refl

listed_or_none :
    (i : ℕ) (rows : List (ℕ × ℕ))
    → (if is_listed i rows then row_deadline i rows else deadline empty i) ≡ row_deadline i rows
listed_or_none i rows = elim (Bool-cases (is_listed i rows)) [
  | inl e ↦ rw e refl
  | inr e ↦ rw e (deadline-empty i ∙ sym (row_deadline-none i rows e))
]

-- What a restart at a moment owes to every incident.
abbrev pub Recovers : ℕ → Store → Option TimerWheel → Type 0
Recovers now s none = ⊥
Recovers now s (some w) =
    IsValid w
    × ((i : ℕ) → deadline w i ≡ recoverable now (get i s.incidents))
    × ((at i : ℕ)
        → get i (poll_once w s at).1.incidents
          ≡ settled (fires at (recoverable now (get i s.incidents))) at (get i s.incidents))

-- When incident ids are unique, a restart never fails: the new wheel is valid and holds a deadline for
-- exactly the ACKNOWLEDGED incidents whose stored deadline is still to come, the stored one, and a poll
-- at any later moment makes QUIESCENT just those of them whose deadline has come by then.
pub recover_persisted_deadlines-Recovers :
    (s : Store) (now : ℕ)
    → Distinct s.incidents
    → Recovers now s (recover_persisted_deadlines empty s now).0
unfolding recover_persisted_deadlines
recover_persisted_deadlines-Recovers s now distinct =
    let rows = future_deadlines now s.incidents in
    let (w, e, valid, deadlines) =
      deadline-schedule_all empty rows (IsUnique-future_deadlines now s.incidents distinct)
        empty-IsValid in
    let stored : (i : ℕ) → deadline w i ≡ recoverable now (get i s.incidents) = λ i.
      deadlines i
      ∙ listed_or_none i rows
      ∙ row_deadline-future_deadlines now i s.incidents distinct in
    rw e (
      valid,
      stored,
      λ at i.
          (poll_once-settles w s at i valid).0
          ∙ ap (λ q. settled (fires at q) at (get i s.incidents)) (stored i),
    )
