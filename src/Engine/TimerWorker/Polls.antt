-- ===== src/Engine/TimerWorker/Polls.antt =====
-- engine/timer_worker.py: what a poll does to every incident.
use vh26_pixel_perfect.Prelude.{
  ℕ, Bool, ◌≡◌, refl, sym, ◌∙◌, ap, nat_eq, nat_beq, nat_beq_iff, Option, none, some, List, [], ◌∷◌,
  if◌then◌else◌, Bool-cases, inl, inr,
}
use vh26_pixel_perfect.Prelude.Dict.{get, get-put}
use vh26_pixel_perfect.Engine.Lifecycle.{
  IncidentState, opened, acknowledged, quiescent, resolved, quiet_deadline, transition_state,
}
use vh26_pixel_perfect.Engine.TimerWheel.{TimerWheel, TimerTrigger, pop_due}
use vh26_pixel_perfect.Engine.TimerWheel.View.{deadline, IsValid}
use vh26_pixel_perfect.Engine.TimerWheel.Due.{fires, stays, fired, pop_due-fires}
use vh26_pixel_perfect.Engine.TimerWorker.{
  IncidentRow, Store, is_acknowledged, deadline_decision, persist_decision, persist_if,
  persist_trigger, persist_all, poll_once,
}

abbrev pub quieted : ℕ → IncidentRow → IncidentRow
quieted now row = record row {
  status = quiescent;
  quiet_at_ms = none;
  last_ingested_at = now;
  reopen_count = 0;
}

-- What a deadline that fired makes of an incident.
abbrev pub settled : Option ℕ → ℕ → Option IncidentRow → Option IncidentRow
settled none now row = row
settled (some q) now none = none
settled (some q) now (some row) =
    if is_acknowledged row.status then some (quieted now row) else some row

settled-settled :
    (later : Option ℕ) (q now : ℕ) (row : Option IncidentRow)
    → settled later now (settled (some q) now row) ≡ settled (some q) now row
settled-settled none q now row = refl
settled-settled (some p) q now none = refl
settled-settled (some p) q now (some row) = elim (Bool-cases (is_acknowledged row.status)) [
  | inl e ↦ rw e refl
  | inr e ↦ rw (e, e) refl
]

transition-quiet :
    (s : IncidentState)
    → transition_state s quiet_deadline ≡ (if is_acknowledged s then some quiescent else none)
unfolding transition_state
transition-quiet opened = refl
transition-quiet acknowledged = refl
transition-quiet quiescent = refl
transition-quiet resolved = refl

-- What persisting a decision of a trigger leaves of the incident with the same or another id.
get-persist_if :
    (s : Store) (t : TimerTrigger) (row : Option IncidentRow) (now i : ℕ)
    → get t.incident_id s.incidents ≡ row
    → get i (persist_if s (deadline_decision t row) now).0.incidents ≡ (
        if nat_beq t.incident_id i then settled (some t.quiet_at_ms) now row else get i s.incidents)
unfolding persist_decision
get-persist_if s t none now i found = elim (Bool-cases (nat_beq t.incident_id i)) [
  | inl same ↦
      rw same (ap (λ k. get k s.incidents) (sym ((nat_beq_iff t.incident_id i).0 same)) ∙ found)
  | inr other ↦ rw other refl
]
get-persist_if s t (some row) now i found = elim (Bool-cases (is_acknowledged row.status)) [
  | inl e ↦
      rw (transition-quiet row.status, e) (get-put t.incident_id i (quieted now row) s.incidents)
  | inr e ↦ elim (Bool-cases (nat_beq t.incident_id i)) [
    | inl same ↦
        rw (transition-quiet row.status, e, same)
          (ap (λ k. get k s.incidents) (sym ((nat_beq_iff t.incident_id i).0 same)) ∙ found)
    | inr other ↦ rw (transition-quiet row.status, e, other) refl
  ]
]

get-persist_all :
    (due : List TimerTrigger) (s : Store) (now i : ℕ)
    → get i (persist_all s due now).incidents ≡ settled (fired i due) now (get i s.incidents)
unfolding persist_all persist_trigger
get-persist_all [] s now i = refl
get-persist_all (t ∷ due) s now i =
    let first = get-persist_if s t (get t.incident_id s.incidents) now i refl in
    let branch : Bool → Option IncidentRow = λ b.
      if b
      then settled (some t.quiet_at_ms) now (get t.incident_id s.incidents)
      else get i s.incidents in
    let later = get-persist_all due (persist_trigger s t now).0 now i in
    elim (Bool-cases (nat_beq t.incident_id i)) [
      | inl same ↦ rw same (
          later
          ∙ ap (settled (fired i due) now) (first ∙ ap branch same)
          ∙ settled-settled (fired i due) t.quiet_at_ms now (get t.incident_id s.incidents)
          ∙ ap (λ k. settled (some t.quiet_at_ms) now (get k s.incidents))
              ((nat_beq_iff t.incident_id i).0 same))
      | inr other ↦ rw other (later ∙ ap (settled (fired i due) now) (first ∙ ap branch other))
    ]

-- From a valid wheel, a poll moves an incident exactly if its deadline has come and it is ACKNOWLEDGED:
-- it becomes QUIESCENT and loses its stored deadline and its count of reopens. Every other incident stays as
-- it was, and the wheel keeps the deadlines that are still to come and no others.
pub poll_once-settles :
    (w : TimerWheel) (s : Store) (now i : ℕ)
    → IsValid w
    → (get i (poll_once w s now).1.incidents
        ≡ settled (fires now (deadline w i)) now (get i s.incidents))
      × (deadline (poll_once w s now).0 i ≡ stays now (deadline w i))
unfolding poll_once
poll_once-settles w s now i valid =
    let (fired_at, left, _) = pop_due-fires w now valid i in
    (
      get-persist_all (pop_due w now).1 s now i
          ∙ ap (λ q. settled q now (get i s.incidents)) fired_at,
      left,
    )
