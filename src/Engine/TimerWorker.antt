-- ===== src/Engine/TimerWorker.antt =====
-- engine/timer_worker.py: the deadlines that are stored are scheduled again at start, and each poll commits
-- the ones that are due. Of an incident's row there is what the worker, and persist_decision of
-- engine/db_adapter.py on its behalf, reads and writes; what else persist_decision does with a decision is
-- an entry in a list. The clock is an argument.
pub mod Polls
pub mod Rows
pub mod Recovery
mod Tests
use vh26_pixel_perfect.Prelude.{
  ℕ, ◌+◌, Bool, true, false, ◌&&◌, nat_eq, Option, none, some, List, [], ◌∷◌, ◌++◌, length, ltb,
  if◌then◌else◌,
}
use vh26_pixel_perfect.Prelude.Int.{pos}
use vh26_pixel_perfect.Prelude.Dict.{Dict, get, put}
use vh26_pixel_perfect.Engine.Lifecycle.{
  IncidentState, opened, acknowledged, quiescent, resolved, quiet_deadline, transition_state,
}
use vh26_pixel_perfect.Engine.TimerWheel.{TimerWheel, TimerTrigger, schedule, pop_due}

pub record IncidentRow : Type 0 where
  pub status : IncidentState
  pub quiet_at_ms : Option ℕ
  pub alert_count : ℕ
  pub last_alert_at : ℕ
  pub last_ingested_at : ℕ
  pub reopen_count : ℕ

-- The fields of the decision that differ from one incident to another.
pub record DeadlineDecision : Type 0 where
  pub incident_id : ℕ
  pub state : IncidentState
  pub alert_count : ℕ
  pub fired_at : ℕ
  pub deadline : ℕ

pub record Store : Type 0 where
  pub incidents : Dict ℕ IncidentRow
  pub persisted : List DeadlineDecision

abbrev pub decision_for :
    TimerTrigger → IncidentRow → Option IncidentState → Option DeadlineDecision
decision_for t row none = none
decision_for t row (some next) = some (record {
  incident_id = t.incident_id;
  state = next;
  alert_count = row.alert_count;
  fired_at = row.last_alert_at;
  deadline = t.quiet_at_ms;
})

abbrev pub deadline_decision : TimerTrigger → Option IncidentRow → Option DeadlineDecision
deadline_decision t none = none
deadline_decision t (some row) = decision_for t row (transition_state row.status quiet_deadline)

-- The row that the decision writes: a decision of the timer has no deadline and no count of reopens.
abbrev pub written : DeadlineDecision → ℕ → IncidentRow
written d now = record {
  status = d.state;
  quiet_at_ms = none;
  alert_count = d.alert_count;
  last_alert_at = d.fired_at;
  last_ingested_at = now;
  reopen_count = 0;
}

unfoldable pub persist_decision : Store → DeadlineDecision → ℕ → Store
persist_decision s d now = record {
  incidents = put d.incident_id (written d now) s.incidents;
  persisted = s.persisted ++ d ∷ [];
}

abbrev pub persist_if : Store → Option DeadlineDecision → ℕ → Store × Bool
persist_if s none now = (s, false)
persist_if s (some d) now = (persist_decision s d now, true)

unfoldable pub persist_trigger : Store → TimerTrigger → ℕ → Store × Bool
persist_trigger s t now = persist_if s (deadline_decision t (get t.incident_id s.incidents)) now

unfoldable pub persist_all : Store → List TimerTrigger → ℕ → Store
unfolding persist_trigger
persist_all s [] now = s
persist_all s (t ∷ due) now = persist_all (persist_trigger s t now).0 due now

-- One turn of the loop of the task.
unfoldable pub poll_once : TimerWheel → Store → ℕ → TimerWheel × Store
unfolding persist_all
poll_once w s now = let (w1, due) = pop_due w now in (w1, persist_all s due now)

-- status = 'ACKNOWLEDGED'
abbrev pub is_acknowledged : IncidentState → Bool
is_acknowledged acknowledged = true
is_acknowledged opened = false
is_acknowledged quiescent = false
is_acknowledged resolved = false

abbrev pub is_later : ℕ → Option ℕ → Bool
is_later now none = false
is_later now (some quiet_at_ms) = ltb now quiet_at_ms

-- ORDER BY quiet_at_ms
unfoldable pub insert_sooner : ℕ × ℕ → List (ℕ × ℕ) → List (ℕ × ℕ)
insert_sooner (id, q) [] = (id, q) ∷ []
insert_sooner (id, q) ((j, p) ∷ rest) =
    let later = insert_sooner (id, q) rest in
    if ltb p q then (j, p) ∷ later else (id, q) ∷ (j, p) ∷ rest

abbrev pub with_deadline : ℕ → Option ℕ → List (ℕ × ℕ) → List (ℕ × ℕ)
with_deadline id none rows = rows
with_deadline id (some q) rows = insert_sooner (id, q) rows

-- The SELECT of the deadlines that are still to come.
unfoldable pub future_deadlines : ℕ → Dict ℕ IncidentRow → List (ℕ × ℕ)
unfolding insert_sooner
future_deadlines now [] = []
future_deadlines now ((id, row) ∷ incidents) =
    let rest = future_deadlines now incidents in
    if is_acknowledged row.status && is_later now row.quiet_at_ms
    then with_deadline id row.quiet_at_ms rest
    else rest

-- `none` is the ValueError of schedule.
unfoldable pub schedule_all : TimerWheel → List (ℕ × ℕ) → Option TimerWheel
schedule_all w [] = some w
schedule_all w ((id, q) ∷ rows) = elim (schedule w id (pos q)) [
  | none ↦ none
  | some w1 ↦ schedule_all w1 rows
]

unfoldable pub recover_persisted_deadlines : TimerWheel → Store → ℕ → Option TimerWheel × ℕ
unfolding future_deadlines schedule_all
recover_persisted_deadlines w s now =
    let rows = future_deadlines now s.incidents in (schedule_all w rows, length rows)
