-- ===== src/Engine/ProcessEvent/Bounds.antt =====
-- How long engine/process_event.py may defer a notification.
use vh26_pixel_perfect.Prelude.{ℕ, ◌+◌, ◌<◌, ◌≤◌, ◌≡◌, ◌≢◌, max, Option, none, some, arith}
use vh26_pixel_perfect.Engine.Lifecycle.{IncidentState, opened, acknowledged, quiescent, resolved}
use vh26_pixel_perfect.Engine.ProcessEvent.{
  EngineSettings, IncidentRecord, EventStatus, repeated, bounded_deadline, next_state,
  unless_resolved,
}

-- A deadline still to come, and within the budget of an incident: at the latest its ceiling, or the
-- next millisecond when that is past. Without one, the incident is resolved.
abbrev pub IsBounded : EngineSettings → IncidentRecord → ℕ → IncidentState → Option ℕ → Type 0
IsBounded settings r now s none = s ≡ resolved
IsBounded settings r now s (some q) =
    (s ≢ resolved) × (now < q) × (q ≤ max (r.first_ingested + settings.max_batch_span) (now + 1))

bounded_deadline-IsBounded :
    (settings : EngineSettings) (r : IncidentRecord) (s : IncidentState) (predicted now : ℕ)
    → now < predicted
    → 0 < r.first_ingested
    → IsBounded settings r now s
        (bounded_deadline settings (unless_resolved s predicted) r.first_ingested now)
unfolding bounded_deadline
bounded_deadline-IsBounded settings r opened predicted now later known = ground arith
bounded_deadline-IsBounded settings r acknowledged predicted now later known = ground arith
bounded_deadline-IsBounded settings r quiescent predicted now later known = ground arith
bounded_deadline-IsBounded settings r resolved predicted now later known = ground arith

-- A further alert of an incident that was ingested after the epoch, with a predicted deadline in the
-- future, leaves a deadline in the future, at the latest the incident's ceiling or, past that, the
-- next millisecond; and it leaves none exactly if the incident is then resolved.
pub repeated-IsBounded :
    (settings : EngineSettings) (r : IncidentRecord) (status : EventStatus)
    (event_time predicted now : ℕ)
    → now < predicted
    → 0 < r.first_ingested
    → IsBounded settings r now
        (repeated settings r status event_time predicted now).state
        (repeated settings r status event_time predicted now).quiet_at
unfolding repeated
repeated-IsBounded settings r status event_time predicted now later known =
    bounded_deadline-IsBounded settings r (next_state r.state status) predicted now later known
