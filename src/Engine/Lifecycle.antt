-- ===== src/Engine/Lifecycle.antt =====
-- engine/incident_machine.py: the strict lifecycle of an incident.
pub mod Reach
use vh26_pixel_perfect.Prelude.{Option, none, some}

pub data IncidentState : Type 0 where
  opened acknowledged quiescent resolved : IncidentState

pub data Trigger : Type 0 where
  acknowledge quiet_timeout quiet_deadline resolve reopen : Trigger

-- `_TRANSITIONS.get((current_state, trigger))`: `none` where the table has no entry.
unfoldable pub transition_state : IncidentState → Trigger → Option IncidentState
transition_state opened acknowledge = some acknowledged
transition_state acknowledged quiet_timeout = some quiescent
transition_state acknowledged quiet_deadline = some quiescent
transition_state opened resolve = some resolved
transition_state acknowledged resolve = some resolved
transition_state quiescent resolve = some resolved
transition_state resolved reopen = some opened
transition_state _ _ = none
