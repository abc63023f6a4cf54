-- ===== src/Engine/ProcessEvent/States.antt =====
-- The states that engine/process_event.py gives an incident.
use vh26_pixel_perfect.Prelude.{◌≡◌, ◌≢◌, ◌↔◌, arith}
use vh26_pixel_perfect.Engine.Lifecycle.{
  IncidentState, opened, acknowledged, quiescent, resolved, transition_state,
}
use vh26_pixel_perfect.Engine.ProcessEvent.{EventStatus, firing, ended, next_state, firing_state}

-- An alert leaves its incident RESOLVED exactly if it reports the end, and never OPEN; a second
-- alert of the same status changes nothing.
pub next_state-Settles :
    (s : IncidentState) (status : EventStatus)
    → ((next_state s status ≡ resolved) ↔ (status ≡ ended))
      × (next_state s status ≢ opened)
      × (next_state (next_state s status) status ≡ next_state s status)
unfolding next_state firing_state transition_state
next_state-Settles opened firing = ground arith
next_state-Settles acknowledged firing = ground arith
next_state-Settles quiescent firing = ground arith
next_state-Settles resolved firing = ground arith
next_state-Settles opened ended = ground arith
next_state-Settles acknowledged ended = ground arith
next_state-Settles quiescent ended = ground arith
next_state-Settles resolved ended = ground arith
