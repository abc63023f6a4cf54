-- ===== src/Engine/Lifecycle/Reach.antt =====
-- Runs of the lifecycle of engine/incident_machine.py.
use vh26_pixel_perfect.Prelude.{◌≡◌, ◌≢◌, refl, ◌↔◌, some, arith}
use vh26_pixel_perfect.Engine.Lifecycle.{
  IncidentState, opened, acknowledged, quiescent, resolved, Trigger, acknowledge, quiet_deadline,
  resolve, reopen, transition_state,
}

-- One valid transition, and runs of them.
pub data Step (s t : IncidentState) : Type 0 where
  fire : (trigger : Trigger) → transition_state s trigger ≡ some t → Step s t

pub data Reach (s : IncidentState) : IncidentState → Type 0 where
  here : Reach s s
  next : {t u : IncidentState} → Reach s t → Step t u → Reach s u

-- A transition ends in RESOLVED exactly when its trigger is RESOLVE, and RESOLVE is valid from
-- every state but RESOLVED itself.
pub resolve_iff :
    (s : IncidentState) (trigger : Trigger)
    → (transition_state s trigger ≡ some resolved) ↔ ((trigger ≡ resolve) × (s ≢ resolved))
unfolding transition_state
resolve_iff s trigger = ground arith

Step-opened : Step resolved opened
unfolding transition_state
Step-opened = fire reopen refl

Step-acknowledged : Step opened acknowledged
unfolding transition_state
Step-acknowledged = fire acknowledge refl

Step-quiescent : Step acknowledged quiescent
unfolding transition_state
Step-quiescent = fire quiet_deadline refl

to_resolved : (s : IncidentState) → Reach s resolved
unfolding transition_state
to_resolved opened = next here (fire resolve refl)
to_resolved acknowledged = next here (fire resolve refl)
to_resolved quiescent = next here (fire resolve refl)
to_resolved resolved = here

to_opened : (s : IncidentState) → Reach s opened
to_opened s = next (to_resolved s) Step-opened

to_acknowledged : (s : IncidentState) → Reach s acknowledged
to_acknowledged s = next (to_opened s) Step-acknowledged

-- From every state some run of valid triggers leads to every other: no incident is stuck.
pub Reach-any : (s t : IncidentState) → Reach s t
Reach-any s opened = to_opened s
Reach-any s acknowledged = to_acknowledged s
Reach-any s quiescent = next (to_acknowledged s) Step-quiescent
Reach-any s resolved = to_resolved s
