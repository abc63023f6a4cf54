-- ===== src/Engine/ProcessEvent.antt =====
-- engine/process_event.py: the decision on one alert, and what engine/db_adapter.py keeps of it for
-- the next. Times are in milliseconds. The classification of emergencies, the test for an exact
-- duplicate and the deadline that adaptive_ewma.py predicts are arguments; the estimates of the mean
-- gap and its variance, which are floating point, are left out.
pub mod Bounds
pub mod States
pub mod Damping
mod Tests
use vh26_pixel_perfect.Prelude.{
  ℕ, ◌+◌, ◌-◌, max, Bool, true, false, ◌&&◌, ◌||◌, not, String, Option, none, some, List, [], ◌∷◌,
  ◌++◌, leb, nat_beq, if◌then◌else◌,
}
use vh26_pixel_perfect.Engine.Lifecycle.{
  IncidentState, opened, acknowledged, quiescent, resolved, Trigger, acknowledge, resolve, reopen,
  transition_state,
}

pub data EventStatus : Type 0 where
  firing ended : EventStatus

pub record EngineSettings : Type 0 where
  pub max_batch_span : ℕ
  pub flap_damping : Bool
  pub flap_threshold : ℕ
  pub flap_digest_interval : ℕ

pub record IncidentRecord : Type 0 where
  pub incident_id : ℕ
  pub state : IncidentState
  pub last_seen : ℕ
  pub gap_history : List ℕ
  pub alert_count : ℕ
  pub first_ingested : ℕ
  pub reopen_count : ℕ
  pub last_flap_notified : ℕ

pub data CardChange : Type 0 where
  critical_bypass incident_opened opened_to_acknowledged duplicate_coalesced : CardChange
  quiet_deadline_updated reopened flapping : CardChange
  state_changed : IncidentState → IncidentState → CardChange

pub record DeliveryIntent : Type 0 where
  pub channel : String
  pub action : String

pub record Decision : Type 0 where
  pub incident_id : ℕ
  pub state : IncidentState
  pub is_duplicate : Bool
  pub quiet_at : Option ℕ
  pub gap_history : List ℕ
  pub card_changes : List CardChange
  pub alert_count : ℕ
  pub bypass_reason : Option String
  pub delivery_intents : List DeliveryIntent
  pub reopen_count : ℕ
  pub is_flapping : Bool

-- transition_state(...) or default
abbrev pub or_state : Option IncidentState → IncidentState → IncidentState
or_state none default = default
or_state (some s) default = s

unfoldable pub is_ended : EventStatus → Bool
is_ended firing = false
is_ended ended = true

unfoldable pub is_resolved : IncidentState → Bool
is_resolved resolved = true
is_resolved _ = false

unfoldable pub same_state : IncidentState → IncidentState → Bool
same_state opened opened = true
same_state acknowledged acknowledged = true
same_state quiescent quiescent = true
same_state resolved resolved = true
same_state _ _ = false

unfoldable pub new_incident_state : EventStatus → IncidentState
new_incident_state ended = resolved
new_incident_state firing = or_state (transition_state opened acknowledge) opened

-- RESOLVED, reopened and acknowledged.
abbrev pub reopen_and_acknowledge : IncidentState → IncidentState
reopen_and_acknowledge s =
    let again = or_state (transition_state s reopen) s in
    or_state (transition_state again acknowledge) again

unfoldable pub firing_state : IncidentState → IncidentState
firing_state resolved = reopen_and_acknowledge resolved
firing_state opened = or_state (transition_state opened acknowledge) opened
firing_state s = s

unfoldable pub next_state : IncidentState → EventStatus → IncidentState
unfolding firing_state
next_state s ended = or_state (transition_state s resolve) s
next_state s firing = firing_state s

unfoldable pub bounded_deadline : EngineSettings → Option ℕ → ℕ → ℕ → Option ℕ
bounded_deadline settings none first_ingested now = none
bounded_deadline settings (some quiet_at) first_ingested now =
    let ceiling = first_ingested + settings.max_batch_span in
    if nat_beq first_ingested 0 || leb quiet_at ceiling
    then some quiet_at
    else some (max ceiling (now + 1))

-- The deadline of an incident in a state: none once it is resolved.
abbrev pub unless_resolved : IncidentState → ℕ → Option ℕ
unless_resolved resolved quiet_at = none
unless_resolved _ quiet_at = some quiet_at

abbrev pub change_if : Bool → CardChange → List CardChange
change_if test change = if test then change ∷ [] else []

abbrev pub to_slack : String → DeliveryIntent
to_slack action = record { channel = "slack"; action = action }

-- A protected emergency.
unfoldable pub bypassed : ℕ → String → Decision
bypassed fresh_id reason = record {
  incident_id = fresh_id;
  state = acknowledged;
  is_duplicate = false;
  quiet_at = none;
  gap_history = [];
  card_changes = critical_bypass ∷ opened_to_acknowledged ∷ [];
  alert_count = 1;
  bypass_reason = some reason;
  delivery_intents = record { channel = "pagerduty"; action = "trigger" } ∷ to_slack "create" ∷ [];
  reopen_count = 0;
  is_flapping = false;
}

-- The first alert of an incident.
unfoldable pub opening : ℕ → EventStatus → ℕ → Decision
unfolding new_incident_state
opening fresh_id status predicted =
    let state = new_incident_state status in
    record {
      incident_id = fresh_id;
      state = state;
      is_duplicate = false;
      quiet_at = unless_resolved state predicted;
      gap_history = [];
      card_changes = incident_opened ∷ opened_to_acknowledged ∷ [];
      alert_count = 1;
      bypass_reason = none;
      delivery_intents = to_slack "create" ∷ [];
      reopen_count = 0;
      is_flapping = false;
    }

unfoldable pub is_reopening : IncidentRecord → EventStatus → Bool
is_reopening r status = is_resolved r.state && not (is_ended status)

unfoldable pub reopens : IncidentRecord → EventStatus → ℕ
reopens r status = r.reopen_count + (if is_reopening r status then 1 else 0)

unfoldable pub flaps : EngineSettings → ℕ → Bool
flaps settings reopen_count = settings.flap_damping && leb settings.flap_threshold reopen_count

-- While flapping, a card at most once an interval.
unfoldable pub notifies : EngineSettings → Bool → IncidentRecord → ℕ → Bool
notifies settings true r now = leb (r.last_flap_notified + settings.flap_digest_interval) now
notifies settings false r now = true

-- A further alert of a known incident, fired at `event_time` and read at `now`.
unfoldable pub repeated : EngineSettings → IncidentRecord → EventStatus → ℕ → ℕ → ℕ → Decision
unfolding next_state bounded_deadline
repeated settings r status event_time predicted now =
    let state = next_state r.state status in
    let reopen_count = reopens r status in
    let is_flapping = flaps settings reopen_count in
    record {
      incident_id = r.incident_id;
      state = state;
      is_duplicate = true;
      quiet_at = bounded_deadline settings (unless_resolved state predicted) r.first_ingested now;
      gap_history = r.gap_history ++ (event_time - r.last_seen) ∷ [];
      card_changes =
          duplicate_coalesced
            ∷ quiet_deadline_updated
            ∷ change_if (not (same_state state r.state)) (state_changed r.state state)
          ++ change_if (is_reopening r status) reopened
          ++ change_if is_flapping flapping;
      alert_count = r.alert_count + 1;
      bypass_reason = none;
      delivery_intents = if notifies settings is_flapping r now then to_slack "update" ∷ [] else [];
      reopen_count = reopen_count;
      is_flapping = is_flapping;
    }

-- `process_event`: `bypass` is the reason of a protected emergency, `found` the incident with the
-- alert's fingerprint and scope, `identical` the test of its last event. `none` is the RuntimeError.
unfoldable pub process_event :
    EngineSettings
    → Option String
    → Option IncidentRecord
    → Bool
    → ℕ
    → EventStatus
    → ℕ
    → ℕ
    → ℕ
    → Option Decision
process_event settings (some reason) found identical fresh_id status event_time predicted now =
    some (bypassed fresh_id reason)
process_event settings none none identical fresh_id status event_time predicted now =
    some (opening fresh_id status predicted)
process_event settings none (some r) identical fresh_id status event_time predicted now =
    if identical then some (repeated settings r status event_time predicted now) else none

unfoldable pub has_intents : Decision → Bool
has_intents d = elim d.delivery_intents [ [] ↦ false | _ ∷ _ ↦ true ]

-- `persist_decision` and the next `lookup_incident`: what a later alert finds of an incident whose
-- record was `r`.
unfoldable pub recorded : IncidentRecord → Decision → ℕ → ℕ → IncidentRecord
recorded r d event_time now = record {
  incident_id = r.incident_id;
  state = d.state;
  last_seen = event_time;
  gap_history = d.gap_history;
  alert_count = d.alert_count;
  first_ingested = r.first_ingested;
  reopen_count = d.reopen_count;
  last_flap_notified = if d.is_flapping && has_intents d then now else r.last_flap_notified;
}
