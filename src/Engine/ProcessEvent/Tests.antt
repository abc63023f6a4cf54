-- ===== src/Engine/ProcessEvent/Tests.antt =====
-- Tests of engine/process_event.py.
use vh26_pixel_perfect.Prelude.{◌≡◌, refl, true, some, [], ◌∷◌, arith, List}
use vh26_pixel_perfect.Engine.Lifecycle.{resolved, transition_state}
use vh26_pixel_perfect.Engine.ProcessEvent.{
  EngineSettings, IncidentRecord, firing, ended, next_state, firing_state, repeated,
  bounded_deadline,
}
use vh26_pixel_perfect.Engine.ProcessEvent.Bounds.{IsBounded, repeated-IsBounded}
use vh26_pixel_perfect.Engine.ProcessEvent.Damping.{Alert}

abbrev settings : EngineSettings
settings = record {
  max_batch_span = 600000;
  flap_damping = true;
  flap_threshold = 3;
  flap_digest_interval = 1800000;
}

abbrev closed_incident : IncidentRecord
closed_incident = record {
  incident_id = 7;
  state = resolved;
  last_seen = 1000;
  gap_history = [];
  alert_count = 4;
  first_ingested = 1000;
  reopen_count = 3;
  last_flap_notified = 500000;
}

-- The budget of the incident is spent, so the deadline is the next millisecond.
reopened_late :
    (repeated settings closed_incident firing 900000 905000 900000).quiet_at ≡ some 900001
unfolding repeated bounded_deadline next_state firing_state transition_state
reopened_late = refl

repeated-IsBounded_example :
    IsBounded settings closed_incident 900000
      (repeated settings closed_incident firing 900000 905000 900000).state
      (repeated settings closed_incident firing 900000 905000 900000).quiet_at
repeated-IsBounded_example =
    repeated-IsBounded settings closed_incident firing 900000 905000 900000 (omega arith)
      (omega arith)

abbrev alerts : List Alert
alerts =
    record { status = firing; event_time = 900000; predicted = 905000; now = 900000 }
    ∷ record { status = ended; event_time = 910000; predicted = 915000; now = 910000 }
    ∷ []
