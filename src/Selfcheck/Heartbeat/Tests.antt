-- ===== src/Selfcheck/Heartbeat/Tests.antt =====
-- Tests of selfcheck/heartbeat.py.
use vh26_pixel_perfect.Prelude.{true, none, some, [], ◌∷◌}
use vh26_pixel_perfect.Prelude.Int.{pos}
use vh26_pixel_perfect.Selfcheck.Health.{SelfCheckSignals}
use vh26_pixel_perfect.Selfcheck.Heartbeat.{HeartbeatEmitter}

abbrev stalled : SelfCheckSignals
stalled = record {
  database_reachable = true;
  workers = ("outbox", true) ∷ [];
  outbox_pending = 2;
  outbox_dead = 0;
  oldest_pending_age = some 900001;
  open_channels = [];
  ongoing_outages = 0;
  since_last_ingest = none;
  worst_clock_skew_ms = pos 0;
  unranked_scopes = 0;
}

abbrev armed : HeartbeatEmitter
armed = record { enabled = true; last_verdict = none; last_sent_ok = none; suppressed_count = 0 }
