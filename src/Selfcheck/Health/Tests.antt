-- ===== src/Selfcheck/Health/Tests.antt =====
-- Tests of selfcheck/health.py.
use vh26_pixel_perfect.Prelude.{◌≡◌, ◌↔◌, refl, true, false, none, some, [], ◌∷◌}
use vh26_pixel_perfect.Prelude.Int.{negsuc}
use vh26_pixel_perfect.Prelude.Text.{sorted, insert_text}
use vh26_pixel_perfect.Selfcheck.Health.{
  SelfCheckSignals, evaluate, should_heartbeat, ok, unhealthy, default_thresholds, fatal_findings,
  degraded_findings, observations_of, over, dead_workers, workers_not_running, clock_out, queued,
}
use vh26_pixel_perfect.Selfcheck.Health.Verdicts.{Delivering, Unimpaired, evaluate_iff}

-- Two workers are dead, and a clock is off.
abbrev sick : SelfCheckSignals
sick = record {
  database_reachable = true;
  workers = ("timer", false) ∷ ("outbox", false) ∷ ("root_cause", true) ∷ [];
  outbox_pending = 2;
  outbox_dead = 0;
  oldest_pending_age = some 900000;
  open_channels = [];
  ongoing_outages = 0;
  since_last_ingest = none;
  worst_clock_skew_ms = negsuc 200000;
  unranked_scopes = 0;
}

report_on_sick : evaluate sick default_thresholds ≡ record {
  verdict = unhealthy;
  reasons = workers_not_running ("outbox" ∷ "timer" ∷ []) ∷ clock_out 200001 ∷ [];
  observations = queued 2 ∷ [];
  signals = sick;
}
unfolding evaluate fatal_findings degraded_findings observations_of over dead_workers sorted
    insert_text
report_on_sick = refl

evaluate_iff_example :
    ((should_heartbeat (evaluate sick default_thresholds) ≡ true)
      ↔ Delivering sick default_thresholds)
    × (((evaluate sick default_thresholds).verdict ≡ ok)
        ↔ (Delivering sick default_thresholds × Unimpaired sick default_thresholds))
    × (((evaluate sick default_thresholds).verdict ≡ ok)
        ↔ ((evaluate sick default_thresholds).reasons ≡ []))
evaluate_iff_example = evaluate_iff sick default_thresholds
