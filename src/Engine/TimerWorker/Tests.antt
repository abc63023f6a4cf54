-- ===== src/Engine/TimerWorker/Tests.antt =====
-- engine/timer_worker.py: a restart between two deadlines.
use vh26_pixel_perfect.Prelude.{ℕ, refl, nat_eq, some, [], ◌∷◌}
use vh26_pixel_perfect.Engine.Lifecycle.{acknowledged}
use vh26_pixel_perfect.Engine.TimerWheel.{empty}
use vh26_pixel_perfect.Engine.TimerWorker.{IncidentRow, Store, recover_persisted_deadlines}
use vh26_pixel_perfect.Engine.TimerWorker.Recovery.{Recovers, recover_persisted_deadlines-Recovers}

abbrev waiting : ℕ → IncidentRow
waiting at = record {
  status = acknowledged;
  quiet_at_ms = some at;
  alert_count = 2;
  last_alert_at = 40;
  last_ingested_at = 41;
  reopen_count = 1;
}

abbrev store : Store
store = record { incidents = (1, waiting 90) ∷ (2, waiting 120) ∷ []; persisted = [] }

recover_persisted_deadlines-Recovers_example :
    Recovers 100 store (recover_persisted_deadlines empty store 100).0
recover_persisted_deadlines-Recovers_example =
    recover_persisted_deadlines-Recovers store 100 (refl, (refl, tt))
