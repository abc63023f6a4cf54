-- ===== src/Outbox/ChannelHealth/Runs.antt =====
-- Runs of the breakers of outbox/channel_health.py, in any order of failures, deliveries and probes.
use vh26_pixel_perfect.Prelude.{ℕ, ◌<◌, ◌≡◌, Bool, String, List, [], refl}
use vh26_pixel_perfect.Prelude.Dict.{get}
use vh26_pixel_perfect.Outbox.FailurePolicy.{FailureVerdict, Reason}
use vh26_pixel_perfect.Outbox.Tables.{Db, OutboxRow, opened}
use vh26_pixel_perfect.Outbox.ChannelHealth.{
  row_of, record_success, record_failure, record_probe_result, is_down, mark_failed_over,
}
use vh26_pixel_perfect.Outbox.HealthColumns.{BreakerConfig}
use vh26_pixel_perfect.Outbox.ChannelHealth.Sound.{
  IsSound, record_failure-IsSound, record_success-IsSound, record_probe_result-IsSound,
}
use vh26_pixel_perfect.Outbox.ChannelHealth.Ledger.{
  IsBalanced, record_failure-IsBalanced, record_success-IsBalanced, record_probe_result-IsBalanced,
  mark_failed_over-IsBalanced,
}

abbrev pub start : Db
start = record { health = []; outages = []; outbox = [] }

-- What happens to the store: the worker probes a channel only while it is OPEN, and changes the
-- queue in other ways that concern no breaker.
pub data Step (config : BreakerConfig) (db : Db) : Db → Type 0 where
  fail :
      (channel : String) (verdict : FailureVerdict) (now : ℕ)
      → Step config db (record_failure config db channel verdict now).0
  deliver : (channel : String) (now : ℕ) → Step config db (record_success db channel now).0
  probe :
      (channel : String) (healthy : Bool) (detail : Reason) (now : ℕ)
      → (row_of db channel).state ≡ opened
      → Step config db (record_probe_result config db channel healthy detail now)
  failover : (channel : String) (count : ℕ) → Step config db (mark_failed_over db channel count)
  queue : (rows : List OutboxRow) → Step config db (record db { outbox = rows })

pub data Reach (config : BreakerConfig) : Db → Type 0 where
  here : Reach config start
  next : {db db' : Db} → Reach config db → Step config db db' → Reach config db'

pub record IsHealthy (config : BreakerConfig) (db : Db) (c : String) : Type 0 where
  pub sound : IsSound config (row_of db c)
  pub balanced : IsBalanced db c

start-IsHealthy :
    (config : BreakerConfig) (c : String) → 0 < config.failure_threshold → IsHealthy config start c
unfolding row_of get is_down
start-IsHealthy config c p = record { sound = p; balanced = refl }

Step-IsHealthy :
    (config : BreakerConfig) (db db' : Db)
    → 0 < config.failure_threshold
    → Step config db db'
    → ((c : String) → IsHealthy config db c)
    → (c : String) → IsHealthy config db' c
unfolding row_of mark_failed_over
Step-IsHealthy config db db' p (fail channel verdict now) h c = record {
  sound = record_failure-IsSound config db channel c now (λ d. (h d).sound) verdict;
  balanced = record_failure-IsBalanced config db c channel verdict now (h c).balanced;
}
Step-IsHealthy config db db' p (deliver channel now) h c = record {
  sound = record_success-IsSound config db channel c now (λ d. (h d).sound) p;
  balanced = record_success-IsBalanced db c channel now (h c).balanced;
}
Step-IsHealthy config db db' p (probe channel healthy detail now e) h c = record {
  sound = record_probe_result-IsSound config db channel c now (λ d. (h d).sound) healthy detail e;
  balanced = record_probe_result-IsBalanced config db c channel healthy detail now e (h c).balanced;
}
Step-IsHealthy config db db' p (failover channel count) h c = record {
  sound = (h c).sound;
  balanced = mark_failed_over-IsBalanced db c channel count (h c).balanced;
}
Step-IsHealthy config db db' p (queue rows) h c = record {
  sound = (h c).sound;
  balanced = (h c).balanced;
}

-- From the empty store, with a threshold above 0, whatever the order of failures, deliveries, probes
-- of OPEN channels and changes of the queue, for every channel: a CLOSED breaker has fewer failures
-- than the threshold, an OPEN one knows since when it is down and when to probe, one on trial knows
-- since when it is down and waits for no probe; and the ledger has exactly one outage in progress if
-- the breaker is not CLOSED, and none if it is.
pub Reach-IsHealthy :
    (config : BreakerConfig) (db : Db)
    → 0 < config.failure_threshold
    → Reach config db
    → (c : String) → IsHealthy config db c
Reach-IsHealthy config db p here c = start-IsHealthy config c p
Reach-IsHealthy config db p (next {db = before} r s) c =
    Step-IsHealthy config before db p s (Reach-IsHealthy config before p r) c
