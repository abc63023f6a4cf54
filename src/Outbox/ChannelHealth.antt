-- ===== src/Outbox/ChannelHealth.antt =====
-- outbox/channel_health.py: the circuit breaker of each channel and the ledger of its outages.
pub mod Sound
pub mod Ledger
pub mod Runs
pub mod Transitions
mod Tests
use vh26_pixel_perfect.Prelude.{
  ℕ, ◌+◌, ◌*◌, ◌^◌, min, Bool, true, false, ◌&&◌, ◌||◌, String, string_eq, ◌==◌, Option, none, some,
  List, [], ◌∷◌, map, ltb, leb, nat_beq, length, count_if, if◌then◌else◌,
}
use vh26_pixel_perfect.Prelude.Dict
use vh26_pixel_perfect.Outbox.FailurePolicy.{FailureVerdict, Reason, trips_breaker}
use vh26_pixel_perfect.Outbox.Tables.{
  Db, OutboxRow, HealthRow, Outage, Breaker, closed, opened, half_open, is_pending,
}
use vh26_pixel_perfect.Outbox.HealthColumns.{
  BreakerConfig, probe_delay, new_row, or_new, delivered, or_else, noted, reopened, prolonged,
  counted, first_delay, declared, on_trial, unreachable,
}

pub record ChannelState : Type 0 where
  pub channel : String
  pub state : Breaker
  pub consecutive_failures : ℕ
  pub probe_backoff_step : ℕ
  pub opened_at : Option ℕ
  pub next_probe_at : Option ℕ
  pub last_error : Option Reason

unfoldable pub is_closed : Breaker → Bool
is_closed closed = true
is_closed _ = false

unfoldable pub is_open : Breaker → Bool
is_open opened = true
is_open _ = false

unfoldable pub is_half_open : Breaker → Bool
is_half_open half_open = true
is_half_open _ = false

unfoldable pub is_available : ChannelState → Bool
unfolding is_closed is_half_open
is_available c = is_closed c.state || is_half_open c.state

unfoldable pub due_at : Option ℕ → ℕ → Bool
due_at none now = true
due_at (some t) now = leb t now

unfoldable pub probe_due : ChannelState → ℕ → Bool
unfolding is_open due_at
probe_due c now = is_open c.state && due_at c.next_probe_at now

unfoldable pub row_to_state : String → HealthRow → ChannelState
row_to_state channel row = record {
  channel = channel;
  state = row.state;
  consecutive_failures = row.consecutive_failures;
  probe_backoff_step = row.probe_backoff_step;
  opened_at = row.opened_at;
  next_probe_at = row.next_probe_at;
  last_error = row.last_error;
}

unfoldable pub row_of : Db → String → HealthRow
row_of db channel = or_new (Dict.get channel db.health)

-- `get`: a channel without a row is closed, with no failure.
unfoldable pub state_of : Db → String → ChannelState
unfolding row_to_state row_of
state_of db channel = row_to_state channel (row_of db channel)

unfoldable pub all_states : Db → List ChannelState
unfolding row_to_state
all_states db = map (λ e. row_to_state e.0 e.1) db.health

-- `_upsert`: the fields that it names are `change`.
unfoldable pub upsert : Db → String → (HealthRow → HealthRow) → Db
upsert db channel change = record db {
  health = Dict.put channel (change (row_of db channel)) db.health;
}

unfoldable pub is_ongoing : String → Outage → Bool
is_ongoing channel o = elim o.recovered_at [ none ↦ o.channel == channel | some _ ↦ false ]

-- The UPDATE of the newest outage of a channel that has not recovered.
unfoldable pub update_ongoing : String → (Outage → Outage) → List Outage → List Outage
unfolding is_ongoing
update_ongoing channel change [] = []
update_ongoing channel change (o ∷ outages) =
    if is_ongoing channel o then change o ∷ outages else o ∷ update_ongoing channel change outages

unfoldable pub close_outage : Db → String → ℕ → Db
close_outage db channel now = record db {
  outages = update_ongoing channel (λ o. record o { recovered_at = some now }) db.outages;
}

unfoldable pub queue_depth : Db → String → ℕ
queue_depth db channel = count_if (λ r. r.channel == channel && is_pending r.status) db.outbox

unfoldable pub next_outage_count : Db → String → ℕ
next_outage_count db channel = (row_of db channel).outage_count + 1

unfoldable pub is_down : Breaker → Bool
is_down closed = false
is_down _ = true

-- Registers a delivery; the result tells whether it ended an outage.
unfoldable pub record_success : Db → String → ℕ → Db × Bool
record_success db channel now =
    let recovered = is_down (state_of db channel).state in
    let db' = if recovered then close_outage db channel now else db in
    (upsert db' channel (delivered now), recovered)

-- The threshold is crossed: the breaker opens, and the ledger gets a new outage.
unfoldable pub declare_outage : BreakerConfig → Db → String → FailureVerdict → ℕ → Db
declare_outage config db channel verdict now =
    let depth = queue_depth db channel in
    let count = next_outage_count db channel in
    let db' = upsert db channel (declared config verdict now count) in
    record db' {
      outages =
          record {
            outage_id = length db'.outages + 1;
            channel = channel;
            detected_at = now;
            recovered_at = none;
            probe_attempts = 0;
            queued_at_peak = depth;
            failed_over = 0;
            last_error = some verdict.reason;
          }
          ∷ db'.outages;
    }

-- A failure that trips the breaker, by the state that it was in; the result tells whether it
-- declares an outage.
unfoldable pub channel_failure :
    BreakerConfig → Breaker → Db → String → FailureVerdict → ℕ → Db × Bool
channel_failure config half_open db channel verdict now =
    (upsert db channel (reopened config verdict now), false)
channel_failure config opened db channel verdict now =
    (upsert db channel (prolonged config verdict now), false)
channel_failure config closed db channel verdict now =
    if ltb ((state_of db channel).consecutive_failures + 1) config.failure_threshold
    then (upsert db channel (counted verdict now), false)
    else (declare_outage config db channel verdict now, true)

unfoldable pub record_failure : BreakerConfig → Db → String → FailureVerdict → ℕ → Db × Bool
unfolding channel_failure
record_failure config db channel verdict now =
    if trips_breaker verdict
    then channel_failure config (state_of db channel).state db channel verdict now
    else (upsert db channel (noted verdict now), false)

-- The outcome of a probe: a healthy answer opens the trial, another prolongs the outage.
unfoldable pub record_probe_result : BreakerConfig → Db → String → Bool → Reason → ℕ → Db
record_probe_result config db channel true detail now = upsert db channel (on_trial now)
record_probe_result config db channel false detail now =
    let db' = upsert db channel (unreachable config detail now) in
    record db' {
      outages =
          update_ongoing channel (λ o. record o { probe_attempts = o.probe_attempts + 1 })
            db'.outages;
    }

unfoldable pub first_ongoing : String → List Outage → Option Outage
unfolding is_ongoing
first_ongoing channel [] = none
first_ongoing channel (o ∷ outages) =
    if is_ongoing channel o then some o else first_ongoing channel outages

-- The start of the outage in progress, and the rows that were queued when it was declared.
unfoldable pub open_outage : Db → String → Option ℕ × ℕ
unfolding first_ongoing
open_outage db channel = elim (first_ongoing channel db.outages) [
  | none ↦ (none, 0)
  | some o ↦ (some o.detected_at, o.queued_at_peak)
]

unfoldable pub mark_failed_over : Db → String → ℕ → Db
mark_failed_over db channel count = record db {
  outages =
      update_ongoing channel (λ o. record o { failed_over = o.failed_over + count }) db.outages;
}
