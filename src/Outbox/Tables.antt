-- ===== src/Outbox/Tables.antt =====
-- The tables of db/schema.sql that the outbox reads and writes. A time is in milliseconds since the
-- epoch, as the stored texts order and compare.
use vh26_pixel_perfect.Prelude.{ℕ, Bool, true, false, String, Option, List}
use vh26_pixel_perfect.Prelude.Int.{ℤ}
use vh26_pixel_perfect.Prelude.Dict.{Dict}
use vh26_pixel_perfect.Outbox.FailurePolicy.{Reason}

pub data RowStatus : Type 0 where
  pending sent dead superseded : RowStatus

unfoldable pub is_pending : RowStatus → Bool
is_pending pending = true
is_pending _ = false

-- The fields of `payload_json` that the queue itself reads or writes; the rest is `body`.
pub record Payload : Type 0 where
  pub kind : Option String
  pub delivered_via_fallback : Option String
  pub failover_from : Option String
  pub body : String

pub record OutboxRow : Type 0 where
  pub outbox_id : ℕ
  pub incident_id : String
  pub channel : String
  pub action : String
  pub payload : Payload
  pub status : RowStatus
  pub attempts : ℕ
  pub next_attempt_at : ℕ
  pub last_error : Option Reason
  pub external_ref : Option String
  pub priority : ℤ
  pub locked_by : Option String
  pub locked_until : Option ℕ
  pub superseded_by : Option ℕ
  pub failover_of : Option ℕ
  pub origin_channel : Option String
  pub created_at : ℕ
  pub sent_at : Option ℕ

-- The three states of a breaker.
pub data Breaker : Type 0 where
  closed opened half_open : Breaker

-- channel_health
pub record HealthRow : Type 0 where
  pub state : Breaker
  pub consecutive_failures : ℕ
  pub probe_backoff_step : ℕ
  pub opened_at : Option ℕ
  pub next_probe_at : Option ℕ
  pub last_success_at : Option ℕ
  pub last_failure_at : Option ℕ
  pub last_error : Option Reason
  pub outage_count : ℕ

-- channel_outages
pub record Outage : Type 0 where
  pub outage_id : ℕ
  pub channel : String
  pub detected_at : ℕ
  pub recovered_at : Option ℕ
  pub probe_attempts : ℕ
  pub queued_at_peak : ℕ
  pub failed_over : ℕ
  pub last_error : Option Reason

-- Outages stand newest first, rows of the outbox in the order of their ids.
pub record Db : Type 0 where
  pub health : Dict String HealthRow
  pub outages : List Outage
  pub outbox : List OutboxRow
