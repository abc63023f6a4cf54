-- ===== src/Outbox/ChannelHealth/Transitions.antt =====
-- The transitions of the breakers of outbox/channel_health.py.
use vh26_pixel_perfect.Prelude.{
  ℕ, ◌+◌, ◌≡◌, Bool, true, false, String, string_eq, ◌==◌, ltb, arith, Bool-cases, inl, inr,
  if◌then◌else◌,
}
use vh26_pixel_perfect.Prelude.Dict.{get-put}
use vh26_pixel_perfect.Outbox.FailurePolicy.{FailureVerdict, Reason, trips_breaker}
use vh26_pixel_perfect.Outbox.Tables.{Db, HealthRow, Breaker, closed, opened, half_open}
use vh26_pixel_perfect.Outbox.ChannelHealth.{
  row_of, upsert, state_of, record_success, record_failure, record_probe_result, channel_failure,
  declare_outage, next_outage_count, is_down, close_outage,
}
use vh26_pixel_perfect.Outbox.HealthColumns.{
  BreakerConfig, delivered, noted, reopened, prolonged, counted, declared, on_trial, unreachable,
}

pub row_of-upsert :
    (db : Db) (channel other : String) (change : HealthRow → HealthRow)
    → row_of (upsert db channel change) other
      ≡ (if channel == other then change (row_of db channel) else row_of db other)
unfolding upsert row_of
row_of-upsert db channel other change =
    ground (arith, get-put channel other (change (row_of db channel)) db.health)

-- What a failure does to the row of its channel.
abbrev pub closed_failure : BreakerConfig → FailureVerdict → ℕ → HealthRow → HealthRow
closed_failure config verdict now row =
    if ltb (row.consecutive_failures + 1) config.failure_threshold
    then counted verdict now row
    else declared config verdict now (row.outage_count + 1) row

abbrev pub tripped : BreakerConfig → Breaker → FailureVerdict → ℕ → HealthRow → HealthRow
tripped config half_open verdict now row = reopened config verdict now row
tripped config opened verdict now row = prolonged config verdict now row
tripped config closed verdict now row = closed_failure config verdict now row

abbrev pub failed : BreakerConfig → FailureVerdict → ℕ → HealthRow → HealthRow
failed config verdict now row =
    if trips_breaker verdict
    then tripped config row.state verdict now row
    else noted verdict now row

-- Each operation changes the row of its own channel, and no other.
module _ (db : Db) (channel other : String) (now : ℕ) where
  pub row_of-record_success :
      row_of (record_success db channel now).0 other
      ≡ (if channel == other then delivered now (row_of db channel) else row_of db other)
  unfolding record_success close_outage row_of
  row_of-record_success = elim (Bool-cases (is_down (state_of db channel).state)) [
    | inl down ↦ rw down (row_of-upsert (close_outage db channel now) channel other (delivered now))
    | inr up ↦ rw up (row_of-upsert db channel other (delivered now))
  ]

module _ (config : BreakerConfig) (db : Db) (channel other : String) (now : ℕ) where
  row_of-declare_outage :
      (verdict : FailureVerdict)
      → row_of (declare_outage config db channel verdict now) other ≡ (
          if channel == other
          then declared config verdict now
              ((row_of db channel).outage_count + 1)
              (row_of db channel)
          else row_of db other)
  unfolding declare_outage row_of next_outage_count
  row_of-declare_outage verdict =
      row_of-upsert db channel other (declared config verdict now (next_outage_count db channel))

  row_of-channel_failure :
      (b : Breaker) (verdict : FailureVerdict)
      → row_of (channel_failure config b db channel verdict now).0 other ≡ (
          if channel == other
          then tripped config b verdict now (row_of db channel)
          else row_of db other)
  unfolding channel_failure state_of
  row_of-channel_failure half_open verdict =
      row_of-upsert db channel other (reopened config verdict now)
  row_of-channel_failure opened verdict =
      row_of-upsert db channel other (prolonged config verdict now)
  row_of-channel_failure closed verdict =
      ground
        (arith, row_of-upsert db channel other (counted verdict now), row_of-declare_outage verdict)

  pub row_of-record_failure :
      (verdict : FailureVerdict)
      → row_of (record_failure config db channel verdict now).0 other ≡ (
          if channel == other
          then failed config verdict now (row_of db channel)
          else row_of db other)
  unfolding record_failure state_of
  row_of-record_failure verdict = elim (Bool-cases (trips_breaker verdict)) [
    | inl trips ↦ rw trips (row_of-channel_failure (row_of db channel).state verdict)
    | inr not_trips ↦ rw not_trips (row_of-upsert db channel other (noted verdict now))
  ]

  pub row_of-record_probe_result :
      (healthy : Bool) (detail : Reason)
      → row_of (record_probe_result config db channel healthy detail now) other ≡ (
          if channel == other
          then (if healthy
              then on_trial now (row_of db channel)
              else unreachable config detail now (row_of db channel))
          else row_of db other)
  unfolding record_probe_result row_of
  row_of-record_probe_result true detail = row_of-upsert db channel other (on_trial now)
  row_of-record_probe_result false detail =
      row_of-upsert db channel other (unreachable config detail now)
