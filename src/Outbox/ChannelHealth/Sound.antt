-- ===== src/Outbox/ChannelHealth/Sound.antt =====
-- When the breakers of outbox/channel_health.py open and close, and what their rows always satisfy.
use vh26_pixel_perfect.Prelude.{
  ℕ, suc, zero, ◌+◌, ◌≤◌, ◌<◌, ◌≡◌, ◌≢◌, ◌↔◌, refl, Bool, true, false, String, string_eq, ◌==◌,
  none, ltb, arith, if◌then◌else◌,
}
use text.Mathlib.TextPositions.{eq_refl}
use vh26_pixel_perfect.Outbox.FailurePolicy.{FailureVerdict, Reason, trips_breaker}
use vh26_pixel_perfect.Outbox.Tables.{Db, HealthRow, Breaker, closed, opened, half_open}
use vh26_pixel_perfect.Outbox.ChannelHealth.{
  row_of, state_of, record_success, record_failure, record_probe_result,
}
use vh26_pixel_perfect.Outbox.HealthColumns.{
  BreakerConfig, delivered, noted, new_row, on_trial, unreachable,
}
use vh26_pixel_perfect.Outbox.ChannelHealth.Transitions.{
  failed, tripped, row_of-record_success, row_of-record_failure, row_of-record_probe_result,
}

-- What a breaker's state says of the other columns.
abbrev pub SoundIn : BreakerConfig → Breaker → HealthRow → Type 0
SoundIn config closed row = row.consecutive_failures < config.failure_threshold
SoundIn config opened row = (row.opened_at ≢ none) × (row.next_probe_at ≢ none)
SoundIn config half_open row = (row.opened_at ≢ none) × (row.next_probe_at ≡ none)

abbrev pub IsSound : BreakerConfig → HealthRow → Type 0
IsSound config row = SoundIn config row.state row

IsSound-if :
    (config : BreakerConfig) (b : Bool) (x y : HealthRow)
    → IsSound config x
    → IsSound config y
    → IsSound config (if b then x else y)
IsSound-if config true x y p q = p
IsSound-if config false x y p q = q

tripped-IsSound :
    (config : BreakerConfig) (b : Breaker) (verdict : FailureVerdict) (now : ℕ) (row : HealthRow)
    → row.state ≡ b
    → SoundIn config b row
    → IsSound config (tripped config b verdict now row)
tripped-IsSound config half_open verdict now row e s = ground arith
tripped-IsSound config opened verdict now row e s = rw e ((s.0, ground arith))
tripped-IsSound config closed verdict now row e s = ground arith

noted-SoundIn :
    (config : BreakerConfig) (b : Breaker) (verdict : FailureVerdict) (now : ℕ) (row : HealthRow)
    → SoundIn config b row
    → SoundIn config b (noted verdict now row)
noted-SoundIn config closed verdict now row s = s
noted-SoundIn config opened verdict now row s = s
noted-SoundIn config half_open verdict now row s = s

probed-IsSound :
    (config : BreakerConfig) (healthy : Bool) (detail : Reason) (now : ℕ) (row : HealthRow)
    → row.state ≡ opened
    → IsSound config row
    → IsSound config (if healthy then on_trial now row else unreachable config detail now row)
probed-IsSound config true detail now row e s = ground arith
probed-IsSound config false detail now row e s = ground arith

failed-IsSound :
    (config : BreakerConfig) (verdict : FailureVerdict) (now : ℕ) (row : HealthRow)
    → IsSound config row
    → IsSound config (failed config verdict now row)
failed-IsSound config verdict now row s =
    IsSound-if config (trips_breaker verdict) _ (noted verdict now row)
      (tripped-IsSound config row.state verdict now row refl s)
      (noted-SoundIn config row.state verdict now row s)

module _ (config : BreakerConfig) (db : Db) (channel other : String) (now : ℕ)
    (s : (c : String) → IsSound config (row_of db c)) where
  -- If all breakers are sound, they are sound after a failure of any channel: a CLOSED one is below
  -- its threshold, an OPEN one knows since when it is down and when to probe, and one on trial waits
  -- for no probe.
  pub record_failure-IsSound :
      (verdict : FailureVerdict)
      → IsSound config (row_of (record_failure config db channel verdict now).0 other)
  record_failure-IsSound verdict = rw row_of-record_failure (
      IsSound-if config (channel == other) _ (row_of db other)
        (failed-IsSound config verdict now (row_of db channel) (s channel)) (s other))

  -- They are sound after a delivery, if a threshold of 0 is ruled out.
  pub record_success-IsSound :
      0 < config.failure_threshold → IsSound config (row_of (record_success db channel now).0 other)
  record_success-IsSound positive = rw row_of-record_success (
      IsSound-if config (channel == other) (delivered now (row_of db channel)) (row_of db other)
        positive (s other))

  -- They are sound after a probe of an OPEN channel, whatever it found.
  pub record_probe_result-IsSound :
      (healthy : Bool) (detail : Reason)
      → (row_of db channel).state ≡ opened
      → IsSound config (row_of (record_probe_result config db channel healthy detail now) other)
  record_probe_result-IsSound healthy detail e = rw row_of-record_probe_result (
      IsSound-if config (channel == other) _ (row_of db other)
        (probed-IsSound config healthy detail now (row_of db channel) e (s channel)) (s other))

-- A failure newly declares an outage exactly if it accuses the channel, the channel was CLOSED, and
-- with it the consecutive failures reach the threshold.
pub record_failure-detects :
    (config : BreakerConfig) (db : Db) (channel : String) (verdict : FailureVerdict) (now : ℕ)
    → ((record_failure config db channel verdict now).1 ≡ true) ↔ (
        (trips_breaker verdict ≡ true)
        × ((state_of db channel).state ≡ closed)
        × (config.failure_threshold ≤ (state_of db channel).consecutive_failures + 1))
unfolding record_failure
record_failure-detects config db channel verdict now = ground arith

-- A run of failures of one channel.
unfoldable pub fail_times : ℕ → BreakerConfig → Db → String → FailureVerdict → ℕ → Db
fail_times zero config db channel verdict now = db
fail_times (suc n) config db channel verdict now =
    (record_failure config (fail_times n config db channel verdict now) channel verdict now).0

-- After `n` failures in a row.
abbrev pub AfterFailures : BreakerConfig → ℕ → HealthRow → Type 0
AfterFailures config n row =
    (row.consecutive_failures ≡ n)
    × (row.state ≡ (if ltb n config.failure_threshold then closed else opened))

tripped_after :
    (config : BreakerConfig) (n : ℕ) (b : Breaker) (verdict : FailureVerdict) (now : ℕ)
    (row : HealthRow)
    → row.state ≡ b
    → AfterFailures config n row
    → AfterFailures config (suc n) (tripped config b verdict now row)
tripped_after config n half_open verdict now row e a = ground arith
tripped_after config n opened verdict now row e a = ground arith
tripped_after config n closed verdict now row e a = ground arith

-- Of a channel that was never noted before, exactly the failures from the threshold on find the
-- breaker open: `n` failures that accuse the channel leave it CLOSED if `n` is below the threshold,
-- and OPEN otherwise, with `n` failures counted.
pub fail_times-detects :
    (n : ℕ) (config : BreakerConfig) (db : Db) (channel : String) (verdict : FailureVerdict)
    (now : ℕ)
    → 0 < config.failure_threshold
    → trips_breaker verdict ≡ true
    → row_of db channel ≡ new_row
    → AfterFailures config n (row_of (fail_times n config db channel verdict now) channel)
unfolding fail_times
fail_times-detects zero config db channel verdict now p t e = rw e (ground arith)
fail_times-detects (suc n) config db channel verdict now p t e =
    let before = fail_times n config db channel verdict now in
    rw (row_of-record_failure config before channel channel now verdict, eq_refl channel, t)
      (tripped_after config n (row_of before channel).state verdict now (row_of before channel) refl
        (fail_times-detects n config db channel verdict now p t e))
