-- ===== src/Outbox/HealthColumns.antt =====
-- outbox/channel_health.py: the columns of a channel that each outcome of a delivery or of a probe
-- writes.
use vh26_pixel_perfect.Prelude.{ℕ, ◌+◌, ◌*◌, ◌^◌, min, Option, none, some, nat_beq, if◌then◌else◌}
use vh26_pixel_perfect.Outbox.FailurePolicy.{FailureVerdict, Reason}
use vh26_pixel_perfect.Outbox.Tables.{HealthRow, closed, opened, half_open}

-- Delays are in milliseconds.
pub record BreakerConfig : Type 0 where
  pub failure_threshold : ℕ
  pub probe_base : ℕ
  pub probe_max : ℕ
  pub half_open_allowance : ℕ

unfoldable pub probe_delay : BreakerConfig → ℕ → ℕ
probe_delay config step = min (config.probe_base * 2 ^ step) config.probe_max

-- The columns of a row that an upsert creates, by their defaults.
abbrev pub new_row : HealthRow
new_row = record {
  state = closed;
  consecutive_failures = 0;
  probe_backoff_step = 0;
  opened_at = none;
  next_probe_at = none;
  last_success_at = none;
  last_failure_at = none;
  last_error = none;
  outage_count = 0;
}

abbrev pub or_new : Option HealthRow → HealthRow
or_new none = new_row
or_new (some row) = row

-- The columns that each upsert of the store names.
abbrev pub delivered : ℕ → HealthRow → HealthRow
delivered now row = record row {
  state = closed;
  consecutive_failures = 0;
  probe_backoff_step = 0;
  opened_at = none;
  next_probe_at = none;
  last_success_at = some now;
}

-- a or b
abbrev pub or_else : Option ℕ → ℕ → ℕ
or_else none b = b
or_else (some a) b = a

-- The failure does not implicate the channel: only the note of it is written.
abbrev pub noted : FailureVerdict → ℕ → HealthRow → HealthRow
noted verdict now row = record row { last_failure_at = some now; last_error = some verdict.reason }

-- A failure during the trial: back to OPEN, with a longer probe interval.
abbrev pub reopened : BreakerConfig → FailureVerdict → ℕ → HealthRow → HealthRow
reopened config verdict now row =
    let step = row.probe_backoff_step + 1 in
    record row {
      state = opened;
      consecutive_failures = row.consecutive_failures + 1;
      probe_backoff_step = step;
      opened_at = some (or_else row.opened_at now);
      next_probe_at = some (now + probe_delay config step);
      last_failure_at = some now;
      last_error = some verdict.reason;
    }

-- A further failure of a channel that is OPEN already.
abbrev pub prolonged : BreakerConfig → FailureVerdict → ℕ → HealthRow → HealthRow
prolonged config verdict now row =
    let step = row.probe_backoff_step + 1 in
    record row {
      consecutive_failures = row.consecutive_failures + 1;
      probe_backoff_step = step;
      next_probe_at = some (now + probe_delay config step);
      last_failure_at = some now;
      last_error = some verdict.reason;
    }

-- A failure of a CLOSED channel below the threshold.
abbrev pub counted : FailureVerdict → ℕ → HealthRow → HealthRow
counted verdict now row = record row {
  consecutive_failures = row.consecutive_failures + 1;
  last_failure_at = some now;
  last_error = some verdict.reason;
}

-- `timedelta(seconds=delay) if delay else ...`: a hint of 0 is no hint.
unfoldable pub first_delay : BreakerConfig → Option ℕ → ℕ
first_delay config none = probe_delay config 0
first_delay config (some delay) = if nat_beq delay 0 then probe_delay config 0 else delay

abbrev pub declared : BreakerConfig → FailureVerdict → ℕ → ℕ → HealthRow → HealthRow
declared config verdict now count row = record row {
  state = opened;
  consecutive_failures = row.consecutive_failures + 1;
  probe_backoff_step = 0;
  opened_at = some now;
  next_probe_at = some (now + first_delay config verdict.retry_after);
  last_failure_at = some now;
  last_error = some verdict.reason;
  outage_count = count;
}

abbrev pub on_trial : ℕ → HealthRow → HealthRow
on_trial now row = record row {
  state = half_open;
  consecutive_failures = 0;
  next_probe_at = none;
  last_success_at = some now;
}

abbrev pub unreachable : BreakerConfig → Reason → ℕ → HealthRow → HealthRow
unreachable config detail now row =
    let step = row.probe_backoff_step + 1 in
    record row {
      state = opened;
      probe_backoff_step = step;
      opened_at = some (or_else row.opened_at now);
      next_probe_at = some (now + probe_delay config step);
      last_failure_at = some now;
      last_error = some detail;
    }
