-- ===== src/Outbox/ChannelHealth/Tests.antt =====
-- Tests of outbox/channel_health.py.
use vh26_pixel_perfect.Prelude.{string_eq, none, some, [], arith}
use vh26_pixel_perfect.Outbox.FailurePolicy.{FailureVerdict, channel_down, transport}
use vh26_pixel_perfect.Outbox.Tables.{Db, HealthRow, opened}
use vh26_pixel_perfect.Outbox.HealthColumns.{BreakerConfig, new_row}
use vh26_pixel_perfect.Outbox.ChannelHealth.Sound.{fail_times}
use vh26_pixel_perfect.Outbox.ChannelHealth.Runs.{
  Reach, here, next, fail, IsHealthy, Reach-IsHealthy,
}

abbrev config : BreakerConfig
config = record {
  failure_threshold = 3;
  probe_base = 5000;
  probe_max = 120000;
  half_open_allowance = 3;
}

abbrev fresh : Db
fresh = record { health = []; outages = []; outbox = [] }

abbrev refused : FailureVerdict
refused = record { kind = channel_down; reason = transport "ConnectError"; retry_after = none }

abbrev open_row : HealthRow
open_row = record new_row {
  state = opened;
  consecutive_failures = 3;
  opened_at = some 100;
  next_probe_at = some 5100;
  outage_count = 1;
}

-- Slack fails three times, is probed, and takes a message.
after_three : Reach config (fail_times 3 config fresh "slack" refused 7)
unfolding fail_times
after_three =
    next (next (next here (fail "slack" refused 7)) (fail "slack" refused 7))
      (fail "slack" refused 7)

Reach-IsHealthy_example : IsHealthy config (fail_times 3 config fresh "slack" refused 7) "slack"
Reach-IsHealthy_example =
    Reach-IsHealthy config (fail_times 3 config fresh "slack" refused 7) (omega arith) after_three
      "slack"
