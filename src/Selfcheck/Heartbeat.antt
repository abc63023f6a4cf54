-- ===== src/Selfcheck/Heartbeat.antt =====
-- selfcheck/heartbeat.py: one beat of the dead man's switch. What `gather` reads and whether the
-- watchdog answers are parameters of a beat.
pub mod Gate
mod Tests
use vh26_pixel_perfect.Prelude.{
  ℕ, ◌+◌, Bool, true, false, not, String, Option, none, some, if◌then◌else◌,
}
use vh26_pixel_perfect.Selfcheck.Health.{
  Verdict, SelfCheckSignals, SelfCheckThresholds, evaluate, should_heartbeat, default_thresholds,
}

pub record HeartbeatEmitter : Type 0 where
  pub enabled : Bool
  pub last_verdict : Option Verdict
  pub last_sent_ok : Option Bool
  pub suppressed_count : ℕ

-- `beat_once`: the emitter after it, and whether it pinged. `answers` tells whether the watchdog
-- answers the ping without an error.
unfoldable pub beat_once : SelfCheckSignals → Bool → HeartbeatEmitter → HeartbeatEmitter × Bool
beat_once signals answers h =
    let report = evaluate signals default_thresholds in
    let seen = record h { last_verdict = some report.verdict } in
    if not (should_heartbeat report)
    then (record seen { suppressed_count = h.suppressed_count + 1; last_sent_ok = none }, false)
    else if not h.enabled
    then (seen, false)
    else if answers
    then (record seen { last_sent_ok = some true }, true)
    else (record seen { last_sent_ok = some false }, false)
