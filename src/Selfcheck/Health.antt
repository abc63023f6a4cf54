-- ===== src/Selfcheck/Health.antt =====
-- selfcheck/health.py: the verdict on the system's own delivery. Seconds are counted in milliseconds;
-- a reason or an observation is the rule that wrote it, with the values that it prints.
pub mod Verdicts
mod Tests
use vh26_pixel_perfect.Prelude.{
  ℕ, ◌+◌, Bool, true, false, not, String, Option, none, some, List, [], ◌∷◌, ◌++◌, map, keep_if,
  ltb, if◌then◌else◌,
}
use vh26_pixel_perfect.Prelude.Int.{ℤ, pos_part, neg_part}
use vh26_pixel_perfect.Prelude.Text.{sorted}
use vh26_pixel_perfect.Prelude.Dict.{Dict}

pub data Verdict : Type 0 where
  ok degraded unhealthy : Verdict

pub record SelfCheckThresholds : Type 0 where
  pub stuck_outbox : ℕ
  pub dead_letter_limit : ℕ
  pub quiet_ingest : ℕ
  pub clock_skew_ms : ℕ

-- The defaults.
abbrev pub default_thresholds : SelfCheckThresholds
default_thresholds = record {
  stuck_outbox = 900000;
  dead_letter_limit = 10;
  quiet_ingest = 3600000;
  clock_skew_ms = 120000;
}

pub record SelfCheckSignals : Type 0 where
  pub database_reachable : Bool
  pub workers : Dict String Bool
  pub outbox_pending : ℕ
  pub outbox_dead : ℕ
  pub oldest_pending_age : Option ℕ
  pub open_channels : List String
  pub ongoing_outages : ℕ
  pub since_last_ingest : Option ℕ
  pub worst_clock_skew_ms : ℤ
  pub unranked_scopes : ℕ

-- What the rules write.
pub data Finding : Type 0 where
  database_unreachable : Finding
  workers_not_running : List String → Finding
  delivery_stalled : ℕ → ℕ → Finding
  breaker_open : List String → Finding
  dead_lettered : ℕ → ℕ → Finding
  clock_out : ℕ → Finding
  quiet_for : ℕ → Finding
  outages_open : ℕ → Finding
  queued : ℕ → Finding
  unranked : ℕ → Finding

pub record SelfCheckReport : Type 0 where
  pub verdict : Verdict
  pub reasons : List Finding
  pub observations : List Finding
  pub signals : SelfCheckSignals

unfoldable pub should_heartbeat : SelfCheckReport → Bool
should_heartbeat report = elim report.verdict [ unhealthy ↦ false | _ ↦ true ]

abbrev pub abs : ℤ → ℕ
abs z = pos_part z + neg_part z

-- if test: findings.append(finding)
abbrev pub when : Bool → Finding → List Finding
when test finding = if test then finding ∷ [] else []

-- x is not None and x > limit
unfoldable pub over : Option ℕ → ℕ → Bool
over none limit = false
over (some x) limit = ltb limit x

abbrev pub or_zero : Option ℕ → ℕ
or_zero none = 0
or_zero (some x) = x

abbrev pub is_empty {ℓ} : {A : Type ℓ} → List A → Bool
is_empty [] = true
is_empty (_ ∷ _) = false

unfoldable pub dead_workers : SelfCheckSignals → List String
dead_workers s = sorted (map (λ w. w.0) (keep_if (λ w. not w.1) s.workers))

unfoldable pub fatal_findings : SelfCheckSignals → SelfCheckThresholds → List Finding
unfolding over dead_workers
fatal_findings s limits =
    when (not s.database_reachable) database_unreachable
    ++ when (not (is_empty (dead_workers s))) (workers_not_running (dead_workers s))
    ++ when (over s.oldest_pending_age limits.stuck_outbox)
        (delivery_stalled (or_zero s.oldest_pending_age) limits.stuck_outbox)

unfoldable pub degraded_findings : SelfCheckSignals → SelfCheckThresholds → List Finding
degraded_findings s limits =
    when (not (is_empty s.open_channels)) (breaker_open s.open_channels)
    ++ when (ltb limits.dead_letter_limit s.outbox_dead)
        (dead_lettered s.outbox_dead limits.dead_letter_limit)
    ++ when (ltb limits.clock_skew_ms (abs s.worst_clock_skew_ms))
        (clock_out (abs s.worst_clock_skew_ms))

unfoldable pub observations_of : SelfCheckSignals → SelfCheckThresholds → List Finding
unfolding over
observations_of s limits =
    when (over s.since_last_ingest limits.quiet_ingest) (quiet_for (or_zero s.since_last_ingest))
    ++ when (ltb 0 s.ongoing_outages) (outages_open s.ongoing_outages)
    ++ when (ltb 0 s.outbox_pending) (queued s.outbox_pending)
    ++ when (ltb 0 s.unranked_scopes) (unranked s.unranked_scopes)

abbrev pub verdict_of : List Finding → List Finding → Verdict
verdict_of fatal degraded' =
    if not (is_empty fatal) then unhealthy else if not (is_empty degraded') then degraded else ok

unfoldable pub evaluate : SelfCheckSignals → SelfCheckThresholds → SelfCheckReport
evaluate s limits =
    let fatal = fatal_findings s limits in
    let degraded' = degraded_findings s limits in
    record {
      verdict = verdict_of fatal degraded';
      reasons = fatal ++ degraded';
      observations = observations_of s limits;
      signals = s;
    }
