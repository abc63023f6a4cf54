-- ===== src/Selfcheck/Heartbeat/Gate.antt =====
-- When selfcheck/heartbeat.py pings the watchdog.
use vh26_pixel_perfect.Prelude.{
  ◌+◌, ◌≡◌, ◌↔◌, ◌⊎◌, refl, Bool, true, false, not, inl, inr, if◌then◌else◌,
}
use mathlib.Core.Bool.{false≢true}
use vh26_pixel_perfect.Selfcheck.Health.{
  SelfCheckSignals, evaluate, should_heartbeat, default_thresholds,
}
use vh26_pixel_perfect.Selfcheck.Health.Verdicts.{Delivering, evaluate_iff}
use vh26_pixel_perfect.Selfcheck.Heartbeat.{HeartbeatEmitter, beat_once}

-- What one beat promises.
pub record Gated (due enabled answers : Type 0) (h h' : HeartbeatEmitter) (pinged : Bool)
    : Type 0 where
  pub pings : (pinged ≡ true) ↔ (due × enabled × answers)
  pub counted :
      (due × (h'.suppressed_count ≡ h.suppressed_count))
      ⊎ ((¬ due) × (h'.suppressed_count ≡ h.suppressed_count + 1))

-- The branches of a beat, by the three tests that choose between them.
abbrev branches {ℓ} : {A : Type ℓ} → Bool → Bool → Bool → A → A → A → A → A × Bool
branches due enabled answers w x y z =
    if not due
    then (w, false)
    else if not enabled
    then (x, false)
    else if answers
    then (y, true)
    else (z, false)

module _ (Due : Type 0) (h w x y z : HeartbeatEmitter)
    (ws : w.suppressed_count ≡ h.suppressed_count + 1)
    (xs : x.suppressed_count ≡ h.suppressed_count) (ys : y.suppressed_count ≡ h.suppressed_count)
    (zs : z.suppressed_count ≡ h.suppressed_count) where
  branches-Gated :
      (due enabled answers : Bool)
      → (due ≡ true) ↔ Due
      → Gated Due
          (enabled ≡ true)
          (answers ≡ true)
          h
          (branches due enabled answers w x y z).0
          (branches due enabled answers w x y z).1
  branches-Gated false enabled answers (to, from) = record {
    pings = (λ p. absurd (false≢true p), λ d. absurd (false≢true (from d.0)));
    counted = inr (λ d. false≢true (from d), ws);
  }
  branches-Gated true false answers (to, from) = record {
    pings = (λ p. absurd (false≢true p), λ d. absurd (false≢true d.1));
    counted = inl (to refl, xs);
  }
  branches-Gated true true false (to, from) = record {
    pings = (λ p. absurd (false≢true p), λ d. absurd (false≢true d.2));
    counted = inl (to refl, zs);
  }
  branches-Gated true true true (to, from) = record {
    pings = (λ _. (to refl, refl, refl), λ _. refl);
    counted = inl (to refl, ys);
  }

-- A beat pings the watchdog exactly if the system can deliver, the emitter has an address, and the
-- watchdog answers; and it counts a suppressed beat exactly if the system cannot deliver.
pub beat_once-Gated :
    (s : SelfCheckSignals) (answers : Bool) (h : HeartbeatEmitter)
    → Gated
        (Delivering s default_thresholds)
        (h.enabled ≡ true)
        (answers ≡ true)
        h
        (beat_once s answers h).0
        (beat_once s answers h).1
unfolding beat_once
beat_once-Gated s answers h =
    branches-Gated (Delivering s default_thresholds) h _ _ _ _ refl refl refl refl
      (should_heartbeat (evaluate s default_thresholds)) h.enabled answers
      (evaluate_iff s default_thresholds).0
