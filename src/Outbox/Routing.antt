-- ===== src/Outbox/Routing.antt =====
-- outbox/routing.py: the priority of a notification, and where it goes when its channel is down.
pub mod Failover
mod Tests
use vh26_pixel_perfect.Prelude.{
  ℕ, Bool, true, false, ◌&&◌, String, string_eq, ◌==◌, Option, none, some, List, [], ◌∷◌,
  if◌then◌else◌, any,
}
use vh26_pixel_perfect.Prelude.Int.{ℤ, pos, ltb_ℤ, leb_ℤ}
use vh26_pixel_perfect.Prelude.Text.{lowers_to}

abbrev pub default_priority : ℕ
default_priority = 2

abbrev pub failover_min_priority : ℕ
failover_min_priority = 1

-- PRIORITY_BY_SEVERITY.get((severity or "").lower(), DEFAULT_PRIORITY)
unfoldable pub priority_for : Option String → ℕ
unfolding lowers_to
priority_for none = default_priority
priority_for (some severity) =
    if lowers_to severity "critical"
    then 0
    else if lowers_to severity "high"
    then 1
    else if lowers_to severity "medium"
    then 2
    else if lowers_to severity "low"
    then 3
    else default_priority

-- Priorities are signed: a recovery digest has -1.
unfoldable pub is_failover_worthy : ℤ → Bool
is_failover_worthy priority = leb_ℤ priority (pos failover_min_priority)

pub record FailoverTarget : Type 0 where
  pub channel : String
  pub action : String

unfoldable pub failover_chain : String → List String
failover_chain origin =
    if origin == "slack"
    then "pagerduty" ∷ "email" ∷ []
    else if origin == "pagerduty"
    then "slack" ∷ "email" ∷ []
    else []

unfoldable pub translate_action : String → String → String
translate_action channel action =
    if channel == "pagerduty" && action == "update" then "create" else action

-- The loop of `select_failover` over the fallbacks.
pub first_available : List String → String → (String → Bool) → Option FailoverTarget
unfolding translate_action
first_available [] action available = none
first_available (candidate ∷ chain) action available =
    if available candidate
    then some (record { channel = candidate; action = translate_action candidate action })
    else first_available chain action available

-- `available` is the test of membership in the set of channels that can be used.
unfoldable pub select_failover : String → String → (String → Bool) → Option FailoverTarget
unfolding failover_chain first_available
select_failover origin action available = first_available (failover_chain origin) action available
