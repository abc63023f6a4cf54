-- ===== src/Outbox/Routing/Failover.antt =====
-- The choice of a fallback in outbox/routing.py.
use vh26_pixel_perfect.Prelude.{
  ◌≡◌, ◌≢◌, ◌⊎◌, Bool, true, false, String, string_eq, ◌==◌, eq_iff, Option, none, some, List, [],
  ◌∷◌, any, refl, Bool-cases, inl, inr, arith,
}
use text.Mathlib.TextPositions.{eq_refl}
use vh26_pixel_perfect.Outbox.Routing.{
  FailoverTarget, select_failover, failover_chain, first_available, translate_action,
}

abbrev pub is_member : String → List String → Bool
is_member c = any (λ d. d == c)

create_ne : ◌≢◌ {A = String} "create" "update"
create_ne e = let h : false ≡ true = (eq_iff "create" "update").1 e in cc

-- PagerDuty is never asked to update; another channel gets the action as it was.
abbrev pub IsTranslated : String → String → String → Type 0
IsTranslated c action action' =
    ((c ≡ "pagerduty") × (action' ≢ "update")) ⊎ ((c ≢ "pagerduty") × (action' ≡ action))

-- What the walk over a chain promises.
abbrev pub Picks : List String → String → (String → Bool) → Option FailoverTarget → Type 0
Picks chain action available none = any available chain ≡ false
Picks chain action available (some t) =
    (available t.channel ≡ true)
    × (is_member t.channel chain ≡ true)
    × IsTranslated t.channel action t.action

translate_action_lem : (c action : String) → IsTranslated c action (translate_action c action)
unfolding translate_action
translate_action_lem c action = elim (Bool-cases (c == "pagerduty")) [
  | inl pagerduty ↦
      let e : c ≡ "pagerduty" = (eq_iff c "pagerduty").0 pagerduty in
      inl (e, ground (arith, eq_iff action "update", create_ne))
  | inr other ↦ inr (ground (arith, eq_iff c "pagerduty"), rw other refl)
]

weaken :
    (c : String) (chain : List String) (action : String) (available : String → Bool)
    (o : Option FailoverTarget)
    → available c ≡ false
    → Picks chain action available o
    → Picks (c ∷ chain) action available o
weaken c chain action available none down p = ground arith
weaken c chain action available (some t) down p = (p.0, ground arith, p.2)

first_available-Picks :
    (chain : List String) (action : String) (available : String → Bool)
    → Picks chain action available (first_available chain action available)
unfolding first_available
first_available-Picks [] action available = refl
first_available-Picks (c ∷ chain) action available = elim (Bool-cases (available c)) [
  | inl up ↦ rw (up, first_available) (up, rw eq_refl refl, translate_action_lem c action)
  | inr down ↦
      rw (down, first_available)
        (weaken c chain action available _ down (first_available-Picks chain action available))
]

origin_excluded : (origin : String) → is_member origin (failover_chain origin) ≡ false
unfolding failover_chain
origin_excluded origin = elim (Bool-cases (origin == "slack")) [
  | inl s ↦ let e : origin ≡ "slack" = (eq_iff origin "slack").0 s in rw e refl
  | inr s ↦ elim (Bool-cases (origin == "pagerduty")) [
    | inl p ↦ let e : origin ≡ "pagerduty" = (eq_iff origin "pagerduty").0 p in rw e refl
    | inr p ↦ ground arith
  ]
]

-- A target is not on the origin channel.
abbrev pub IsElsewhere : String → Option FailoverTarget → Type 0
IsElsewhere origin none = Unit
IsElsewhere origin (some t) = t.channel ≢ origin

elsewhere :
    (origin action : String) (available : String → Bool) (o : Option FailoverTarget)
    → Picks (failover_chain origin) action available o
    → IsElsewhere origin o
elsewhere origin action available none p = tt
elsewhere origin action available (some u) p = λ e. ground (arith, origin_excluded origin)

-- A fallback is chosen exactly if some channel of the chain of `origin` is available. It is then an
-- available channel of that chain, never `origin` itself; PagerDuty is never asked to update, and
-- any other channel gets the action as it was.
pub select_failover-Picks :
    (origin action : String) (available : String → Bool)
    → Picks (failover_chain origin) action available (select_failover origin action available)
      × IsElsewhere origin (select_failover origin action available)
unfolding select_failover
select_failover-Picks origin action available =
    let picks = first_available-Picks (failover_chain origin) action available in
    (picks, elsewhere origin action available _ picks)
