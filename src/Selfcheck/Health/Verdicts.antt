-- ===== src/Selfcheck/Health/Verdicts.antt =====
-- When selfcheck/health.py finds the system well.
use vh26_pixel_perfect.Prelude.{
  ℕ, ◌≤◌, ◌≡◌, ◌↔◌, refl, ◌∙◌, ap, sym, Bool, true, false, not, String, Option, none, some, List,
  [], ◌∷◌, ◌++◌, map, keep_if, ltb, arith, All,
}
use vh26_pixel_perfect.Prelude.Text.{sorted, insert_text}
use vh26_pixel_perfect.Selfcheck.Health.{
  ok, unhealthy, SelfCheckThresholds, SelfCheckSignals, Finding, should_heartbeat, abs, when, over,
  is_empty, dead_workers, fatal_findings, degraded_findings, evaluate, verdict_of,
}

-- A time, if there is one, is within its limit.
abbrev pub Within : Option ℕ → ℕ → Type 0
Within none limit = Unit
Within (some x) limit = x ≤ limit

-- The system can deliver.
pub record Delivering (s : SelfCheckSignals) (limits : SelfCheckThresholds) : Type 0 where
  pub reachable : s.database_reachable ≡ true
  pub alive : All (λ w. w.1 ≡ true) s.workers
  pub draining : Within s.oldest_pending_age limits.stuck_outbox

-- Nothing impairs the delivery.
pub record Unimpaired (s : SelfCheckSignals) (limits : SelfCheckThresholds) : Type 0 where
  pub open_channels : s.open_channels ≡ []
  pub few_dead : s.outbox_dead ≤ limits.dead_letter_limit
  pub clocks : abs s.worst_clock_skew_ms ≤ limits.clock_skew_ms

none_written :
    (a b c : Bool) (f g h : Finding)
    → (is_empty (when a f ++ when b g ++ when c h) ≡ true)
      ↔ ((a ≡ false) × (b ≡ false) × (c ≡ false))
none_written true b c f g h = ground arith
none_written false true c f g h = ground arith
none_written false false c f g h = ground arith

empty_iff {ℓ} : {A : Type ℓ} (xs : List A) → (is_empty xs ≡ true) ↔ (xs ≡ [])
empty_iff [] = (λ _. refl, λ _. refl)
empty_iff (x ∷ xs) = (λ h. cc, λ h. cc)

is_empty-insert : (s : String) (ts : List String) → is_empty (insert_text s ts) ≡ false
unfolding insert_text
is_empty-insert s [] = refl
is_empty-insert s (t ∷ ts) = ground arith

is_empty-sorted : (ts : List String) → is_empty (sorted ts) ≡ is_empty ts
unfolding sorted
is_empty-sorted [] = refl
is_empty-sorted (t ∷ ts) = is_empty-insert t (sorted ts)

not-false : {b : Bool} → not b ≡ false → b ≡ true
not-false {b} h = ground arith

ltb-false : (a b : ℕ) → b ≤ a → ltb a b ≡ false
ltb-false a b h = ground arith

over_iff : (o : Option ℕ) (limit : ℕ) → (over o limit ≡ false) ↔ Within o limit
unfolding over
over_iff none limit = ground arith
over_iff (some x) limit = ground arith

alive_iff :
    (ws : List (String × Bool))
    → (is_empty (map (λ w. w.0) (keep_if (λ w. not w.1) ws)) ≡ true) ↔ All (λ w. w.1 ≡ true) ws
alive_iff [] = (λ _. tt, λ _. refl)
alive_iff (w ∷ ws) = ground (arith, alive_iff ws)

dead_workers_iff :
    (s : SelfCheckSignals) → (is_empty (dead_workers s) ≡ true) ↔ All (λ w. w.1 ≡ true) s.workers
unfolding dead_workers
dead_workers_iff s =
    let dead = map (λ w. w.0) (keep_if (λ w. not w.1) s.workers) in
    let (to, from) = alive_iff s.workers in
    (λ h. to (sym (is_empty-sorted dead) ∙ h), λ h. is_empty-sorted dead ∙ from h)

fatal_iff :
    (s : SelfCheckSignals) (limits : SelfCheckThresholds)
    → (is_empty (fatal_findings s limits) ≡ true) ↔ Delivering s limits
unfolding fatal_findings
fatal_iff s limits =
    let (to, from) =
      none_written (not s.database_reachable) (not (is_empty (dead_workers s)))
        (over s.oldest_pending_age limits.stuck_outbox) _ _ _ in
    let (dead, alive) = dead_workers_iff s in
    let (late, within) = over_iff s.oldest_pending_age limits.stuck_outbox in
    (
      λ h. record {
        reachable = not-false (to h).0;
        alive = dead (not-false (to h).1);
        draining = late (to h).2;
      },
      λ d. from (ap not d.reachable, ap not (alive d.alive), within d.draining),
    )

degraded_iff :
    (s : SelfCheckSignals) (limits : SelfCheckThresholds)
    → (is_empty (degraded_findings s limits) ≡ true) ↔ Unimpaired s limits
unfolding degraded_findings
degraded_iff s limits =
    let (to, from) =
      none_written (not (is_empty s.open_channels)) (ltb limits.dead_letter_limit s.outbox_dead)
        (ltb limits.clock_skew_ms (abs s.worst_clock_skew_ms)) _ _ _ in
    let (none_open, empty) = empty_iff s.open_channels in
    (
      λ h. record {
        open_channels = none_open (not-false (to h).0);
        few_dead = let k = to h in ground arith;
        clocks = let k = to h in ground arith;
      },
      λ u. from (
        ap not (empty u.open_channels),
        ltb-false limits.dead_letter_limit s.outbox_dead u.few_dead,
        ltb-false limits.clock_skew_ms (abs s.worst_clock_skew_ms) u.clocks,
      ),
    )

-- The verdict, by what the rules wrote.
verdict_iff :
    (fatal degraded' : List Finding)
    → ((elim (verdict_of fatal degraded') [ unhealthy ↦ false | _ ↦ true ] ≡ true)
        ↔ (is_empty fatal ≡ true))
      × ((verdict_of fatal degraded' ≡ ok)
          ↔ ((is_empty fatal ≡ true) × (is_empty degraded' ≡ true)))
      × ((verdict_of fatal degraded' ≡ ok) ↔ (fatal ++ degraded' ≡ []))
verdict_iff [] [] = ground arith
verdict_iff [] (d ∷ ds) = ground arith
verdict_iff (f ∷ fs) degraded' = ground arith

-- The heartbeat is due exactly if the database is reachable, every worker runs and no notification
-- is older than its limit. The verdict is OK exactly if, besides, no breaker is open, the dead
-- letters are within their limit and so are the clocks; and exactly then no reason is given.
pub evaluate_iff :
    (s : SelfCheckSignals) (limits : SelfCheckThresholds)
    → ((should_heartbeat (evaluate s limits) ≡ true) ↔ Delivering s limits)
      × (((evaluate s limits).verdict ≡ ok) ↔ (Delivering s limits × Unimpaired s limits))
      × (((evaluate s limits).verdict ≡ ok) ↔ ((evaluate s limits).reasons ≡ []))
unfolding evaluate should_heartbeat
evaluate_iff s limits =
    let (beats, good, reasons) =
      verdict_iff (fatal_findings s limits) (degraded_findings s limits) in
    let (to, from) = fatal_iff s limits in
    let (to', from') = degraded_iff s limits in
    (
      (λ h. to (beats.0 h), λ h. beats.1 (from h)),
      (λ h. (to (good.0 h).0, to' (good.0 h).1), λ h. good.1 (from h.0, from' h.1)),
      reasons,
    )
