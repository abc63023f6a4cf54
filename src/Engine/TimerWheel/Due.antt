-- ===== src/Engine/TimerWheel/Due.antt =====
-- `pop_due` and `next_deadline_ms` of engine/timer_wheel.py.
use vh26_pixel_perfect.Prelude.{
  nat_eq, ℕ, ◌≤◌, ◌≡◌, refl, true, false, Option, none, some, List, [], ◌∷◌, nat_beq, leb, arith,
  if◌then◌else◌, All, count_if, Bool-cases, Option-cases, inl, inr, ◌<◌,
}
use native.Mathlib.Nat.{le_refl}
use vh26_pixel_perfect.Prelude.Dict.{Dict, get, remove, get-remove}
use vh26_pixel_perfect.Engine.TimerWheel.{
  TimerWheel, TimerTrigger, HeapEntry, Popped, pop_loop, pop_due, is_current, trigger_of,
}
use vh26_pixel_perfect.Engine.TimerWheel.View.{
  deadline, deadline_of, IsFrom, IsSorted, in_heap, IsValid,
}

-- What a deadline becomes at a moment: what fires, and what is left.
abbrev pub fires : ℕ → Option ℕ → Option ℕ
fires now none = none
fires now (some q) = if leb q now then some q else none

abbrev pub stays : ℕ → Option ℕ → Option ℕ
stays now none = none
stays now (some q) = if leb q now then none else some q

-- The deadline of the first command for an incident, and the number of its commands.
abbrev pub fired : ℕ → List TimerTrigger → Option ℕ
fired i [] = none
fired i (t ∷ due) = if nat_beq t.incident_id i then some t.quiet_at_ms else fired i due

abbrev pub commands_for : ℕ → List TimerTrigger → ℕ
commands_for i = count_if (λ t. nat_beq t.incident_id i)

abbrev pub Covers : List HeapEntry → Dict ℕ (ℕ × ℕ) → Type 0
Covers heap active = (i q g : ℕ) → get i active ≡ some (q, g) → in_heap i q g heap ≡ true

abbrev pub IsOrdered : List TimerTrigger → Type 0
IsOrdered [] = Unit
IsOrdered (t ∷ due) = All (λ u. t.quiet_at_ms ≤ u.quiet_at_ms) due × IsOrdered due

abbrev once : Option ℕ → ℕ
once none = 0
once (some _) = 1

pub late :
    (q : ℕ) (heap : List HeapEntry) (i p g : ℕ) → IsFrom q heap → in_heap i p g heap ≡ true → q ≤ p
late q [] i p g f h = ground arith
late q (e ∷ heap) i p g f h = ground (arith, late q heap i p g f.1)

-- What the loop does to one incident, in its commands and in the active deadlines.
record Pops (now i : ℕ) (before : Option ℕ) (p : Popped) : Type 0 where
  fired_at : fired i p.due ≡ fires now before
  left : deadline_of (get i p.active) ≡ stays now before
  single : commands_for i p.due ≡ once (fires now before)

pub Covers-stale :
    (e : HeapEntry) (heap : List HeapEntry) (active : Dict ℕ (ℕ × ℕ))
    → Covers (e ∷ heap) active
    → is_current e active ≡ false
    → Covers heap active
unfolding is_current
Covers-stale e heap active c stale i q g h = ground (arith, c i q g h)

pub Covers-current :
    (e : HeapEntry) (heap : List HeapEntry) (active : Dict ℕ (ℕ × ℕ))
    → Covers (e ∷ heap) active
    → Covers heap (remove e.incident_id active)
Covers-current e heap active c i q g h = ground (arith, c i q g, get-remove e.incident_id i active)

Pops-late :
    (now i : ℕ) (e : HeapEntry) (heap : List HeapEntry) (active : Dict ℕ (ℕ × ℕ))
    → IsSorted (e ∷ heap)
    → Covers (e ∷ heap) active
    → now < e.quiet_at_ms
    → Pops now i
        (deadline_of (get i active))
        (record { due = []; heap = e ∷ heap; active = active })
Pops-late now i e heap active s c after = elim (Option-cases (get i active)) [
  | inl absent ↦ rw absent (record { fired_at = refl; left = ground arith; single = refl })
  | inr ((q, g), present) ↦
      let least : e.quiet_at_ms ≤ q =
        late e.quiet_at_ms (e ∷ heap) i q g (le_refl e.quiet_at_ms, s.0) (c i q g present) in
      record { fired_at = ground arith; left = ground arith; single = ground arith }
]

-- One round of the loop: it ends at a late entry, drops a stale one, and fires a current one.
module _ (now : ℕ) (e : HeapEntry) (heap : List HeapEntry) (active : Dict ℕ (ℕ × ℕ)) where
  pub pop_loop_late :
      leb e.quiet_at_ms now ≡ false
      → pop_loop now (e ∷ heap) active ≡ record { due = []; heap = e ∷ heap; active = active }
  unfolding pop_loop
  pop_loop_late h = ground arith

  pub pop_loop_stale :
      leb e.quiet_at_ms now ≡ true
      → is_current e active ≡ false
      → pop_loop now (e ∷ heap) active ≡ pop_loop now heap active
  unfolding pop_loop
  pop_loop_stale h k = ground arith

  pub pop_loop_current :
      leb e.quiet_at_ms now ≡ true
      → is_current e active ≡ true
      → pop_loop now (e ∷ heap) active ≡ (
          let rest = pop_loop now heap (remove e.incident_id active) in
          record rest { due = trigger_of e ∷ rest.due })
  unfolding pop_loop
  pop_loop_current h k = ground arith

Pops-current :
    (now i : ℕ) (e : HeapEntry) (active : Dict ℕ (ℕ × ℕ)) (rest : Popped)
    → leb e.quiet_at_ms now ≡ true
    → is_current e active ≡ true
    → Pops now i (deadline_of (get i (remove e.incident_id active))) rest
    → Pops now i (deadline_of (get i active)) (record rest { due = trigger_of e ∷ rest.due })
unfolding is_current trigger_of
Pops-current now i e active rest due current p = record {
  fired_at = ground (arith, get-remove e.incident_id i active, p.fired_at);
  left = ground (arith, get-remove e.incident_id i active, p.left);
  single = ground (arith, get-remove e.incident_id i active, p.single);
}

pop_loop-Pops :
    (now i : ℕ) (heap : List HeapEntry) (active : Dict ℕ (ℕ × ℕ))
    → IsSorted heap
    → Covers heap active
    → Pops now i (deadline_of (get i active)) (pop_loop now heap active)
unfolding pop_loop
pop_loop-Pops now i [] active s c = elim (Option-cases (get i active)) [
  | inl absent ↦ record { fired_at = ground arith; left = ground arith; single = ground arith }
  | inr ((q, g), present) ↦ absurd (ground (arith, c i q g present))
]
pop_loop-Pops now i (e ∷ heap) active s c = elim (Bool-cases (leb e.quiet_at_ms now)) [
  | inr after ↦
      rw (pop_loop_late now e heap active after) (Pops-late now i e heap active s c (ground arith))
  | inl due ↦ elim (Bool-cases (is_current e active)) [
    | inr stale ↦
        rw (pop_loop_stale now e heap active due stale)
          (pop_loop-Pops now i heap active s.1 (Covers-stale e heap active c stale))
    | inl current ↦ rw (pop_loop_current now e heap active due current) (
        Pops-current now i e active (pop_loop now heap (remove e.incident_id active)) due current (
          pop_loop-Pops now i heap (remove e.incident_id active) s.1
            (Covers-current e heap active c)))
  ]
]

module _ (w : TimerWheel) (now : ℕ) (v : IsValid w) where
  -- From a valid wheel, whatever the history of reschedules and cancels: `pop_due` issues a command
  -- for an incident exactly if its deadline has come, one command that carries that deadline, and
  -- afterwards the incident has no deadline; a deadline still to come stays as it was.
  pub pop_due-fires :
      (i : ℕ)
      → (fired i (pop_due w now).1 ≡ fires now (deadline w i))
        × (deadline (pop_due w now).0 i ≡ stays now (deadline w i))
        × (commands_for i (pop_due w now).1 ≤ 1)
  unfolding pop_due deadline
  pop_due-fires i =
      let p = pop_loop-Pops now i w.heap w.active v.sorted v.scheduled in
      (p.fired_at, p.left, ground (arith, p.single))
