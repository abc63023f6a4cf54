-- ===== src/Engine/TimerWheel/Order.antt =====
-- The order of the commands of engine/timer_wheel.py, and what its loops keep of the heap.
use native.Mathlib.Nat.{le_refl}
use vh26_pixel_perfect.Prelude.{
  nat_eq, ℕ, ◌≤◌, ◌≡◌, refl, true, Option, none, some, List, [], ◌∷◌, leb, arith, All, Bool-cases,
  Option-cases, inl, inr,
}
use vh26_pixel_perfect.Prelude.Dict.{Dict, get, remove}
use vh26_pixel_perfect.Engine.TimerWheel.{
  TimerWheel, HeapEntry, Popped, pop_loop, pop_due, is_current, trigger_of, peek_loop,
  next_deadline_ms,
}
use vh26_pixel_perfect.Engine.TimerWheel.View.{deadline, deadline_of, IsFrom, IsSorted, IsValid}
use vh26_pixel_perfect.Engine.TimerWheel.Due.{
  IsOrdered, Covers, late, Covers-stale, Covers-current, pop_loop_late, pop_loop_stale,
  pop_loop_current,
}

record Keeps (p : Popped) : Type 0 where
  ordered : IsOrdered p.due
  sorted : IsSorted p.heap
  covers : Covers p.heap p.active

due_from :
    (now q : ℕ) (heap : List HeapEntry) (active : Dict ℕ (ℕ × ℕ))
    → IsFrom q heap
    → All (λ t. q ≤ t.quiet_at_ms) (pop_loop now heap active).due
unfolding pop_loop
due_from now q [] active f = tt
due_from now q (e ∷ heap) active f = elim (Bool-cases (leb e.quiet_at_ms now)) [
  | inr after ↦ rw (pop_loop_late now e heap active after) tt
  | inl due ↦ elim (Bool-cases (is_current e active)) [
    | inr stale ↦ rw (pop_loop_stale now e heap active due stale) (due_from now q heap active f.1)
    | inl current ↦
        rw (pop_loop_current now e heap active due current, trigger_of)
          (f.0, due_from now q heap (remove e.incident_id active) f.1)
  ]
]

pop_loop-Keeps :
    (now : ℕ) (heap : List HeapEntry) (active : Dict ℕ (ℕ × ℕ))
    → IsSorted heap
    → Covers heap active
    → Keeps (pop_loop now heap active)
unfolding pop_loop
pop_loop-Keeps now [] active s c = record { ordered = tt; sorted = tt; covers = c }
pop_loop-Keeps now (e ∷ heap) active s c = elim (Bool-cases (leb e.quiet_at_ms now)) [
  | inr after ↦
      rw (pop_loop_late now e heap active after) (record { ordered = tt; sorted = s; covers = c })
  | inl due ↦ elim (Bool-cases (is_current e active)) [
    | inr stale ↦
        rw (pop_loop_stale now e heap active due stale)
          (pop_loop-Keeps now heap active s.1 (Covers-stale e heap active c stale))
    | inl current ↦
        let less = remove e.incident_id active in
        let k = pop_loop-Keeps now heap less s.1 (Covers-current e heap active c) in
        rw (pop_loop_current now e heap active due current, trigger_of)
          (record {
            ordered = (due_from now e.quiet_at_ms heap less s.0, k.ordered);
            sorted = k.sorted;
            covers = k.covers;
          })
  ]
]

-- `pop_due` keeps the invariant, and its commands come in the order of their deadlines.
pub pop_due-IsOrdered :
    (w : TimerWheel) (now : ℕ) → IsValid w → IsOrdered (pop_due w now).1 × IsValid (pop_due w now).0
unfolding pop_due
pop_due-IsOrdered w now v =
    let k = pop_loop-Keeps now w.heap w.active v.sorted v.scheduled in
    (k.ordered, record { sorted = k.sorted; scheduled = k.covers })

-- A least deadline: `none` where no incident has one.
abbrev pub IsLeast : (ℕ → Option ℕ) → Option ℕ → Type 0
IsLeast deadlines none = (i : ℕ) → deadlines i ≡ none
IsLeast deadlines (some q) =
    ((i : ℕ) × (deadlines i ≡ some q)) × ((j p : ℕ) → deadlines j ≡ some p → q ≤ p)

-- A peek at the heap: the deadline that it reports is least, and the heap that it leaves is valid.
record Peeks (active : Dict ℕ (ℕ × ℕ)) (r : Option ℕ × List HeapEntry) : Type 0 where
  least : IsLeast (λ i. deadline_of (get i active)) r.0
  sorted : IsSorted r.1
  covers : Covers r.1 active

covered_from :
    (q : ℕ) (heap : List HeapEntry) (active : Dict ℕ (ℕ × ℕ)) (j p : ℕ)
    → IsFrom q heap
    → Covers heap active
    → deadline_of (get j active) ≡ some p
    → q ≤ p
covered_from q heap active j p f c h = elim (Option-cases (get j active)) [
  | inl absent ↦ absurd (ground arith)
  | inr ((p', g), present) ↦
      let r : q ≤ p' = late q heap j p' g f (c j p' g present) in ground arith
]

no_deadline :
    (active : Dict ℕ (ℕ × ℕ)) (i : ℕ) → Covers [] active → deadline_of (get i active) ≡ none
no_deadline active i c = elim (Option-cases (get i active)) [
  | inl absent ↦ rw absent
  | inr ((q, g), present) ↦ absurd (ground (arith, c i q g present))
]

current_deadline :
    (e : HeapEntry) (active : Dict ℕ (ℕ × ℕ))
    → is_current e active ≡ true
    → deadline_of (get e.incident_id active) ≡ some e.quiet_at_ms
unfolding is_current
current_deadline e active h = ground arith

peek_loop-Peeks :
    (heap : List HeapEntry) (active : Dict ℕ (ℕ × ℕ))
    → IsSorted heap
    → Covers heap active
    → Peeks active (peek_loop heap active)
unfolding peek_loop
peek_loop-Peeks [] active s c = record {
  least = λ i. no_deadline active i c;
  sorted = tt;
  covers = c;
}
peek_loop-Peeks (e ∷ heap) active s c = elim (Bool-cases (is_current e active)) [
  | inl current ↦
      rw (current, peek_loop)
        (record {
          least = (
            (e.incident_id, current_deadline e active current),
            λ j p h.
                covered_from e.quiet_at_ms (e ∷ heap) active j p (le_refl e.quiet_at_ms, s.0) c h,
          );
          sorted = s;
          covers = c;
        })
  | inr stale ↦
      rw (stale, peek_loop) (peek_loop-Peeks heap active s.1 (Covers-stale e heap active c stale))
]

-- `next_deadline_ms` reports the least of all deadlines, and `None` exactly if there is none; it
-- changes no deadline and keeps the invariant, whatever stale entries it drops.
pub next_deadline_ms-IsLeast :
    (w : TimerWheel)
    → IsValid w
    → IsLeast (deadline w) (next_deadline_ms w).1
      × ((i : ℕ) → deadline (next_deadline_ms w).0 i ≡ deadline w i)
      × IsValid (next_deadline_ms w).0
unfolding next_deadline_ms deadline
next_deadline_ms-IsLeast w v =
    let p = peek_loop-Peeks w.heap w.active v.sorted v.scheduled in
    (p.least, λ i. refl, record { sorted = p.sorted; scheduled = p.covers })
