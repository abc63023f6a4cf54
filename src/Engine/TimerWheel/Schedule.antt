-- ===== src/Engine/TimerWheel/Schedule.antt =====
-- `schedule` and `cancel` of engine/timer_wheel.py.
use vh26_pixel_perfect.Prelude.{
  nat_eq, ℕ, ◌≡◌, ◌≢◌, ◌↔◌, true, refl, Option, none, some, arith, nat_beq, if◌then◌else◌,
}
use vh26_pixel_perfect.Prelude.Int.{ℤ, pos, negsuc}
use vh26_pixel_perfect.Prelude.Dict.{get, get-put, get-remove}
use vh26_pixel_perfect.Engine.TimerWheel.{
  TimerWheel, HeapEntry, insert_deadline, schedule, cancel, next_generation,
}
use vh26_pixel_perfect.Engine.TimerWheel.View.{
  deadline, IsValid, IsSorted-heappush, in_heap-heappush,
}

-- What `schedule` promises: it fails exactly for a negative deadline, and a deadline from 0 on
-- replaces the one that the incident had.
abbrev pub Schedules : TimerWheel → ℕ → ℤ → Option TimerWheel → Type 0
Schedules w i q none = (n : ℕ) × (q ≡ negsuc n)
Schedules w i q (some w') =
    (n : ℕ) × (q ≡ pos n)
    × ((j : ℕ) → deadline w' j ≡ (if nat_beq i j then some n else deadline w j))

pub deadline-insert_deadline :
    (w : TimerWheel) (i q j : ℕ)
    → deadline (insert_deadline w i q) j ≡ (if nat_beq i j then some q else deadline w j)
unfolding insert_deadline deadline
deadline-insert_deadline w i q j =
    ground (arith, get-put i j (q, next_generation (get i w.active)) w.active)

-- `schedule` fails exactly for a negative deadline. A deadline from 0 on replaces the one that the
-- incident had and leaves those of all other incidents.
pub deadline-schedule : (w : TimerWheel) (i : ℕ) (q : ℤ) → Schedules w i q (schedule w i q)
unfolding schedule
deadline-schedule w i (pos n) = (n, refl, deadline-insert_deadline w i n)
deadline-schedule w i (negsuc n) = (n, refl)

pub insert_deadline-IsValid :
    (w : TimerWheel) (i q : ℕ) → IsValid w → IsValid (insert_deadline w i q)
unfolding insert_deadline
insert_deadline-IsValid w i q v =
    let gen = next_generation (get i w.active) in
    let e : HeapEntry = record {
      quiet_at_ms = q;
      sequence = w.sequence;
      incident_id = i;
      generation = gen;
    } in
    record {
      sorted = IsSorted-heappush w.heap e v.sorted;
      scheduled = λ j p g h. ground (
        arith,
        get-put i j (q, gen) w.active,
        in_heap-heappush j p g w.heap e,
        v.scheduled j p g,
      );
    }

pub cancel-IsValid : (w : TimerWheel) (i : ℕ) → IsValid w → IsValid (cancel w i).0
unfolding cancel
cancel-IsValid w i v = record {
  sorted = v.sorted;
  scheduled = λ j q g h. ground (arith, get-remove i j w.active, v.scheduled j q g);
}

-- `cancel` forgets the deadline of its incident alone, and reports whether there was one.
pub deadline-cancel :
    (w : TimerWheel) (i : ℕ)
    → ((cancel w i).1 ≡ true ↔ deadline w i ≢ none)
      × ((j : ℕ) → deadline (cancel w i).0 j ≡ (if nat_beq i j then none else deadline w j))
unfolding cancel deadline
deadline-cancel w i = (ground arith, λ j. ground (arith, get-remove i j w.active))
