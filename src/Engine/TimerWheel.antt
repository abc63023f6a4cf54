-- ===== src/Engine/TimerWheel.antt =====
-- engine/timer_wheel.py: the adaptive quiet deadlines of incidents, in a heap with lazy deletion.
-- A UUID is its 128-bit number. The heap of `heapq` is the list of its entries in the order of their
-- tuples, so `heap[0]` is the head and `heappop` drops it; an entry's sequence number is fresh, and
-- a comparison never gets as far as the UUID.
pub mod View
pub mod Schedule
pub mod Due
pub mod Order
mod Tests
use vh26_pixel_perfect.Prelude.{
  nat_eq, ℕ, ◌+◌, ◌≡◌, Bool, true, false, ◌&&◌, ◌||◌, Option, none, some, List, [], ◌∷◌, ltb, leb,
  nat_beq, if◌then◌else◌, length,
}
use vh26_pixel_perfect.Prelude.Int.{ℤ, pos, negsuc}
use vh26_pixel_perfect.Prelude.Dict.{Dict, get, remove, put}

pub record TimerTrigger : Type 0 where
  pub incident_id : ℕ
  pub quiet_at_ms : ℕ

-- (quiet_at_ms, sequence, incident_id, generation)
pub record HeapEntry : Type 0 where
  pub quiet_at_ms : ℕ
  pub sequence : ℕ
  pub incident_id : ℕ
  pub generation : ℕ

-- `active` maps an incident to its deadline and generation.
pub record TimerWheel : Type 0 where
  pub heap : List HeapEntry
  pub active : Dict ℕ (ℕ × ℕ)
  pub sequence : ℕ

abbrev pub empty : TimerWheel
empty = record { heap = []; active = []; sequence = 0 }

pub entry_lt : HeapEntry → HeapEntry → Bool
entry_lt a b =
    ltb a.quiet_at_ms b.quiet_at_ms
    || nat_beq a.quiet_at_ms b.quiet_at_ms && ltb a.sequence b.sequence

pub heappush : List HeapEntry → HeapEntry → List HeapEntry
unfolding entry_lt
heappush [] e = e ∷ []
heappush (x ∷ heap) e = if entry_lt e x then e ∷ x ∷ heap else x ∷ heappush heap e

pub next_generation : Option (ℕ × ℕ) → ℕ
next_generation none = 1
next_generation (some (_, generation)) = generation + 1

-- The body of `schedule` under the lock.
pub insert_deadline : TimerWheel → ℕ → ℕ → TimerWheel
unfolding next_generation
insert_deadline w incident_id quiet_at_ms =
    let generation = next_generation (get incident_id w.active) in
    record {
      heap = heappush w.heap (record {
        quiet_at_ms = quiet_at_ms;
        sequence = w.sequence;
        incident_id = incident_id;
        generation = generation;
      });
      active = put incident_id (quiet_at_ms, generation) w.active;
      sequence = w.sequence + 1;
    }

-- `none` is the `ValueError` of a negative deadline.
unfoldable pub schedule : TimerWheel → ℕ → ℤ → Option TimerWheel
schedule w incident_id (negsuc _) = none
schedule w incident_id (pos quiet_at_ms) = some (insert_deadline w incident_id quiet_at_ms)

pub cancel : TimerWheel → ℕ → TimerWheel × Bool
cancel w incident_id = (
  record w { active = remove incident_id w.active },
  elim (get incident_id w.active) [ none ↦ false | some _ ↦ true ],
)

-- `self._active.get(incident_id) == (quiet_at_ms, generation)`
pub is_current : HeapEntry → Dict ℕ (ℕ × ℕ) → Bool
is_current e active = elim (get e.incident_id active) [
  | none ↦ false
  | some (quiet_at_ms, generation) ↦
      nat_beq quiet_at_ms e.quiet_at_ms && nat_beq generation e.generation
]

pub trigger_of : HeapEntry → TimerTrigger
trigger_of e = record { incident_id = e.incident_id; quiet_at_ms = e.quiet_at_ms }

-- What the loop of `pop_due` leaves: the commands, the heap and the active deadlines.
pub record Popped : Type 0 where
  pub due : List TimerTrigger
  pub heap : List HeapEntry
  pub active : Dict ℕ (ℕ × ℕ)

pub pop_loop : ℕ → List HeapEntry → Dict ℕ (ℕ × ℕ) → Popped
unfolding is_current trigger_of
pop_loop now_ms [] active = record { due = []; heap = []; active = active }
pop_loop now_ms (e ∷ heap) active = elim (leb e.quiet_at_ms now_ms) [
  | false ↦ record { due = []; heap = e ∷ heap; active = active }
  | true ↦ elim (is_current e active) [
    | false ↦ pop_loop now_ms heap active
    | true ↦
        let rest = pop_loop now_ms heap (remove e.incident_id active) in
        record rest { due = trigger_of e ∷ rest.due }
  ]
]

pub pop_due : TimerWheel → ℕ → TimerWheel × List TimerTrigger
unfolding pop_loop
pop_due w now_ms =
    let popped = pop_loop now_ms w.heap w.active in
    (record w { heap = popped.heap; active = popped.active }, popped.due)

-- The loop of `next_deadline_ms`: the deadline, and the heap without its stale head entries.
pub peek_loop : List HeapEntry → Dict ℕ (ℕ × ℕ) → Option ℕ × List HeapEntry
unfolding is_current
peek_loop [] active = (none, [])
peek_loop (e ∷ heap) active = elim (is_current e active) [
  | true ↦ (some e.quiet_at_ms, e ∷ heap)
  | false ↦ peek_loop heap active
]

pub next_deadline_ms : TimerWheel → TimerWheel × Option ℕ
unfolding peek_loop
next_deadline_ms w =
    let (deadline, heap) = peek_loop w.heap w.active in (record w { heap = heap }, deadline)

-- `__len__`
pub size : TimerWheel → ℕ
size w = length w.active
