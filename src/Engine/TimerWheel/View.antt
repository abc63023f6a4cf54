-- ===== src/Engine/TimerWheel/View.antt =====
-- The abstract view of engine/timer_wheel.py, each incident's deadline, and the invariant of the heap.
use vh26_pixel_perfect.Prelude.{
  nat_eq, ℕ, ◌≤◌, ◌≡◌, Bool, true, false, ◌&&◌, ◌||◌, Option, none, some, List, [], ◌∷◌, nat_beq,
  arith, All,
}
use vh26_pixel_perfect.Prelude.Dict.{get}
use vh26_pixel_perfect.Engine.TimerWheel.{TimerWheel, HeapEntry, heappush, empty}

abbrev pub deadline_of : Option (ℕ × ℕ) → Option ℕ
deadline_of none = none
deadline_of (some (quiet_at_ms, _)) = some quiet_at_ms

unfoldable pub deadline : TimerWheel → ℕ → Option ℕ
deadline w i = deadline_of (get i w.active)

-- No entry of the heap is due before `q`.
abbrev pub IsFrom : ℕ → List HeapEntry → Type 0
IsFrom q = All (λ e. q ≤ e.quiet_at_ms)

abbrev pub IsSorted : List HeapEntry → Type 0
IsSorted [] = Unit
IsSorted (e ∷ heap) = IsFrom e.quiet_at_ms heap × IsSorted heap

abbrev pub is_entry : ℕ → ℕ → ℕ → HeapEntry → Bool
is_entry i q g e = nat_beq e.incident_id i && (nat_beq e.quiet_at_ms q && nat_beq e.generation g)

abbrev pub in_heap : ℕ → ℕ → ℕ → List HeapEntry → Bool
in_heap i q g [] = false
in_heap i q g (e ∷ heap) = is_entry i q g e || in_heap i q g heap

-- Every active deadline stands in the heap, whose entries are in order.
pub record IsValid (w : TimerWheel) : Type 0 where
  pub sorted : IsSorted w.heap
  pub scheduled : (i q g : ℕ) → get i w.active ≡ some (q, g) → in_heap i q g w.heap ≡ true

pub IsFrom-heappush :
    (q : ℕ) (heap : List HeapEntry) (e : HeapEntry)
    → IsFrom q heap
    → q ≤ e.quiet_at_ms
    → IsFrom q (heappush heap e)
unfolding heappush
IsFrom-heappush q [] e h p = (p, tt)
IsFrom-heappush q (x ∷ heap) e h p = ground (arith, IsFrom-heappush q heap e h.1 p)

pub IsFrom-mono : (p q : ℕ) (heap : List HeapEntry) → p ≤ q → IsFrom q heap → IsFrom p heap
IsFrom-mono p q [] h f = tt
IsFrom-mono p q (x ∷ heap) h f = (omega arith, IsFrom-mono p q heap h f.1)

pub IsSorted-heappush :
    (heap : List HeapEntry) (e : HeapEntry) → IsSorted heap → IsSorted (heappush heap e)
unfolding heappush
IsSorted-heappush [] e s = (tt, tt)
IsSorted-heappush (x ∷ heap) e s = ground (
  arith,
  IsSorted-heappush heap e s.1,
  IsFrom-heappush x.quiet_at_ms heap e s.0,
  IsFrom-mono e.quiet_at_ms x.quiet_at_ms heap,
)

pub in_heap-heappush :
    (i q g : ℕ) (heap : List HeapEntry) (e : HeapEntry)
    → in_heap i q g (heappush heap e) ≡ (is_entry i q g e || in_heap i q g heap)
unfolding heappush
in_heap-heappush i q g [] e = ground arith
in_heap-heappush i q g (x ∷ heap) e = ground (arith, in_heap-heappush i q g heap e)

pub empty-IsValid : IsValid empty
unfolding get
empty-IsValid = record { sorted = tt; scheduled = λ i q g h. ground arith }
