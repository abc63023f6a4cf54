-- ===== src/Stream/SseBroker/Ids.antt =====
-- The ids of the events of stream/sse_broker.py: in what order they stand, and which of them a cursor
-- leaves outstanding.
use vh26_pixel_perfect.Prelude.{
  ℕ, ◌+◌, ◌*◌, ◌/◌, ◌%◌, ◌<◌, ◌≡◌, ◌⊎◌, refl, ◌∙◌, ap, Bool, true, false, List, [], ◌∷◌, ◌++◌, ltb,
  leb, nat_beq, keep_if, if◌then◌else◌, arith, All, Bool-cases, Option-cases, inl, inr,
}
use vh26_pixel_perfect.Stream.SseBroker.{
  Tables, RawEvent, IncidentRow, StreamEvent, candidates, candidates_if_known, events_of,
  incident_for_event, is_after, beyond,
}

-- A cursor at the end of a row stands behind all events of the row.
abbrev pub horizon : ℕ → ℕ
horizon cursor = if nat_beq (cursor % 10) 0 then cursor + 9 else cursor

-- Every event of the rows, in the order of the rows.
unfoldable pub every_event : Tables → List RawEvent → List StreamEvent
every_event tx [] = []
every_event tx (r ∷ rows) = events_of tx r ++ every_event tx rows

-- The events that the reader behind a cursor has not seen.
abbrev pub outstanding : Tables → ℕ → List StreamEvent
outstanding tx cursor = beyond (horizon cursor) (every_event tx tx.raw_events)

-- Strictly ascending rows, and events.
abbrev pub IsOrdered : List RawEvent → Type 0
IsOrdered [] = Unit
IsOrdered (r ∷ rows) = All (λ s. r.seq < s.seq) rows × IsOrdered rows

abbrev pub IsAscending : List StreamEvent → Type 0
IsAscending [] = Unit
IsAscending (e ∷ es) = All (λ d. e.stream_id < d.stream_id) es × IsAscending es

-- No event has the id of the end of a row.
abbrev pub IsInside : StreamEvent → Type 0
IsInside e = nat_beq (e.stream_id % 10) 0 ≡ false

pub keep_if-append {ℓ} :
    {A : Type ℓ} (p : A → Bool) (xs ys : List A)
    → keep_if p (xs ++ ys) ≡ keep_if p xs ++ keep_if p ys
keep_if-append p [] ys = refl
keep_if-append p (x ∷ xs) ys = elim (Bool-cases (p x)) [
  | inl passes ↦ rw passes (ap (λ zs. x ∷ zs) (keep_if-append p xs ys))
  | inr fails ↦ rw fails (keep_if-append p xs ys)
]

keep_if-agree {ℓ} :
    {A : Type ℓ} (p q : A → Bool) (xs : List A)
    → All (λ x. p x ≡ q x) xs
    → keep_if p xs ≡ keep_if q xs
keep_if-agree p q [] a = refl
keep_if-agree p q (x ∷ xs) (h, a) =
    ap (λ b. if b then x ∷ keep_if p xs else keep_if p xs) h
    ∙ ap (λ zs. if q x then x ∷ zs else zs) (keep_if-agree p q xs a)

pub keep_if-none {ℓ} :
    {A : Type ℓ} (p : A → Bool) (xs : List A) → All (λ x. p x ≡ false) xs → keep_if p xs ≡ []
keep_if-none p [] a = refl
keep_if-none p (x ∷ xs) (h, a) = rw h (keep_if-none p xs a)

abbrev after_row : ℕ → ℕ → Bool
after_row cursor n = if nat_beq (cursor % 10) 0 then ltb (cursor / 10) n else leb (cursor / 10) n

same_side :
    (cursor n k : ℕ)
    → 0 < k
    → k < 5
    → after_row cursor n ≡ true
    → ltb cursor (n * 10 + k) ≡ ltb (horizon cursor) (n * 10 + k)
same_side cursor n k a b h = ground arith

behind :
    (cursor n k : ℕ)
    → k < 5
    → after_row cursor n ≡ false
    → ltb (horizon cursor) (n * 10 + k) ≡ false
behind cursor n k b h = ground arith

-- A row has its four events, or none.
pub events_of-cases :
    (tx : Tables) (r : RawEvent)
    → (events_of tx r ≡ []) ⊎ ((i : IncidentRow) × (events_of tx r ≡ candidates tx r i))
unfolding events_of
events_of-cases tx r = elim (Option-cases (incident_for_event r.incident_id tx.incidents)) [
  | inl unknown ↦ inl (ap (candidates_if_known tx r) unknown)
  | inr (i, known) ↦ inr (i, ap (candidates_if_known tx r) known)
]

-- Of a row after the cursor, the cursor and its horizon leave the same events.
pub beyond-after :
    (cursor : ℕ) (tx : Tables) (r : RawEvent)
    → is_after cursor r ≡ true
    → beyond cursor (events_of tx r) ≡ beyond (horizon cursor) (events_of tx r)
unfolding is_after
beyond-after cursor tx r h = elim (events_of-cases tx r) [
  | inl unknown ↦ rw unknown refl
  | inr (i, known) ↦ rw known (
      keep_if-agree (λ e. ltb cursor e.stream_id) (λ e. ltb (horizon cursor) e.stream_id)
        (candidates tx r i)
        (
          same_side cursor r.seq 1 (omega arith) (omega arith) h,
          (
            same_side cursor r.seq 2 (omega arith) (omega arith) h,
            (
              same_side cursor r.seq 3 (omega arith) (omega arith) h,
              (same_side cursor r.seq 4 (omega arith) (omega arith) h, tt),
            ),
          ),
        ))
]

-- Of a row that is not after the cursor, its horizon leaves none.
pub beyond-behind :
    (cursor : ℕ) (tx : Tables) (r : RawEvent)
    → is_after cursor r ≡ false
    → beyond (horizon cursor) (events_of tx r) ≡ []
unfolding is_after
beyond-behind cursor tx r h = elim (events_of-cases tx r) [
  | inl unknown ↦ rw unknown refl
  | inr (i, known) ↦ rw known (
      keep_if-none (λ e. ltb (horizon cursor) e.stream_id) (candidates tx r i)
        (
          behind cursor r.seq 1 (omega arith) h,
          (
            behind cursor r.seq 2 (omega arith) h,
            (behind cursor r.seq 3 (omega arith) h, (behind cursor r.seq 4 (omega arith) h, tt)),
          ),
        ))
]
