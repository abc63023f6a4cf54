-- ===== src/Stream/SseBroker/Order.antt =====
-- The events of stream/sse_broker.py stand in the order of their ids.
use vh26_pixel_perfect.Prelude.{
  ℕ, ◌+◌, ◌*◌, ◌<◌, ◌≤◌, ◌≡◌, refl, sym, ap, true, false, List, [], ◌∷◌, ◌++◌, ltb, arith, All,
  Bool-cases, inl, inr,
}
use vh26_pixel_perfect.Stream.SseBroker.{
  Tables, RawEvent, IncidentRow, StreamEvent, candidates, events_of, beyond, cursor_after,
}
use vh26_pixel_perfect.Stream.SseBroker.Ids.{
  every_event, IsOrdered, IsAscending, IsInside, events_of-cases,
}

All-append {ℓ κ} :
    {A : Type ℓ} (P : A → Type κ) (xs ys : List A) → All P xs → All P ys → All P (xs ++ ys)
All-append P [] ys a b = b
All-append P (x ∷ xs) ys (h, a) b = (h, All-append P xs ys a b)

pub All-right {ℓ κ} : {A : Type ℓ} (P : A → Type κ) (xs ys : List A) → All P (xs ++ ys) → All P ys
All-right P [] ys a = a
All-right P (x ∷ xs) ys (h, a) = All-right P xs ys a

pub All-map {ℓ κ μ} :
    {A : Type ℓ} (P : A → Type κ) (Q : A → Type μ) (xs : List A)
    → ((x : A) → P x → Q x)
    → All P xs
    → All Q xs
All-map P Q [] f a = tt
All-map P Q (x ∷ xs) f (h, a) = (f x h, All-map P Q xs f a)

-- All events of a row lie in its ten ids, and none at the end.
abbrev IsOf : RawEvent → StreamEvent → Type 0
IsOf r e = (r.seq * 10 < e.stream_id) × (e.stream_id < r.seq * 10 + 5)

events_of-IsOf : (tx : Tables) (r : RawEvent) → All (IsOf r) (events_of tx r)
events_of-IsOf tx r = elim (events_of-cases tx r) [
  | inl unknown ↦ rw unknown tt
  | inr (i, known) ↦ rw known (
    (omega arith, omega arith),
    ((omega arith, omega arith), ((omega arith, omega arith), ((omega arith, omega arith), tt))),
  )
]

every_event-from :
    (tx : Tables) (n : ℕ) (rows : List RawEvent)
    → All (λ s. n < s.seq) rows
    → All (λ e. n * 10 + 5 < e.stream_id) (every_event tx rows)
unfolding every_event
every_event-from tx n [] a = tt
every_event-from tx n (r ∷ rows) (h, a) =
    All-append (λ (e : StreamEvent). n * 10 + 5 < e.stream_id) (events_of tx r)
      (every_event tx rows)
      (All-map (IsOf r) (λ e. n * 10 + 5 < e.stream_id) (events_of tx r) (λ e k. omega arith)
        (events_of-IsOf tx r))
      (every_event-from tx n rows a)

pub every_event-IsInside : (tx : Tables) (rows : List RawEvent) → All IsInside (every_event tx rows)
unfolding every_event
every_event-IsInside tx [] = tt
every_event-IsInside tx (r ∷ rows) =
    All-append IsInside (events_of tx r) (every_event tx rows)
      (All-map (IsOf r) IsInside (events_of tx r) (λ e k. ground arith) (events_of-IsOf tx r))
      (every_event-IsInside tx rows)

IsAscending-append :
    (m : ℕ) (xs ys : List StreamEvent)
    → IsAscending xs
    → IsAscending ys
    → All (λ e. e.stream_id < m) xs
    → All (λ e. m ≤ e.stream_id) ys
    → IsAscending (xs ++ ys)
IsAscending-append m [] ys a b l u = b
IsAscending-append m (x ∷ xs) ys (h, a) b (k, l) u = (
  All-append (λ (d : StreamEvent). x.stream_id < d.stream_id) xs ys h
      (All-map (λ (e : StreamEvent). m ≤ e.stream_id) (λ d. x.stream_id < d.stream_id) ys
        (λ e i. omega arith) u),
  IsAscending-append m xs ys a b l u,
)

candidates-IsAscending :
    (tx : Tables) (r : RawEvent) (i : IncidentRow) → IsAscending (candidates tx r i)
candidates-IsAscending tx r i = (
  (omega arith, (omega arith, (omega arith, tt))),
  ((omega arith, (omega arith, tt)), ((omega arith, tt), (tt, tt))),
)

events_of-IsAscending : (tx : Tables) (r : RawEvent) → IsAscending (events_of tx r)
events_of-IsAscending tx r = elim (events_of-cases tx r) [
  | inl unknown ↦ rw unknown tt
  | inr (i, known) ↦ rw known (candidates-IsAscending tx r i)
]

pub every_event-IsAscending :
    (tx : Tables) (rows : List RawEvent) → IsOrdered rows → IsAscending (every_event tx rows)
unfolding every_event
every_event-IsAscending tx [] o = tt
every_event-IsAscending tx (r ∷ rows) (h, o) =
    IsAscending-append (r.seq * 10 + 5) (events_of tx r) (every_event tx rows)
      (events_of-IsAscending tx r) (every_event-IsAscending tx rows o)
      (All-map (IsOf r) (λ e. e.stream_id < r.seq * 10 + 5) (events_of tx r) (λ e k. k.1)
        (events_of-IsOf tx r))
      (All-map (λ e. r.seq * 10 + 5 < e.stream_id) (λ e. r.seq * 10 + 5 ≤ e.stream_id)
        (every_event tx rows) (λ e k. omega arith) (every_event-from tx r.seq rows h))

beyond-All : (c : ℕ) (es : List StreamEvent) → All (λ e. c < e.stream_id) es → beyond c es ≡ es
beyond-All c [] a = refl
beyond-All c (e ∷ es) (h, a) =
    let passes : ltb c e.stream_id ≡ true = ground arith in
    rw passes (ap (λ es'. e ∷ es') (beyond-All c es a))

-- Behind an event of an ascending list stands what follows it.
pub beyond-event :
    (ys : List StreamEvent) (e : StreamEvent) (rest : List StreamEvent)
    → IsAscending (ys ++ e ∷ rest)
    → beyond e.stream_id (ys ++ e ∷ rest) ≡ rest
beyond-event [] e rest (h, a) =
    let fails : ltb e.stream_id e.stream_id ≡ false = ground arith in
    rw fails (beyond-All e.stream_id rest h)
beyond-event (y ∷ ys) e rest (h, a) =
    let k = All-right (λ (d : StreamEvent). y.stream_id < d.stream_id) ys (e ∷ rest) h in
    let less : y.stream_id < e.stream_id = k.0 in
    let fails : ltb e.stream_id y.stream_id ≡ false = ground arith in
    rw fails (beyond-event ys e rest a)

-- What a cursor leaves of an ascending list is an end of it.
pub beyond-IsEnd :
    (c : ℕ) (es : List StreamEvent)
    → IsAscending es
    → (seen : List StreamEvent) × (es ≡ seen ++ beyond c es)
beyond-IsEnd c [] a = ([], refl)
beyond-IsEnd c (e ∷ es) (h, a) = elim (Bool-cases (ltb c e.stream_id)) [
  | inl new ↦
      let all_new = beyond-All c (e ∷ es) (
        (ground arith),
        All-map (λ (d : StreamEvent). e.stream_id < d.stream_id) (λ d. c < d.stream_id) es
            (λ d k. ground arith) h,
      ) in
      ([], sym all_new)
  | inr old ↦
      let (seen, split) = beyond-IsEnd c es a in (e ∷ seen, rw old (ap (λ es'. e ∷ es') split))
]

-- The cursor behind events is the id of the last of them.
pub cursor_after-last :
    (c : ℕ) (x : StreamEvent) (xs : List StreamEvent)
    → (ys : List StreamEvent) × (e : StreamEvent) × (x ∷ xs ≡ ys ++ e ∷ [])
      × (cursor_after c (x ∷ xs) ≡ e.stream_id)
unfolding cursor_after
cursor_after-last c x [] = ([], x, refl, refl)
cursor_after-last c x (y ∷ xs) =
    let (ys, e, split, last) = cursor_after-last x.stream_id y xs in
    (x ∷ ys, e, ap (λ es. x ∷ es) split, last)
