-- ===== src/Stream/SseBroker/Progress.antt =====
-- A reader of stream/sse_broker.py is never stuck.
use vh26_pixel_perfect.Prelude.{
  ℕ, zero, suc, ◌+◌, ◌*◌, ◌<◌, ◌≡◌, ◌≢◌, refl, ◌∙◌, sym, Bool, true, List, [], ◌∷◌, ◌++◌, ltb,
  keep_if, arith, All, Bool-cases, inl, inr, take,
}
use vh26_pixel_perfect.Stream.SseBroker.{
  Tables, RawEvent, IncidentRow, candidates, events_of, beyond, deltas_of, is_after,
  read_delta_events,
}
use vh26_pixel_perfect.Stream.SseBroker.Ids.{outstanding, IsOrdered}
use vh26_pixel_perfect.Stream.SseBroker.Replay.{deltas-Complete}

-- The incident of a row is stored.
abbrev pub IsKnown : Tables → RawEvent → Type 0
IsKnown tx r = (i : IncidentRow) × (events_of tx r ≡ candidates tx r i)

All-keep_if {ℓ κ} :
    {A : Type ℓ} (P : A → Type κ) (p : A → Bool) (xs : List A) → All P xs → All P (keep_if p xs)
All-keep_if P p [] a = tt
All-keep_if P p (x ∷ xs) (h, a) = elim (Bool-cases (p x)) [
  | inl passes ↦ rw passes (h, All-keep_if P p xs a)
  | inr fails ↦ rw fails (All-keep_if P p xs a)
]

All-kept {ℓ} : {A : Type ℓ} (p : A → Bool) (xs : List A) → All (λ x. p x ≡ true) (keep_if p xs)
All-kept p [] = tt
All-kept p (x ∷ xs) = elim (Bool-cases (p x)) [
  | inl passes ↦ rw passes (passes, All-kept p xs)
  | inr fails ↦ rw fails (All-kept p xs)
]

IsOrdered-keep_if :
    (p : RawEvent → Bool) (rows : List RawEvent) → IsOrdered rows → IsOrdered (keep_if p rows)
IsOrdered-keep_if p [] o = tt
IsOrdered-keep_if p (r ∷ rows) (h, o) = elim (Bool-cases (p r)) [
  | inl passes ↦
      rw passes (All-keep_if (λ (s : RawEvent). r.seq < s.seq) p rows h, IsOrdered-keep_if p rows o)
  | inr fails ↦ rw fails (IsOrdered-keep_if p rows o)
]

-- The row behind a row that is after the cursor is all new.
all_new :
    (cursor : ℕ) (r s : RawEvent)
    → is_after cursor r ≡ true
    → r.seq < s.seq
    → ltb cursor (s.seq * 10 + 1) ≡ true
unfolding is_after
all_new cursor r s h l = ground arith

not_empty-left {ℓ} : {A : Type ℓ} (xs ys : List A) → xs ≢ [] → xs ++ ys ≢ []
not_empty-left [] ys h = absurd (h refl)
not_empty-left (x ∷ xs) ys h = λ e. cc

not_empty-right {ℓ} : {A : Type ℓ} (xs ys : List A) → ys ≢ [] → xs ++ ys ≢ []
not_empty-right [] ys h = h
not_empty-right (x ∷ xs) ys h = λ e. cc

candidates-new :
    (c : ℕ) (tx : Tables) (r : RawEvent) (i : IncidentRow)
    → ltb c (r.seq * 10 + 1) ≡ true
    → beyond c (candidates tx r i) ≢ []
candidates-new c tx r i h = rw h (λ k. cc)

taken_not_empty :
    (tx : Tables) (cursor n : ℕ) (rows : List RawEvent)
    → IsOrdered rows
    → All (IsKnown tx) rows
    → All (λ r. is_after cursor r ≡ true) rows
    → deltas_of tx cursor rows ≢ []
    → deltas_of tx cursor (take (suc (suc n)) rows) ≢ []
unfolding deltas_of
taken_not_empty tx cursor n [] o k a some_left = some_left
taken_not_empty tx cursor zero (r ∷ []) o k a some_left = some_left
taken_not_empty tx cursor (suc n) (r ∷ []) o k a some_left = some_left
taken_not_empty tx cursor n (r ∷ s ∷ rows) ((less, _), o) (_, ((i, known), k)) (after, a)
      some_left =
    let new : beyond cursor (events_of tx s) ≢ [] =
      rw known (candidates-new cursor tx s i (all_new cursor r s after less)) in
    not_empty-right (beyond cursor (events_of tx r)) _
      (not_empty-left (beyond cursor (events_of tx s)) _ new)

-- While an event is outstanding, a read with room for two rows delivers one, if the rows ascend and
-- the incident of every row is stored.
pub read_delta_events-Progress :
    (tx : Tables) (cursor limit : ℕ)
    → IsOrdered tx.raw_events
    → All (IsKnown tx) tx.raw_events
    → 1 < limit
    → outstanding tx cursor ≢ []
    → read_delta_events tx cursor limit ≢ []
unfolding read_delta_events
read_delta_events-Progress tx cursor zero o k l some_left = absurd (omega arith)
read_delta_events-Progress tx cursor (suc zero) o k l some_left = absurd (omega arith)
read_delta_events-Progress tx cursor (suc (suc n)) o k l some_left =
    let rows = keep_if (is_after cursor) tx.raw_events in
    taken_not_empty tx cursor n rows (IsOrdered-keep_if (is_after cursor) tx.raw_events o)
      (All-keep_if (IsKnown tx) (is_after cursor) tx.raw_events k)
      (All-kept (is_after cursor) tx.raw_events)
      (λ none_left. some_left (sym (deltas-Complete tx cursor tx.raw_events) ∙ none_left))
