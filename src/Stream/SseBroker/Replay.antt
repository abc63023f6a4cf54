-- ===== src/Stream/SseBroker/Replay.antt =====
-- A reader of stream/sse_broker.py misses no event and sees none twice.
use vh26_pixel_perfect.Prelude.{
  ℕ, suc, ◌≤◌, ◌≡◌, refl, ◌∙◌, sym, ap, Bool, List, [], ◌∷◌, ◌++◌, ltb, keep_if, arith, All,
  Bool-cases, inl, inr, take, length, zero,
}
use mathlib.Core.List.{append_assoc, append-nil}
use mathlib.Core.Path.{subst}
use vh26_pixel_perfect.Stream.SseBroker.{
  Tables, RawEvent, StreamEvent, events_of, is_after, beyond, deltas_of, read_delta_events,
  cursor_after,
}
use vh26_pixel_perfect.Stream.SseBroker.Ids.{
  horizon, every_event, outstanding, keep_if-append, beyond-after, beyond-behind, IsOrdered,
  IsAscending, IsInside,
}
use vh26_pixel_perfect.Stream.SseBroker.Order.{
  All-right, every_event-IsInside, every_event-IsAscending, beyond-event, beyond-IsEnd,
  cursor_after-last,
}

drop : ℕ → List RawEvent → List RawEvent
drop zero xs = xs
drop (suc n) [] = []
drop (suc n) (x ∷ xs) = drop n xs

-- The deltas of all rows after the cursor are the outstanding events.
pub deltas-Complete :
    (tx : Tables) (cursor : ℕ) (rows : List RawEvent)
    → deltas_of tx cursor (keep_if (is_after cursor) rows)
      ≡ beyond (horizon cursor) (every_event tx rows)
unfolding deltas_of every_event
deltas-Complete tx cursor [] = refl
deltas-Complete tx cursor (r ∷ rows) =
    let split =
      keep_if-append (λ e. ltb (horizon cursor) e.stream_id) (events_of tx r)
        (every_event tx rows) in
    elim (Bool-cases (is_after cursor r)) [
      | inl after ↦
          rw (after, deltas_of)
            (ap (λ es. es ++ deltas_of tx cursor (keep_if (is_after cursor) rows))
                (beyond-after cursor tx r after)
              ∙ ap (λ es. beyond (horizon cursor) (events_of tx r) ++ es)
                  (deltas-Complete tx cursor rows)
              ∙ sym split)
      | inr not_after ↦ rw not_after (
          deltas-Complete tx cursor rows
          ∙ ap (λ es. es ++ beyond (horizon cursor) (every_event tx rows))
              (sym (beyond-behind cursor tx r not_after))
          ∙ sym split)
    ]

deltas-take :
    (tx : Tables) (cursor n : ℕ) (rows : List RawEvent)
    → deltas_of tx cursor (take n rows) ++ deltas_of tx cursor (drop n rows)
      ≡ deltas_of tx cursor rows
unfolding deltas_of drop
deltas-take tx cursor zero rows = refl
deltas-take tx cursor (suc n) [] = refl
deltas-take tx cursor (suc n) (r ∷ rows) =
    append_assoc (beyond cursor (events_of tx r)) _ _
    ∙ ap (λ es. beyond cursor (events_of tx r) ++ es) (deltas-take tx cursor n rows)

drop-all : (n : ℕ) (rows : List RawEvent) → length rows ≤ n → drop n rows ≡ []
unfolding drop
drop-all zero [] h = refl
drop-all zero (r ∷ rows) h = absurd (omega arith)
drop-all (suc n) [] h = refl
drop-all (suc n) (r ∷ rows) h = drop-all n rows (omega arith)

abbrev held_back : Tables → ℕ → ℕ → List StreamEvent
held_back tx cursor limit =
    deltas_of tx cursor (drop limit (keep_if (is_after cursor) tx.raw_events))

-- A read delivers the first of the outstanding events.
read-IsStart :
    (tx : Tables) (cursor limit : ℕ)
    → read_delta_events tx cursor limit ++ held_back tx cursor limit ≡ outstanding tx cursor
unfolding read_delta_events
read-IsStart tx cursor limit =
    deltas-take tx cursor limit (keep_if (is_after cursor) tx.raw_events)
    ∙ deltas-Complete tx cursor tx.raw_events

resume :
    (tx : Tables) (cursor : ℕ) (got rest : List StreamEvent)
    → IsOrdered tx.raw_events
    → got ++ rest ≡ outstanding tx cursor
    → outstanding tx (cursor_after cursor got) ≡ rest
unfolding cursor_after
resume tx cursor [] rest o h = sym h
resume tx cursor (x ∷ xs) rest o h =
    let es = every_event tx tx.raw_events in
    let ascending = every_event-IsAscending tx tx.raw_events o in
    let (seen, end) = beyond-IsEnd (horizon cursor) es ascending in
    let (ys, e, split, last) = cursor_after-last cursor x xs in
    let all : es ≡ (seen ++ ys) ++ e ∷ rest =
      end
      ∙ ap (λ zs. seen ++ zs) (sym h ∙ ap (λ zs. zs ++ rest) split ∙ append_assoc ys _ rest)
      ∙ sym (append_assoc seen ys (e ∷ rest)) in
    let inside : IsInside e =
      (All-right IsInside (seen ++ ys) (e ∷ rest)
        (subst (All IsInside) all (every_event-IsInside tx tx.raw_events))).0 in
    let at : horizon (cursor_after cursor (x ∷ xs)) ≡ e.stream_id = rw (last, inside) refl in
    ap (λ c. beyond c es) at
    ∙ ap (beyond e.stream_id) all
    ∙ beyond-event (seen ++ ys) e rest (subst IsAscending all ascending)

length-keep_if {ℓ} : {A : Type ℓ} (p : A → Bool) (xs : List A) → length (keep_if p xs) ≤ length xs
length-keep_if p [] = omega arith
length-keep_if p (x ∷ xs) = ground (arith, length-keep_if p xs)

-- Whatever the limit of a read, what it delivers, followed by what the cursor behind the last
-- delivered event leaves outstanding, is what was outstanding before, if the rows ascend: reading
-- again from the last id misses no event and repeats none.
pub read_delta_events-Resumes :
    (tx : Tables) (cursor limit : ℕ)
    → IsOrdered tx.raw_events
    → read_delta_events tx cursor limit
        ++ outstanding tx (cursor_after cursor (read_delta_events tx cursor limit))
      ≡ outstanding tx cursor
read_delta_events-Resumes tx cursor limit o =
    let start = read-IsStart tx cursor limit in
    let got = read_delta_events tx cursor limit in
    ap (λ es. got ++ es) (resume tx cursor got (held_back tx cursor limit) o start) ∙ start

-- A read whose limit is at least the number of rows delivers all that is outstanding.
pub read_delta_events-Complete :
    (tx : Tables) (cursor limit : ℕ)
    → length tx.raw_events ≤ limit
    → read_delta_events tx cursor limit ≡ outstanding tx cursor
unfolding deltas_of
read_delta_events-Complete tx cursor limit h =
    let eligible = keep_if (is_after cursor) tx.raw_events in
    let none_left : drop limit eligible ≡ [] =
      drop-all limit eligible (omega (arith, length-keep_if (is_after cursor) tx.raw_events)) in
    sym (append-nil (read_delta_events tx cursor limit))
    ∙ ap (λ rows. read_delta_events tx cursor limit ++ deltas_of tx cursor rows) (sym none_left)
    ∙ read-IsStart tx cursor limit
