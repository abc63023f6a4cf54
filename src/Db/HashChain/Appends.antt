-- ===== src/Db/HashChain/Appends.antt =====
-- Which appends keep the chain of db/hashchain.py verified.
use mathlib.Core.Bool.{false≢true}
use vh26_pixel_perfect.Prelude.Int.{pos}
use vh26_pixel_perfect.Prelude.{
  All, length, ℕ, ◌+◌, ◌*◌, ◌/◌, ◌%◌, ◌≡◌, ◌↔◌, refl, ◌∙◌, ap, Bool, true, false, String, string_eq,
  ◌==◌, eq_iff, some, List, [], ◌∷◌, ◌++◌, if◌then◌else◌, arith,
}
use vh26_pixel_perfect.Db.HashChain.{
  FiredTime, iso_ms, stored_time, LedgerEvent, ChainRow, genesis_hash, Report, valid, broken_link,
  wrong_hash, seq_and_hash_from, next_seq_and_prev_hash, compute_row_hash, append_event,
  canonical_payload, verify_from, verify_chain,
}

two_tests :
    (a b : Bool) (P Q : Type 0) (rest : Report) (s t n : ℕ)
    → ((a ≡ true) ↔ P)
    → ((b ≡ true) ↔ Q)
    → ((if a then if b then rest else wrong_hash s else broken_link t) ≡ valid n)
      ↔ ((P × Q) × (rest ≡ valid n))
two_tests true true P Q rest s t n p q = (λ h. ((p.0 refl, q.0 refl), h), λ h. h.1)
two_tests true false P Q rest s t n p q = (λ h. cc, λ h. absurd (false≢true (q.1 h.0.1)))
two_tests false b P Q rest s t n p q = (λ h. cc, λ h. absurd (false≢true (p.1 h.0.0)))

abbrev pub valid_of : Report → ℕ
valid_of (valid n) = n
valid_of _ = 0

-- The hash behind the last row.
abbrev pub last_hash : String → List ChainRow → String
last_hash x [] = x
last_hash x (r ∷ rows) = last_hash r.row_hash rows

pub last_hash-lem :
    (seq : ℕ) (x : String) (rows : List ChainRow)
    → (seq_and_hash_from (seq, x) rows).1 ≡ last_hash x rows
unfolding seq_and_hash_from
last_hash-lem seq x [] = refl
last_hash-lem seq x (r ∷ rows) = last_hash-lem (r.seq + 1) r.row_hash rows

as_stored :
    (t : FiredTime)
    → t.instant / 1000 * 1000 ≡ t.instant
    → t.offset ≡ some (pos 0)
    → stored_time (iso_ms t) ≡ t
as_stored t cut utc = rw (cut, ← utc) refl

module _ (sha256 : String → String) (canonical_json : FiredTime → String → String) where
  -- A row continues the chain from a hash.
  abbrev pub IsLinked : String → ChainRow → Type 0
  IsLinked expected r =
      (r.prev_hash ≡ expected)
      × (compute_row_hash sha256 r.prev_hash (canonical_payload canonical_json r) ≡ r.row_hash)

  -- A run that ends well has passed the test of its first row.
  pub verify_from-cons :
      (x : String) (k n : ℕ) (r : ChainRow) (rows : List ChainRow)
      → (verify_from sha256 canonical_json x k (r ∷ rows) ≡ valid n)
        ↔ (IsLinked x r × (verify_from sha256 canonical_json r.row_hash (k + 1) rows ≡ valid n))
  unfolding verify_from
  verify_from-cons x k n r rows =
      two_tests (r.prev_hash == x)
        (compute_row_hash sha256 r.prev_hash (canonical_payload canonical_json r) == r.row_hash) _ _
        (verify_from sha256 canonical_json r.row_hash (k + 1) rows) r.seq r.seq n
        (eq_iff r.prev_hash x)
        (eq_iff (compute_row_hash sha256 r.prev_hash (canonical_payload canonical_json r))
          r.row_hash)

  -- Behind a chain that verifies, one more row verifies exactly if it continues the chain.
  verify_from-snoc :
      (x : String) (k n : ℕ) (rows : List ChainRow) (r : ChainRow)
      → verify_from sha256 canonical_json x k rows ≡ valid n
      → (verify_from sha256 canonical_json x k (rows ++ r ∷ []) ≡ valid (n + 1))
        ↔ IsLinked (last_hash x rows) r
  unfolding verify_from
  verify_from-snoc x k n [] r h =
      let (to, from) = verify_from-cons x k (n + 1) r [] in
      let e : k ≡ n = ap valid_of h in
      (λ v. (to v).0, λ linked. from (linked, ap (λ m. valid (m + 1)) e))
  verify_from-snoc x k n (s ∷ rows) r h =
      let (linked, tail) = (verify_from-cons x k n s rows).0 h in
      let (to, from) = verify_from-cons x k (n + 1) s (rows ++ r ∷ []) in
      let (to', from') = verify_from-snoc s.row_hash (k + 1) n rows r tail in
      (λ v. to' (to v).1, λ l. from (linked, from' l))

  -- Behind a table that verifies, the row that is appended for an event verifies exactly if its hash
  -- is also that of the event with its `fired_at` in UTC and cut to the millisecond, as the table keeps
  -- it; whatever the offset of the event, and also if its time has none.
  pub verify_chain-append_event :
      (e : LedgerEvent) (rows : List ChainRow) (n : ℕ)
      → verify_chain sha256 canonical_json rows ≡ valid n
      → (verify_chain sha256 canonical_json (append_event sha256 canonical_json e rows)
          ≡ valid (n + 1))
        ↔ (compute_row_hash sha256 (next_seq_and_prev_hash rows).1 (
              canonical_json
                (record { instant = e.fired_at.instant / 1000 * 1000; offset = some (pos 0) })
                e.body)
            ≡ compute_row_hash sha256
                (next_seq_and_prev_hash rows).1
                (canonical_json e.fired_at e.body))
  unfolding verify_chain append_event next_seq_and_prev_hash canonical_payload
  verify_chain-append_event e rows n h =
      let (to, from) = verify_from-snoc genesis_hash 0 n rows _ h in
      (λ v. (to v).1, λ same. from (last_hash-lem 1 genesis_hash rows, same))

  -- The rows that appending events, in their order, leaves behind a table.
  abbrev pub append_all : List LedgerEvent → List ChainRow → List ChainRow
  append_all [] rows = rows
  append_all (e ∷ events) rows = append_all events (append_event sha256 canonical_json e rows)

  -- However many events are appended to a table that verifies, the table verifies, with a row for
  -- each of them, if every `fired_at` is a whole number of milliseconds, in UTC.
  pub verify_chain-append_all :
      (events : List LedgerEvent) (rows : List ChainRow) (n : ℕ)
      → All (λ e. (e.fired_at.instant % 1000 ≡ 0) × (e.fired_at.offset ≡ some (pos 0))) events
      → verify_chain sha256 canonical_json rows ≡ valid n
      → verify_chain sha256 canonical_json (append_all events rows) ≡ valid (n + length events)
  verify_chain-append_all [] rows n whole h =
      let none_more : n ≡ n + 0 = omega arith in h ∙ ap valid none_more
  verify_chain-append_all (e ∷ events) rows n ((w, utc), whole) h =
      let cut : e.fired_at.instant / 1000 * 1000 ≡ e.fired_at.instant = omega arith in
      let same : stored_time (iso_ms e.fired_at) ≡ e.fired_at = as_stored e.fired_at cut utc in
      let next = (verify_chain-append_event e rows n h).1 (
        ap (λ t. compute_row_hash sha256 (next_seq_and_prev_hash rows).1 (canonical_json t e.body))
          same) in
      let more =
        verify_chain-append_all events (append_event sha256 canonical_json e rows) (n + 1) whole
          next in
      let count : n + 1 + length events ≡ n + length (e ∷ events) = omega arith in
      more ∙ ap valid count
