-- ===== src/Outbox/Recovery/Counts.antt =====
-- How the rounds of outbox/recovery.py change the number of intents and their newest id.
use vh26_pixel_perfect.Prelude.{
  ℕ, ◌<◌, ◌≡◌, min, refl, Bool, ◌&&◌, not, string_eq, List, [], ◌∷◌, map, ltb, leb, count_if, arith,
  Bool-cases, inl, inr, All,
}
use vh26_pixel_perfect.Outbox.Tables.{OutboxRow}
use vh26_pixel_perfect.Outbox.Recovery.{max_id}

-- The rows of a table in the order of their ids, each id once.
abbrev pub IsAscending : List OutboxRow → Type 0
IsAscending [] = Unit
IsAscending (r ∷ rows) = All (λ s. r.outbox_id < s.outbox_id) rows × IsAscending rows

-- Two tests that agree on every row count alike and have the same newest id.
module _ (p q : OutboxRow → Bool) where
  pub count_if_congr :
      (rows : List OutboxRow) → ((r : OutboxRow) → p r ≡ q r) → count_if p rows ≡ count_if q rows
  count_if_congr [] e = refl
  count_if_congr (r ∷ rows) e = ground (arith, e r, count_if_congr rows e)

  pub max_id_congr :
      (rows : List OutboxRow) → ((r : OutboxRow) → p r ≡ q r) → max_id p rows ≡ max_id q rows
  unfolding max_id
  max_id_congr [] e = refl
  max_id_congr (r ∷ rows) e = ground (arith, e r, max_id_congr rows e)

-- A change of rows that keeps ids.
module _ (p : OutboxRow → Bool) (f : OutboxRow → OutboxRow) where
  pub count_if-map :
      (rows : List OutboxRow) → count_if p (map f rows) ≡ count_if (λ r. p (f r)) rows
  count_if-map [] = refl
  count_if-map (r ∷ rows) = ground (arith, count_if-map rows)

  pub max_id-map :
      ((r : OutboxRow) → (f r).outbox_id ≡ r.outbox_id)
      → (rows : List OutboxRow) → max_id p (map f rows) ≡ max_id (λ r. p (f r)) rows
  unfolding max_id
  max_id-map same [] = refl
  max_id-map same (r ∷ rows) = ground (arith, same r, max_id-map same rows)

pub IsAscending-map :
    (f : OutboxRow → OutboxRow)
    → ((r : OutboxRow) → (f r).outbox_id ≡ r.outbox_id)
    → (rows : List OutboxRow) → IsAscending rows
    → IsAscending (map f rows)
IsAscending-map f same [] a = tt
IsAscending-map f same (r ∷ rows) a = (later rows a.0, IsAscending-map f same rows a.1)
  where
    later :
        (rest : List OutboxRow)
        → All (λ s. r.outbox_id < s.outbox_id) rest
        → All (λ s. (f r).outbox_id < s.outbox_id) (map f rest)
    later [] h = tt
    later (s ∷ rest) h = (omega (arith, same r, same s, h.0), later rest h.1)

-- What is left of the rows that pass a test, once those before `w` are dropped.
abbrev pub kept : (OutboxRow → Bool) → ℕ → OutboxRow → Bool
kept p w r = p r && not (ltb r.outbox_id w)

module _ (p : OutboxRow → Bool) where
  pub max_id-none : (rows : List OutboxRow) → count_if p rows ≡ 0 → max_id p rows ≡ 0
  unfolding max_id
  max_id-none [] h = refl
  max_id-none (r ∷ rows) h = ground (arith, max_id-none rows)

  pub max_id-later :
      (n : ℕ) (rows : List OutboxRow)
      → All (λ s. n < s.outbox_id) rows
      → 0 < count_if p rows
      → n < max_id p rows
  unfolding max_id
  max_id-later n [] a h = absurd (omega arith)
  max_id-later n (r ∷ rows) a h = ground (arith, max_id-later n rows a.1, a.0)

  kept-none :
      (w : ℕ) (rows : List OutboxRow)
      → count_if p rows ≡ 0
      → (count_if (kept p w) rows ≡ 0) × (max_id (kept p w) rows ≡ 0)
  unfolding max_id
  kept-none w [] h = (refl, refl)
  kept-none w (r ∷ rows) h = ground (arith, kept-none w rows)

  -- Of the rows that pass, those from the newest id on are one, or none if none passes; and the
  -- newest id is as before.
  pub kept-newest :
      (w : ℕ) (rows : List OutboxRow)
      → IsAscending rows
      → w ≡ max_id p rows
      → (count_if (kept p w) rows ≡ min 1 (count_if p rows)) × (max_id (kept p w) rows ≡ w)
  unfolding max_id
  kept-newest w [] a e = (refl, ground arith)
  kept-newest w (r ∷ rows) a e = elim (Bool-cases (leb (count_if p rows) 0)) [
    | inl none_later ↦
        let h : count_if p rows ≡ 0 = ground arith in
        ground (arith, kept-none w rows h, max_id-none rows h)
    | inr some_later ↦
        let h : 0 < count_if p rows = ground arith in
        let l : r.outbox_id < max_id p rows = max_id-later r.outbox_id rows a.0 h in
        ground (arith, kept-newest w rows a.1)
  ]
