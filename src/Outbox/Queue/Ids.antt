-- ===== src/Outbox/Queue/Ids.antt =====
-- Which ids stand in the lists that outbox/worker.py builds from its queue.
use vh26_pixel_perfect.Prelude.{
  ℕ, zero, suc, ◌≡◌, ◌∙◌, refl, Bool, true, false, ◌||◌, Option, none, some, List, [], ◌∷◌, map,
  nat_beq, keep_if, take, if◌then◌else◌, arith, Bool-cases, inl, inr,
}
use vh26_pixel_perfect.Outbox.Tables.{OutboxRow}
use vh26_pixel_perfect.Outbox.Queue.{has_id, insert_row, in_order}

-- The row with an id.
unfoldable pub row_at : ℕ → List OutboxRow → Option OutboxRow
row_at id [] = none
row_at id (r ∷ rows) = if nat_beq r.outbox_id id then some r else row_at id rows

abbrev pub passes : (OutboxRow → Bool) → Option OutboxRow → Bool
passes p none = false
passes p (some r) = p r

abbrev pub changed : (OutboxRow → OutboxRow) → Option OutboxRow → Option OutboxRow
changed f none = none
changed f (some r) = some (f r)

-- Each id stands once.
abbrev pub AreDistinct : List OutboxRow → Type 0
AreDistinct [] = Unit
AreDistinct (r ∷ rows) = (has_id r.outbox_id rows ≡ false) × AreDistinct rows

pub row_at-map :
    (f : OutboxRow → OutboxRow)
    → ((r : OutboxRow) → (f r).outbox_id ≡ r.outbox_id)
    → (id : ℕ) (rows : List OutboxRow) → row_at id (map f rows) ≡ changed f (row_at id rows)
unfolding row_at
row_at-map f same id [] = refl
row_at-map f same id (r ∷ rows) = ground (arith, same r, row_at-map f same id rows)

pub has_id-map :
    (f : OutboxRow → OutboxRow)
    → ((r : OutboxRow) → (f r).outbox_id ≡ r.outbox_id)
    → (id : ℕ) (rows : List OutboxRow) → has_id id (map f rows) ≡ has_id id rows
unfolding has_id
has_id-map f same id [] = refl
has_id-map f same id (r ∷ rows) = ground (arith, same r, has_id-map f same id rows)

pub AreDistinct-map :
    (f : OutboxRow → OutboxRow)
    → ((r : OutboxRow) → (f r).outbox_id ≡ r.outbox_id)
    → (rows : List OutboxRow) → AreDistinct rows
    → AreDistinct (map f rows)
AreDistinct-map f same [] d = tt
AreDistinct-map f same (r ∷ rows) d =
    (rw (same r) (has_id-map f same r.outbox_id rows ∙ d.0), AreDistinct-map f same rows d.1)

pub has_id-insert_row :
    (id : ℕ) (r : OutboxRow) (rows : List OutboxRow)
    → has_id id (insert_row r rows) ≡ (nat_beq r.outbox_id id || has_id id rows)
unfolding has_id insert_row
has_id-insert_row id r [] = refl
has_id-insert_row id r (s ∷ rows) = ground (arith, has_id-insert_row id r rows)

pub has_id-in_order : (id : ℕ) (rows : List OutboxRow) → has_id id (in_order rows) ≡ has_id id rows
unfolding has_id in_order
has_id-in_order id [] = refl
has_id-in_order id (r ∷ rows) =
    ground (arith, has_id-in_order id rows, has_id-insert_row id r (in_order rows))

pub has_id-take :
    (id n : ℕ) (rows : List OutboxRow) → has_id id (take n rows) ≡ true → has_id id rows ≡ true
unfolding has_id
has_id-take id zero rows h = cc
has_id-take id (suc n) [] h = h
has_id-take id (suc n) (r ∷ rows) h = ground (arith, has_id-take id n rows)

has_id-keep_absent :
    (p : OutboxRow → Bool) (id : ℕ) (rows : List OutboxRow)
    → has_id id rows ≡ false
    → has_id id (keep_if p rows) ≡ false
unfolding has_id
has_id-keep_absent p id [] h = refl
has_id-keep_absent p id (r ∷ rows) h = ground (arith, has_id-keep_absent p id rows)

-- Among rows with distinct ids, an id stands in a selection exactly if its row passes.
pub has_id-keep_if :
    (p : OutboxRow → Bool) (id : ℕ) (rows : List OutboxRow)
    → AreDistinct rows
    → has_id id (keep_if p rows) ≡ passes p (row_at id rows)
unfolding has_id row_at
has_id-keep_if p id [] d = refl
has_id-keep_if p id (r ∷ rows) d = elim (Bool-cases (nat_beq r.outbox_id id)) [
  | inl here ↦ ground (arith, has_id-keep_absent p r.outbox_id rows d.0)
  | inr there ↦ ground (arith, has_id-keep_if p id rows d.1)
]

pub outbox_id-row_at :
    (id : ℕ) (rows : List OutboxRow) {r : OutboxRow} → row_at id rows ≡ some r → r.outbox_id ≡ id
unfolding row_at
outbox_id-row_at id [] h = cc
outbox_id-row_at id (s ∷ rows) {r} h = elim (Bool-cases (nat_beq s.outbox_id id)) [
  | inl here ↦ ground arith
  | inr there ↦ outbox_id-row_at id rows {r = r} (ground arith)
]
