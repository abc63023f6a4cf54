-- ===== src/Outbox/Queue/Exclusion.antt =====
-- No row is claimed by two workers of outbox/worker.py at once.
use vh26_pixel_perfect.Prelude.{
  sym, ap, ℕ, ◌+◌, ◌<◌, ◌≡◌, ◌≢◌, refl, Bool, true, false, String, string_eq, eq_iff, Option, none,
  some, List, map, keep_if, arith, Bool-cases, inl, inr, ◌∙◌,
}
use mathlib.Core.Bool.{false≢true}
use vh26_pixel_perfect.Outbox.Tables.{OutboxRow}
use vh26_pixel_perfect.Outbox.Queue.{
  Settings, has_id, is_eligible, lease_batch, is_held, batch_of, claim, same_worker, in_order,
}
use vh26_pixel_perfect.Outbox.Queue.Ids.{
  row_at, passes, changed, AreDistinct, row_at-map, AreDistinct-map, has_id-in_order, has_id-take,
  has_id-keep_if, outbox_id-row_at,
}

outbox_id-lease_batch :
    (worker : String) (until : ℕ) (batch : List OutboxRow) (r : OutboxRow)
    → (lease_batch worker until batch r).outbox_id ≡ r.outbox_id
unfolding lease_batch
outbox_id-lease_batch worker until batch r = ground arith

-- An id of a batch is that of an eligible row.
batch_of-eligible :
    (settings : Settings) (available : String → Bool) (now id : ℕ) (rows : List OutboxRow)
    → AreDistinct rows
    → has_id id (batch_of settings available now rows) ≡ true
    → passes (is_eligible available now) (row_at id rows) ≡ true
unfolding batch_of
batch_of-eligible settings available now id rows d h =
    sym (has_id-keep_if (is_eligible available now) id rows d)
    ∙ sym (has_id-in_order id (keep_if (is_eligible available now) rows))
    ∙ has_id-take id settings.batch_size (in_order (keep_if (is_eligible available now) rows)) h

-- What a worker gets of an id.
has_id-claim :
    (settings : Settings) (worker : String) (available : String → Bool) (now id : ℕ)
    (rows : List OutboxRow)
    → AreDistinct rows
    → has_id id (claim settings worker available now rows).1
      ≡ passes
          (is_held worker (now + settings.lease))
          (row_at id (claim settings worker available now rows).0)
unfolding claim
has_id-claim settings worker available now id rows d =
    let until = now + settings.lease in
    let f = lease_batch worker until (batch_of settings available now rows) in
    let same = outbox_id-lease_batch worker until (batch_of settings available now rows) in
    has_id-in_order id (keep_if (is_held worker until) (map f rows))
    ∙ has_id-keep_if (is_held worker until) id (map f rows) (AreDistinct-map f same rows d)

row_at-claim :
    (settings : Settings) (worker : String) (available : String → Bool) (now id : ℕ)
    (rows : List OutboxRow)
    → row_at id (claim settings worker available now rows).0
      ≡ changed
          (lease_batch worker (now + settings.lease) (batch_of settings available now rows))
          (row_at id rows)
unfolding claim
row_at-claim settings worker available now id rows =
    row_at-map (lease_batch worker (now + settings.lease) (batch_of settings available now rows))
      (outbox_id-lease_batch worker (now + settings.lease) (batch_of settings available now rows))
      id rows

AreDistinct-claim :
    (settings : Settings) (worker : String) (available : String → Bool) (now : ℕ)
    (rows : List OutboxRow)
    → AreDistinct rows
    → AreDistinct (claim settings worker available now rows).0
unfolding claim
AreDistinct-claim settings worker available now rows d =
    AreDistinct-map
      (lease_batch worker (now + settings.lease) (batch_of settings available now rows))
      (outbox_id-lease_batch worker (now + settings.lease) (batch_of settings available now rows))
      rows d

-- A row under a lease of another worker that has not expired is not eligible.
held_not_eligible :
    (a : String) (until : ℕ) (available : String → Bool) (now : ℕ) (r : OutboxRow)
    → is_held a until r ≡ true
    → now < until
    → is_eligible available now r ≡ false
unfolding is_held is_eligible
held_not_eligible a until available now r h l = ground arith

same_worker_one :
    (a b : String) (o : Option String) → a ≢ b → same_worker o a ≡ true → same_worker o b ≡ false
unfolding same_worker
same_worker_one a b none ne h = refl
same_worker_one a b (some w) ne h = ground (arith, eq_iff w a, eq_iff w b)

held_by_one :
    (a b : String) (s t : ℕ) (r : OutboxRow) → a ≢ b → is_held a s r ≡ true → is_held b t r ≡ false
unfolding is_held
held_by_one a b s t r ne h = ground (arith, same_worker_one a b r.locked_by)

-- A row that `a` holds is left alone by the claim of `b`, and is not handed to `b`.
left_alone :
    (settings : Settings) (a b : String) (available : String → Bool) (until now id : ℕ)
    (rows : List OutboxRow) (o : Option OutboxRow)
    → AreDistinct rows
    → a ≢ b
    → now < until
    → row_at id rows ≡ o
    → passes (is_held a until) o ≡ true
    → passes
        (is_held b (now + settings.lease))
        (changed (lease_batch b (now + settings.lease) (batch_of settings available now rows)) o)
      ≡ false
unfolding lease_batch is_held
left_alone settings a b available until now id rows none d ne l e h = cc
left_alone settings a b available until now id rows (some r) d ne l e h =
    elim (Bool-cases (has_id id (batch_of settings available now rows))) [
      | inl inside ↦
          let eligible : is_eligible available now r ≡ true =
            rw e at (batch_of-eligible settings available now id rows d inside) in
          absurd (false≢true (sym (held_not_eligible a until available now r h l) ∙ eligible))
      | inr outside ↦
          rw (outbox_id-row_at id rows e, outside)
            (held_by_one a b until (now + settings.lease) r ne h)
    ]

-- While the lease of `a` runs, whatever channels are available to either, no id that `a` claimed is
-- claimed by another worker `b`.
pub claim_exclusive :
    (settings : Settings) (a b : String) (available available' : String → Bool) (now later id : ℕ)
    (rows : List OutboxRow)
    → AreDistinct rows
    → a ≢ b
    → later < now + settings.lease
    → has_id id (claim settings a available now rows).1 ≡ true
    → has_id id (claim settings b available' later (claim settings a available now rows).0).1
      ≡ false
claim_exclusive settings a b available available' now later id rows d ne l h =
    let rows' = (claim settings a available now rows).0 in
    let d' = AreDistinct-claim settings a available now rows d in
    let held = sym (has_id-claim settings a available now id rows d) ∙ h in
    has_id-claim settings b available' later id rows' d'
    ∙ ap (passes (is_held b (later + settings.lease)))
        (row_at-claim settings b available' later id rows')
    ∙ left_alone settings a b available' (now + settings.lease) later id rows' (row_at id rows') d'
        ne l refl held
