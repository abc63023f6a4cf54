-- ===== src/Outbox/Recovery/Queued.antt =====
-- `coalesce_pending` of outbox/recovery.py: how many rows leave the queue.
use vh26_pixel_perfect.Prelude.{
  ℕ, ◌+◌, ◌≡◌, refl, ◌&&◌, String, string_eq, Option, none, some, List, [], ◌∷◌, map, count_if,
  if◌then◌else◌, arith, ◌∙◌,
}
use vh26_pixel_perfect.Outbox.Tables.{OutboxRow, is_pending}
use vh26_pixel_perfect.Outbox.Recovery.{
  is_queued, is_intent, newest, Group, carry_marker, with_marker, loses, supersede, collapse,
  has_marker, mark, apply_marker, collapse_all, groups_of, coalesce_pending,
}
use vh26_pixel_perfect.Outbox.Recovery.Counts.{count_if_congr, count_if-map}

-- Rows of the queue of a channel.
abbrev pub queued : String → List OutboxRow → ℕ
queued channel = count_if (is_queued channel)

queued-supersede_one :
    (channel : String) (g : Group) (r : OutboxRow)
    → (if is_queued channel (supersede channel g r) then 1 else 0)
        + (if loses channel g r then 1 else 0)
      ≡ (if is_queued channel r then 1 else 0)
unfolding supersede loses is_intent is_queued is_pending
queued-supersede_one channel g r = ground arith

queued-supersede :
    (channel : String) (g : Group) (rows : List OutboxRow)
    → queued channel (map (supersede channel g) rows) + count_if (loses channel g) rows
      ≡ queued channel rows
queued-supersede channel g [] = refl
queued-supersede channel g (r ∷ rows) =
    omega (arith, queued-supersede channel g rows, queued-supersede_one channel g r)

is_queued-mark :
    (via : Option String) (w : ℕ) (channel : String) (r : OutboxRow)
    → is_queued channel (mark via w r) ≡ is_queued channel r
unfolding mark with_marker is_queued
is_queued-mark via w channel r = ground arith

queued-apply_marker :
    (w : ℕ) (m : Option OutboxRow) (channel : String) (rows : List OutboxRow)
    → queued channel (apply_marker w m rows) ≡ queued channel rows
unfolding apply_marker
queued-apply_marker w none channel rows = refl
queued-apply_marker w (some m) channel rows =
    let via = m.payload.delivered_via_fallback in
    count_if-map (is_queued channel) (mark via w) rows
    ∙ count_if_congr (λ r. is_queued channel (mark via w r)) (is_queued channel) rows
        (is_queued-mark via w channel)

queued-collapse_all :
    (channel : String) (groups : List Group) (rows : List OutboxRow)
    → queued channel (collapse_all channel groups rows).0 + (collapse_all channel groups rows).1
      ≡ queued channel rows
unfolding collapse_all collapse carry_marker
queued-collapse_all channel [] rows = omega arith
queued-collapse_all channel (g ∷ groups) rows =
    let m = newest (λ r. is_intent channel g.incident_id r && has_marker r) rows in
    let marked = apply_marker g.winner m rows in
    omega (
      arith,
      queued-collapse_all channel groups (map (supersede channel g) marked),
      queued-supersede channel g marked,
      queued-apply_marker g.winner m channel rows,
    )

-- The number that `coalesce_pending` returns is that of the rows that left the queue of the channel.
pub queued-coalesce_pending :
    (channel : String) (rows : List OutboxRow)
    → queued channel (coalesce_pending channel rows).0 + (coalesce_pending channel rows).1
      ≡ queued channel rows
unfolding coalesce_pending
queued-coalesce_pending channel rows = queued-collapse_all channel (groups_of channel rows) rows
