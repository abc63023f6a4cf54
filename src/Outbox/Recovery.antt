-- ===== src/Outbox/Recovery.antt =====
-- outbox/recovery.py: the queue of a channel that comes back, collapsed to one intent an incident.
pub mod Counts
pub mod Rounds
pub mod Turns
pub mod Apart
pub mod Settled
pub mod Coalesce
pub mod Queued
mod Tests
use vh26_pixel_perfect.Prelude.{
  ℕ, ◌+◌, max, Bool, true, false, ◌&&◌, not, String, string_eq, ◌==◌, Option, none, some, List, [],
  ◌∷◌, map, ltb, nat_beq, any, count_if, keep_if, if◌then◌else◌,
}
use vh26_pixel_perfect.Outbox.Tables.{OutboxRow, Payload, superseded, is_pending}

-- WHERE channel = ? AND status = 'pending'
unfoldable pub is_queued : String → OutboxRow → Bool
is_queued channel r = r.channel == channel && is_pending r.status

-- ... AND incident_id = ?
unfoldable pub is_intent : String → String → OutboxRow → Bool
unfolding is_queued
is_intent channel incident_id r = is_queued channel r && r.incident_id == incident_id

-- MAX(outbox_id), over the rows that pass a test
unfoldable pub max_id : (OutboxRow → Bool) → List OutboxRow → ℕ
max_id p [] = 0
max_id p (r ∷ rows) = let rest = max_id p rows in if p r then max r.outbox_id rest else rest

-- ORDER BY outbox_id DESC LIMIT 1, over the rows that pass a test
unfoldable pub newest : (OutboxRow → Bool) → List OutboxRow → Option OutboxRow
newest p [] = none
newest p (r ∷ rows) = elim (newest p rows) [
  | none ↦ if p r then some r else none
  | some s ↦ if p r && ltb s.outbox_id r.outbox_id then some r else some s
]

-- GROUP BY incident_id: each incident of the queue once
unfoldable pub group_keys : String → List OutboxRow → List String
group_keys channel [] = []
group_keys channel (r ∷ rows) =
    let keys = group_keys channel rows in
    if is_queued channel r && not (any (λ k. k == r.incident_id) keys)
    then r.incident_id ∷ keys
    else keys

pub record Group : Type 0 where
  pub incident_id : String
  pub winner : ℕ

-- HAVING COUNT(*) > 1
unfoldable pub groups_of : String → List OutboxRow → List Group
groups_of channel rows =
    map (λ k. record { incident_id = k; winner = max_id (is_intent channel k) rows })
      (keep_if (λ k. ltb 1 (count_if (is_intent channel k) rows)) (group_keys channel rows))

unfoldable pub has_marker : OutboxRow → Bool
has_marker r = elim r.payload.delivered_via_fallback [ none ↦ false | some _ ↦ true ]

unfoldable pub with_marker : Option String → OutboxRow → OutboxRow
with_marker via r = record r { payload = record r.payload { delivered_via_fallback = via } }

unfoldable pub mark : Option String → ℕ → OutboxRow → OutboxRow
unfolding with_marker
mark via winner r = if nat_beq r.outbox_id winner then with_marker via r else r

unfoldable pub apply_marker : ℕ → Option OutboxRow → List OutboxRow → List OutboxRow
apply_marker winner none rows = rows
apply_marker winner (some m) rows = map (mark m.payload.delivered_via_fallback winner) rows

-- The marker that the incident was paged through a fallback goes over to the winner.
unfoldable pub carry_marker : String → Group → List OutboxRow → List OutboxRow
unfolding apply_marker
carry_marker channel g rows =
    apply_marker g.winner (newest (λ r. is_intent channel g.incident_id r && has_marker r) rows)
      rows

unfoldable pub loses : String → Group → OutboxRow → Bool
loses channel g r = is_intent channel g.incident_id r && ltb r.outbox_id g.winner

unfoldable pub supersede : String → Group → OutboxRow → OutboxRow
unfolding loses
supersede channel g r =
    if loses channel g r then record r { status = superseded; superseded_by = some g.winner } else r

-- One round of the loop over the groups: the rows, and the number of those superseded.
unfoldable pub collapse : String → Group → List OutboxRow → List OutboxRow × ℕ
collapse channel g rows =
    let marked = carry_marker channel g rows in
    (map (supersede channel g) marked, count_if (loses channel g) marked)

unfoldable pub collapse_all : String → List Group → List OutboxRow → List OutboxRow × ℕ
unfolding collapse
collapse_all channel [] rows = (rows, 0)
collapse_all channel (g ∷ groups) rows =
    let (rows', n) = collapse channel g rows in
    let (rows'', m) = collapse_all channel groups rows' in (rows'', n + m)

unfoldable pub coalesce_pending : String → List OutboxRow → List OutboxRow × ℕ
coalesce_pending channel rows = collapse_all channel (groups_of channel rows) rows

-- A queued action, reconciled with the state of its incident.
unfoldable pub effective_action : String → Option String → String
effective_action queued_action none = queued_action
effective_action queued_action (some status) =
    if status == "RESOLVED" then "resolve" else queued_action
