-- ===== src/Graph/Redirection.antt =====
-- graph/storm_grouping.py, redirect_member_deliveries and group_for_anchor, and the part of
-- engine/process_event.py that places an incident into a storm: the notifications of a member go to the
-- card of the storm. Of a row of the outbox there are the columns that are read or written here.
pub mod Anchored
mod Tests
use vh26_pixel_perfect.Prelude.{
  ℕ, ◌+◌, Bool, true, false, not, ◌&&◌, String, string_eq, nat_eq, ◌==◌, Option, none, some, List,
  [], ◌∷◌, ◌++◌, map, any, count_if, ltb, if◌then◌else◌,
}
use vh26_pixel_perfect.Outbox.Tables.{RowStatus, pending, sent, dead, superseded, is_pending}
use vh26_pixel_perfect.Graph.Tables.{Tables, Group, GroupAssignment}
use vh26_pixel_perfect.Graph.StormGrouping.{is_multi_member, assign_group, refresh_group_for_member}

-- `merged_into` is set in the payload that announces a storm, and in no other.
pub record OutboxRow : Type 0 where
  pub incident_id : ℕ
  pub channel : String
  pub action : String
  pub status : RowStatus
  pub external_ref : Option String
  pub merged_into : Option ℕ
  pub next_attempt_at : ℕ
  pub priority : ℕ
  pub origin_channel : Option String

abbrev pub is_sent : RowStatus → Bool
is_sent sent = true
is_sent pending = false
is_sent dead = false
is_sent superseded = false

abbrev pub is_known : Option String → Bool
is_known none = false
is_known (some _) = true

unfoldable pub already_posted : ℕ → List OutboxRow → Bool
already_posted member rows =
    any
      (λ r.
        r.incident_id == member
        && r.channel == "slack"
        && is_sent r.status
        && is_known r.external_ref)
      rows

abbrev pub is_queued : ℕ → OutboxRow → Bool
is_queued member r = r.incident_id == member && is_pending r.status

-- The last edit of a card that a member already posted.
abbrev pub merge_notice : ℕ → ℕ → ℕ → OutboxRow
merge_notice member anchor now = record {
  incident_id = member;
  channel = "slack";
  action = "update";
  status = pending;
  external_ref = none;
  merged_into = some anchor;
  next_attempt_at = now;
  priority = 2;
  origin_channel = some "slack";
}

abbrev pub redirected : ℕ → ℕ → OutboxRow → OutboxRow
redirected member anchor r =
    if is_queued member r then record r { incident_id = anchor; action = "update" } else r

unfoldable pub redirect_member_deliveries : List OutboxRow → ℕ → ℕ → ℕ → List OutboxRow × ℕ
unfolding already_posted
redirect_member_deliveries rows member anchor now = (
  map (redirected member anchor) rows
      ++ (if already_posted member rows then merge_notice member anchor now ∷ [] else []),
  count_if (is_queued member) rows,
)

unfoldable pub group_for_anchor : List Group → ℕ → Option ℕ
group_for_anchor [] id = none
group_for_anchor (g ∷ groups) id =
    let rest = group_for_anchor groups id in
    if g.anchor_incident_id == id then some g.group_id else rest

abbrev pub or_else :
    Tables × Option GroupAssignment
    → Tables × Option GroupAssignment
    → Tables × Option GroupAssignment
or_else (t, none) other = other
or_else (t, some a) other = (t, some a)

abbrev pub redirect_if : List OutboxRow → ℕ → Option GroupAssignment → ℕ → List OutboxRow
redirect_if rows id none now = rows
redirect_if rows id (some a) now =
    if is_multi_member a && not (a.anchor_incident_id == id)
    then (redirect_member_deliveries rows id a.anchor_incident_id now).0
    else rows

-- The end of persist_and_observe.
unfoldable pub correlate :
    ℕ
    → Tables
    → List OutboxRow
    → ℕ
    → String
    → ℕ
    → ℕ
    → Tables × Option GroupAssignment × List OutboxRow
correlate threshold t rows id scope fresh now =
    let first = assign_group threshold t id scope fresh now in
    let (t1, assignment) = or_else first (refresh_group_for_member first.0 id now) in
    (t1, assignment, redirect_if rows id assignment now)
