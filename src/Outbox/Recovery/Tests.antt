-- ===== src/Outbox/Recovery/Tests.antt =====
-- Tests of outbox/recovery.py.
use vh26_pixel_perfect.Prelude.{
  ℕ, ◌≡◌, min, refl, string_eq, String, ◌==◌, Option, none, some, List, [], ◌∷◌, count_if,
  if◌then◌else◌, map, arith,
}
use vh26_pixel_perfect.Prelude.Int.{pos}
use vh26_pixel_perfect.Outbox.Tables.{OutboxRow, pending, superseded, is_pending, RowStatus}
use vh26_pixel_perfect.Outbox.Recovery.{
  is_intent, max_id, newest, group_keys, groups_of, has_marker, carry_marker, supersede,
  collapse_all, mark, coalesce_pending,
}
use vh26_pixel_perfect.Outbox.Recovery.Settled.{settled}
use vh26_pixel_perfect.Outbox.Recovery.Coalesce.{coalesce_pending-newest}

abbrev slack : String
slack = "slack"

abbrev row : ℕ → String → OutboxRow
row id incident = record {
  outbox_id = id;
  incident_id = incident;
  channel = "slack";
  action = "update";
  payload = record { kind = none; delivered_via_fallback = none; failover_from = none; body = "" };
  status = pending;
  attempts = 0;
  next_attempt_at = 0;
  last_error = none;
  external_ref = none;
  priority = pos 2;
  locked_by = none;
  locked_until = none;
  superseded_by = none;
  failover_of = none;
  origin_channel = some "slack";
  created_at = 0;
  sent_at = none;
}

-- Three intents of one incident, the first of them paged through a fallback, and one of another.
abbrev backlog : List OutboxRow
backlog =
    record (row 1 "a") {
      payload = record {
        kind = none;
        delivered_via_fallback = some "email";
        failover_from = none;
        body = "";
      };
    }
    ∷ row 2 "b"
    ∷ row 3 "a"
    ∷ row 4 "a"
    ∷ []

abbrev statuses : List OutboxRow → List RowStatus
statuses = map (λ r. r.status)

left_of_backlog :
    statuses (coalesce_pending "slack" backlog).0 ≡ superseded ∷ pending ∷ superseded ∷ pending ∷ []
unfolding coalesce_pending collapse_all groups_of group_keys max_id newest is_intent has_marker
    carry_marker supersede is_pending mark
left_of_backlog = refl

coalesce_pending-newest_example :
    (count_if (is_intent "slack" "a") (coalesce_pending "slack" backlog).0 ≡ (
      if slack == slack
      then min 1 (count_if (is_intent "slack" "a") backlog)
      else count_if (is_intent "slack" "a") backlog))
    × (max_id (is_intent "slack" "a") (coalesce_pending "slack" backlog).0
        ≡ max_id (is_intent "slack" "a") backlog)
    × ((coalesce_pending "slack" backlog).0 ≡ map (settled "slack" backlog) backlog)
coalesce_pending-newest_example = coalesce_pending-newest "slack" "slack" "a" backlog (omega arith)

abbrev outcomes : List OutboxRow → List (RowStatus × Option ℕ × Option String)
outcomes = map (λ r. (r.status, r.superseded_by, r.payload.delivered_via_fallback))

-- The last intent takes over the marker of the first, and the others have lost.
settled-backlog :
    outcomes (map (settled "slack" backlog) backlog)
    ≡ (superseded, some 4, some "email")
      ∷ (pending, none, none)
      ∷ (superseded, some 4, none)
      ∷ (pending, none, some "email")
      ∷ []
unfolding is_pending
settled-backlog = refl
