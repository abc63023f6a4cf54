-- ===== src/Outbox/Worker.antt =====
-- outbox/worker.py: the worker that drains the queue. One reading of the clock serves a whole
-- operation. What a provider answers is a function of the request; what recovery.py reads of the
-- incidents is a function too.
pub mod Failures
pub mod Charges
mod Tests
use vh26_pixel_perfect.Prelude.{
  ℕ, zero, suc, ◌+◌, Bool, true, false, ◌&&◌, ◌||◌, not, String, string_eq, ◌==◌, Option, none,
  some, List, [], ◌∷◌, ◌++◌, map, ltb, leb, nat_beq, any, keep_if, if◌then◌else◌,
}
use vh26_pixel_perfect.Prelude.Int.{ℤ, pos}
use vh26_pixel_perfect.Prelude.Dict
use vh26_pixel_perfect.Prelude.Dict.{Dict}
use vh26_pixel_perfect.Outbox.FailurePolicy.{
  Failure, FailureKind, message_fatal, channel_down, transient, FailureVerdict, Reason, plain,
  classify,
}
use vh26_pixel_perfect.Outbox.Routing.{FailoverTarget, is_failover_worthy, select_failover}
use vh26_pixel_perfect.Outbox.Tables.{
  Db, OutboxRow, Payload, RowStatus, pending, sent, is_pending, Breaker, half_open,
}
use vh26_pixel_perfect.Outbox.ChannelHealth.{
  ChannelState, state_of, all_states, is_available, is_half_open, probe_due, record_success,
  record_failure, record_probe_result, mark_failed_over,
}
use vh26_pixel_perfect.Outbox.HealthColumns.{BreakerConfig}
use vh26_pixel_perfect.Outbox.Recovery.{coalesce_pending, effective_action, max_id, newest}
use vh26_pixel_perfect.Outbox.Queue.{
  Settings, update_row, mark_sent, park, retry_later, dead_letter, in_order, claim, trim,
}

-- The worker's configuration, and what recovery.py reads of an incident: the payload filled from its
-- row (`hydrate_payload`) and the state that this carries.
pub record Worker : Type 0 where
  pub worker_id : String
  pub breaker : BreakerConfig
  pub settings : Settings
  pub hydrate : String → Payload → Payload
  pub state_in : String → Option String

abbrev pub known_channels : List String
known_channels = "slack" ∷ "pagerduty" ∷ "email" ∷ []

abbrev pub is_known : String → Bool
is_known channel = any (λ c. c == channel) known_channels

-- The columns of an INSERT that names no others, by their defaults.
abbrev pub new_outbox_row :
    ℕ → String → String → String → Payload → ℕ → ℤ → Option String → OutboxRow
new_outbox_row id incident channel action payload now priority origin = record {
  outbox_id = id;
  incident_id = incident;
  channel = channel;
  action = action;
  payload = payload;
  status = pending;
  attempts = 0;
  next_attempt_at = now;
  last_error = none;
  external_ref = none;
  priority = priority;
  locked_by = none;
  locked_until = none;
  superseded_by = none;
  failover_of = none;
  origin_channel = origin;
  created_at = now;
  sent_at = none;
}

-- AUTOINCREMENT: rows are never deleted.
unfoldable pub next_id : List OutboxRow → ℕ
unfolding max_id
next_id rows = max_id (λ _. true) rows + 1

-- The row that stands in for `r` on the fallback channel.
abbrev pub stand_in : Worker → String → FailoverTarget → ℕ → ℕ → OutboxRow → OutboxRow
stand_in w channel target id now r =
    record (new_outbox_row id r.incident_id target.channel target.action
      (record (w.hydrate r.incident_id r.payload) { failover_from = some channel }) now r.priority
      (some channel)) { failover_of = some r.outbox_id }

abbrev pub via_fallback : String → OutboxRow → OutboxRow
via_fallback target r = record r {
  payload = record r.payload { delivered_via_fallback = some target };
}

unfoldable pub reroute :
    Worker → String → FailoverTarget → ℕ → OutboxRow → List OutboxRow → List OutboxRow
unfolding update_row
reroute w channel target now r rows =
    update_row r.outbox_id (via_fallback target.channel)
      (rows ++ stand_in w channel target (next_id rows) now r ∷ [])

-- The fallback of a row, if it is urgent enough for one.
unfoldable pub fallback_of : String → (String → Bool) → OutboxRow → Option FailoverTarget
fallback_of channel available r =
    if is_failover_worthy r.priority then select_failover channel r.action available else none

-- The loop of `_failover_pending`: the rows, and the number of those rerouted.
unfoldable pub failover_loop :
    Worker → String → (String → Bool) → ℕ → List OutboxRow → List OutboxRow → List OutboxRow × ℕ
failover_loop w channel available now [] rows = (rows, 0)
failover_loop w channel available now (r ∷ selected) rows = elim (fallback_of channel available r) [
  | none ↦ failover_loop w channel available now selected rows
  | some target ↦
      let (rows', moved) =
        failover_loop w channel available now selected (reroute w channel target now r rows) in
      (rows', moved + 1)
]

unfoldable pub is_primary : String → OutboxRow → Bool
is_primary channel r =
    r.channel == channel
    && (is_pending r.status && elim r.failover_of [ none ↦ true | some _ ↦ false ])

-- candidate in known channels, other than `channel`, and available
unfoldable pub other_available : Db → String → String → Bool
other_available db channel candidate =
    is_known candidate && (not (candidate == channel) && is_available (state_of db candidate))

unfoldable pub failover_pending : Worker → String → ℕ → Db → Db
failover_pending w channel now db =
    let available = other_available db channel in
    if any available known_channels
    then (let selected = in_order (keep_if (is_primary channel) db.outbox) in
        let (rows, moved) = failover_loop w channel available now selected db.outbox in
        let db' = record db { outbox = rows } in
        if nat_beq moved 0 then db' else mark_failed_over db' channel moved)
    else db

abbrev pub with_rows : Db → (List OutboxRow → List OutboxRow) → Db
with_rows db change = record db { outbox = change db.outbox }

-- The row's part of a failure, once the breaker has been told.
unfoldable pub settle_failure :
    FailureKind → Worker → OutboxRow → FailureVerdict → ℕ → Db → Bool → Db
settle_failure message_fatal w r verdict now db newly_down =
    with_rows db (dead_letter r.outbox_id verdict.reason)
settle_failure channel_down w r verdict now db newly_down =
    let db' =
      with_rows db (park r.outbox_id (state_of db r.channel).next_probe_at verdict.reason now) in
    if newly_down then failover_pending w r.channel now db' else db'
settle_failure transient w r verdict now db newly_down =
    with_rows db
      (retry_later w.settings r.outbox_id r.attempts verdict.reason verdict.retry_after now)

unfoldable pub handle_failure : Worker → OutboxRow → Failure → ℕ → Db → Db
unfolding settle_failure
handle_failure w r e now db =
    let verdict = classify e in
    let (db', newly_down) = record_failure w.breaker db r.channel verdict now in
    settle_failure verdict.kind w r verdict now db' newly_down

-- What is sent to a provider, and what comes back.
pub record Request : Type 0 where
  pub channel : String
  pub action : String
  pub payload : Payload
  pub external_ref : Option String

pub data Outcome : Type 0 where
  delivered : Option String → Outcome
  raised : Failure → Outcome

-- `_resolve_external_ref`: the handle of the newest row sent for the incident on the channel.
unfoldable pub has_handle : String → String → OutboxRow → Bool
has_handle incident channel r =
    r.incident_id == incident
    && (r.channel == channel
        && (elim r.status [ sent ↦ true | _ ↦ false ]
            && elim r.external_ref [ none ↦ false | some _ ↦ true ]))

abbrev pub ref_of : Option OutboxRow → Option String
ref_of none = none
ref_of (some r) = r.external_ref

-- a or b
abbrev pub or_ref : Option String → Option String → Option String
or_ref none b = b
or_ref (some a) b = if a == "" then b else some a

unfoldable pub is_digest : Payload → Bool
is_digest p = elim p.kind [ none ↦ false | some k ↦ k == "recovery_digest" ]

-- The request of a row: rendered from the live incident, unless it is a recovery digest.
unfoldable pub request_of : Worker → OutboxRow → List OutboxRow → Request
request_of w r rows =
    if is_digest r.payload
    then record {
      channel = r.channel;
      action = r.action;
      payload = r.payload;
      external_ref = r.external_ref;
    }
    else record {
      channel = r.channel;
      action = effective_action r.action (w.state_in r.incident_id);
      payload = w.hydrate r.incident_id r.payload;
      external_ref =
          or_ref r.external_ref (ref_of (newest (has_handle r.incident_id r.channel) rows));
    }

unfoldable pub settle : Worker → OutboxRow → ℕ → Outcome → Db → Db
unfolding handle_failure
settle w r now (delivered ref) db =
    (record_success (with_rows db (mark_sent r.outbox_id ref now)) r.channel now).0
settle w r now (raised e) db = handle_failure w r e now db

unfoldable pub dispatch : Worker → (Request → Outcome) → ℕ → OutboxRow → Db → Db
unfolding settle
dispatch w send now r db =
    if is_known r.channel
    then settle w r now (send (request_of w r db.outbox)) db
    else with_rows db (dead_letter r.outbox_id (plain "unknown channel"))

unfoldable pub dispatch_all : Worker → (Request → Outcome) → ℕ → List OutboxRow → Db → Db
dispatch_all w send now [] db = db
dispatch_all w send now (r ∷ rows) db = dispatch_all w send now rows (dispatch w send now r db)

unfoldable pub coalesce_all : List String → Db → Db
coalesce_all [] db = db
coalesce_all (c ∷ channels) db =
    coalesce_all channels (record db { outbox = (coalesce_pending c db.outbox).0 })

-- The known channels that are available, in the order of their names.
unfoldable pub available_channels : Db → List String
available_channels db =
    keep_if (λ c. is_available (state_of db c)) ("email" ∷ "pagerduty" ∷ "slack" ∷ [])

unfoldable pub trial_counts : Db → Dict String ℕ
trial_counts db =
    map (λ c. (c, 0)) (keep_if (λ c. is_half_open (state_of db c).state) known_channels)

-- `_poll_once`
unfoldable pub poll_once : Worker → (Request → Outcome) → ℕ → Db → Db
unfolding dispatch_all
poll_once w send now db =
    let channels = available_channels db in
    if any (λ _. true) channels
    then (let db' = coalesce_all channels db in
        let available = λ (c : String). any (λ d. d == c) channels in
        let (rows, claimed) = claim w.settings w.worker_id available now db'.outbox in
        dispatch_all w send now (trim w.breaker.half_open_allowance (trial_counts db) claimed)
          (record db' { outbox = rows }))
    else db
