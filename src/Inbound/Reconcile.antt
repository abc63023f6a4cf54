-- ===== src/Inbound/Reconcile.antt =====
-- inbound/reconcile.py: a callback of a provider, applied to an incident. What a decision leaves in the
-- ledger and in the queue is its entry in `persisted`, and the refresh of the incident's storm its
-- entry in `refreshed`, each in the order in which the calls come. The ValidationError
-- of a decision of the provider `system` without a detail is left out.
pub mod Idempotence
pub mod Effects
mod Tests
use vh26_pixel_perfect.Prelude.{
  ℕ, Bool, true, false, not, String, string_eq, ◌==◌, Option, none, some, List, [], ◌∷◌, ◌++◌, map,
  keep_if, if◌then◌else◌,
}
use vh26_pixel_perfect.Prelude.Dict
use vh26_pixel_perfect.Prelude.Dict.{Dict}
use vh26_pixel_perfect.Engine.Lifecycle.{
  IncidentState, Trigger, acknowledge, resolve, transition_state,
}

pub record ExternalAction : Type 0 where
  pub inbound_id : String
  pub provider : String
  pub kind : String
  pub incident_id : String
  pub actor : Option String
  pub detail : Option String
  pub payload_sha256 : String
  pub resolution_source : String

pub data ResultStatus : Type 0 where
  applied duplicate ignored : ResultStatus

pub data Detail : Type 0 where
  replayed unknown_kind unknown_incident : Detail
  no_transition_from : IncidentState → Detail
  changed_to : IncidentState → IncidentState → Detail

pub record ReconcileResult : Type 0 where
  pub status : ResultStatus
  pub incident_id : String
  pub from_state : Option IncidentState
  pub to_state : Option IncidentState
  pub detail : Option String

-- A row of inbound_events.
pub record InboundEvent : Type 0 where
  pub provider : String
  pub kind : String
  pub incident_id : String
  pub actor : Option String
  pub status : ResultStatus
  pub detail : Detail
  pub payload_sha256 : String
  pub received_at : ℕ

-- The columns of incidents that a callback reads or writes, and `last_seen_at`, which the silence
-- sweeper reads: COALESCE(last_ingested_at, last_alert_at).
pub record IncidentRow : Type 0 where
  pub status : IncidentState
  pub last_seen_at : ℕ
  pub reopen_count : ℕ
  pub acknowledged_at : Option ℕ
  pub acknowledged_by : Option String
  pub acknowledged_via : Option String
  pub resolved_at : Option ℕ
  pub resolved_via : Option String
  pub resolution_source : Option String
  pub resolution_detail : Option String

-- `_build_decision`: what it takes from the action, and the channels that it notifies.
pub record ExternalDecision : Type 0 where
  pub incident_id : String
  pub state : IncidentState
  pub from_state : IncidentState
  pub ends : Bool
  pub action : String
  pub channels : List String

pub record Store : Type 0 where
  pub inbound : Dict String InboundEvent
  pub incidents : Dict String IncidentRow
  pub persisted : List ExternalDecision
  pub refreshed : List String

-- `_TRIGGER_FOR_KIND`
unfoldable pub trigger_for_kind : String → Option Trigger
trigger_for_kind kind =
    if kind == "acknowledge"
    then some acknowledge
    else if kind == "resolve"
    then some resolve
    else none

abbrev pub is_some {ℓ} : {A : Type ℓ} → Option A → Bool
is_some none = false
is_some (some _) = true

unfoldable pub already_seen : Store → String → Bool
already_seen s inbound_id = is_some (Dict.get inbound_id s.inbound)

-- ON CONFLICT(inbound_id) DO NOTHING
unfoldable pub record_inbound : Store → ExternalAction → ResultStatus → Detail → ℕ → Store
record_inbound s a status detail now = if already_seen s a.inbound_id then s else record s {
  inbound =
      Dict.put a.inbound_id
        (record {
          provider = a.provider;
          kind = a.kind;
          incident_id = a.incident_id;
          actor = a.actor;
          status = status;
          detail = detail;
          payload_sha256 = a.payload_sha256;
          received_at = now;
        })
        s.inbound;
}

-- Every channel except the one in which somebody acted.
unfoldable pub notified_channels : String → List String
notified_channels provider = keep_if (λ c. not (c == provider)) ("slack" ∷ "pagerduty" ∷ [])

unfoldable pub build_decision : IncidentState → ExternalAction → IncidentState → ExternalDecision
build_decision current a next = record {
  incident_id = a.incident_id;
  state = next;
  from_state = current;
  ends = a.kind == "resolve";
  action = if a.kind == "resolve" then "resolve" else "update";
  channels = notified_channels a.provider;
}

-- COALESCE(column, ?)
abbrev pub keep_first {ℓ} : {A : Type ℓ} → Option A → Option A → Option A
keep_first none new = new
keep_first (some old) new = some old

-- The columns that `persist_decision` writes, the decision naming no count of reopens, and those that
-- record who acknowledged, or who resolved.
unfoldable pub stamped : ExternalAction → IncidentState → ℕ → IncidentRow → IncidentRow
stamped a next now r =
    if a.kind == "acknowledge"
    then record r {
      status = next;
      last_seen_at = now;
      reopen_count = 0;
      acknowledged_at = keep_first r.acknowledged_at (some now);
      acknowledged_by = keep_first r.acknowledged_by a.actor;
      acknowledged_via = keep_first r.acknowledged_via (some a.provider);
    }
    else record r {
      status = next;
      last_seen_at = now;
      reopen_count = 0;
      resolved_at = keep_first r.resolved_at (some now);
      resolved_via = keep_first r.resolved_via (some a.provider);
      resolution_source = keep_first r.resolution_source (some a.resolution_source);
      resolution_detail = keep_first r.resolution_detail a.detail;
    }

abbrev pub result :
    ResultStatus
    → ExternalAction
    → Option IncidentState
    → Option IncidentState
    → Option String
    → ReconcileResult
result status a from to detail = record {
  status = status;
  incident_id = a.incident_id;
  from_state = from;
  to_state = to;
  detail = detail;
}

-- The transition is valid.
unfoldable pub apply_transition :
    Store → ExternalAction → IncidentRow → IncidentState → ℕ → Store × ReconcileResult
apply_transition s a row next now =
    let changed = record s {
      persisted = s.persisted ++ build_decision row.status a next ∷ [];
      incidents = Dict.put a.incident_id (stamped a next now row) s.incidents;
      refreshed = s.refreshed ++ a.incident_id ∷ [];
    } in
    (
      record_inbound changed a applied (changed_to row.status next) now,
      result applied a (some row.status) (some next) none,
    )

unfoldable pub apply_to_incident :
    Store → ExternalAction → Trigger → IncidentRow → ℕ → Store × ReconcileResult
apply_to_incident s a trigger row now = elim (transition_state row.status trigger) [
  | none ↦ (
    record_inbound s a ignored (no_transition_from row.status) now,
    result ignored a (some row.status) (some row.status) (some "no-op"),
  )
  | some next ↦ apply_transition s a row next now
]

unfoldable pub apply_triggered :
    Store → ExternalAction → Option Trigger → ℕ → Store × ReconcileResult
apply_triggered s a none now =
    (record_inbound s a ignored unknown_kind now, result ignored a none none (some "unknown kind"))
apply_triggered s a (some trigger) now = elim (Dict.get a.incident_id s.incidents) [
  | none ↦ (
    record_inbound s a ignored unknown_incident now,
    result ignored a none none (some "unknown incident"),
  )
  | some row ↦ apply_to_incident s a trigger row now
]

unfoldable pub apply_external_action : Store → ExternalAction → ℕ → Store × ReconcileResult
apply_external_action s a now =
    if already_seen s a.inbound_id
    then (s, result duplicate a none none (some "replayed"))
    else apply_triggered s a (trigger_for_kind a.kind) now
