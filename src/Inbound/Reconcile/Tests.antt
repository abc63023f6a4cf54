-- ===== src/Inbound/Reconcile/Tests.antt =====
-- Tests of inbound/reconcile.py.
use vh26_pixel_perfect.Prelude.{◌≡◌, refl, none, some, [], ◌∷◌}
use vh26_pixel_perfect.Prelude.Dict.{get}
use vh26_pixel_perfect.Engine.Lifecycle.{acknowledged, resolved, transition_state}
use vh26_pixel_perfect.Inbound.Reconcile.{
  Store, ExternalAction, IncidentRow, applied, duplicate, result, already_seen, trigger_for_kind,
  apply_transition, apply_to_incident, apply_triggered, apply_external_action,
}
use vh26_pixel_perfect.Inbound.Reconcile.Idempotence.{apply_external_action-replayed}
use vh26_pixel_perfect.Inbound.Reconcile.Effects.{Effect, apply_external_action-Effect}

abbrev incident : IncidentRow
incident = record {
  status = acknowledged;
  last_seen_at = 0;
  reopen_count = 2;
  acknowledged_at = none;
  acknowledged_by = none;
  acknowledged_via = none;
  resolved_at = none;
  resolved_via = none;
  resolution_source = none;
  resolution_detail = none;
}

abbrev store : Store
store = record { inbound = []; incidents = ("a", incident) ∷ []; persisted = []; refreshed = [] }

abbrev click : ExternalAction
click = record {
  inbound_id = "delivery";
  provider = "slack";
  kind = "resolve";
  incident_id = "a";
  actor = some "sam";
  detail = none;
  payload_sha256 = "";
  resolution_source = "operator";
}

click_applied :
    (apply_external_action store click 5).1
    ≡ result applied click (some acknowledged) (some resolved) none
unfolding apply_external_action apply_triggered apply_to_incident apply_transition already_seen
    trigger_for_kind transition_state get
click_applied = refl

apply_external_action-replayed_example :
    apply_external_action (apply_external_action store click 5).0 click 9
    ≡ ((apply_external_action store click 5).0, result duplicate click none none (some "replayed"))
apply_external_action-replayed_example = apply_external_action-replayed store click click 5 9 refl

apply_external_action-Effect_example : Effect store click (apply_external_action store click 5)
apply_external_action-Effect_example = apply_external_action-Effect store click 5
