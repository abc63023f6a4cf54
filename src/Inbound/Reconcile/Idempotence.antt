-- ===== src/Inbound/Reconcile/Idempotence.antt =====
-- A callback of inbound/reconcile.py that comes twice acts once.
use text.Mathlib.TextPositions.{eq_refl}
use vh26_pixel_perfect.Prelude.{
  ℕ, ◌≡◌, refl, ◌∙◌, ap, true, String, string_eq, Option, none, some, Bool-cases, Option-cases, inl,
  inr, if◌then◌else◌,
}
use vh26_pixel_perfect.Prelude.Dict
use vh26_pixel_perfect.Prelude.Dict.{Dict, get-put}
use vh26_pixel_perfect.Engine.Lifecycle.{Trigger, transition_state}
use vh26_pixel_perfect.Inbound.Reconcile.{
  Store, ExternalAction, ResultStatus, duplicate, Detail, IncidentRow, result, already_seen,
  is_some, record_inbound, apply_transition, apply_to_incident, apply_triggered,
  apply_external_action, trigger_for_kind,
}

get-put_same :
    {V : Type 0} (k : String) (v : V) (d : Dict String V) → Dict.get k (Dict.put k v d) ≡ some v
get-put_same k v d = get-put k k v d ∙ ap (λ b. if b then some v else Dict.get k d) (eq_refl k)

seen-record_inbound :
    (s : Store) (a : ExternalAction) (status : ResultStatus) (detail : Detail) (now : ℕ)
    → already_seen (record_inbound s a status detail now) a.inbound_id ≡ true
unfolding record_inbound already_seen
seen-record_inbound s a status detail now = elim (Bool-cases (already_seen s a.inbound_id)) [
  | inl seen ↦ rw seen seen
  | inr new ↦ rw new (ap is_some (get-put_same a.inbound_id _ s.inbound))
]

seen-apply_to_incident :
    (s : Store) (a : ExternalAction) (trigger : Trigger) (row : IncidentRow) (now : ℕ)
    → already_seen (apply_to_incident s a trigger row now).0 a.inbound_id ≡ true
unfolding apply_to_incident apply_transition
seen-apply_to_incident s a trigger row now =
    elim (Option-cases (transition_state row.status trigger)) [
      | inl invalid ↦ rw (invalid, apply_to_incident) (seen-record_inbound s a _ _ now)
      | inr (next, valid) ↦ rw (valid, apply_to_incident) (seen-record_inbound _ a _ _ now)
    ]

seen-apply_triggered :
    (s : Store) (a : ExternalAction) (o : Option Trigger) (now : ℕ)
    → already_seen (apply_triggered s a o now).0 a.inbound_id ≡ true
unfolding apply_triggered
seen-apply_triggered s a none now = seen-record_inbound s a _ _ now
seen-apply_triggered s a (some trigger) now =
    elim (Option-cases (Dict.get a.incident_id s.incidents)) [
      | inl unknown ↦ rw (unknown, apply_triggered) (seen-record_inbound s a _ _ now)
      | inr (row, known) ↦ rw (known, apply_triggered) (seen-apply_to_incident s a trigger row now)
    ]

seen-apply_external_action :
    (s : Store) (a : ExternalAction) (now : ℕ)
    → already_seen (apply_external_action s a now).0 a.inbound_id ≡ true
unfolding apply_external_action
seen-apply_external_action s a now = elim (Bool-cases (already_seen s a.inbound_id)) [
  | inl seen ↦ rw seen seen
  | inr new ↦ rw new (seen-apply_triggered s a (trigger_for_kind a.kind) now)
]

seen_again :
    (s : Store) (b : ExternalAction) (later : ℕ)
    → already_seen s b.inbound_id ≡ true
    → apply_external_action s b later ≡ (s, result duplicate b none none (some "replayed"))
unfolding apply_external_action
seen_again s b later seen = rw seen refl

-- Once a callback has been handled, on whatever branch, another with the same inbound id changes
-- nothing and is reported as a duplicate, whatever else it says and whenever it comes.
pub apply_external_action-replayed :
    (s : Store) (a b : ExternalAction) (now later : ℕ)
    → b.inbound_id ≡ a.inbound_id
    → apply_external_action (apply_external_action s a now).0 b later
      ≡ ((apply_external_action s a now).0, result duplicate b none none (some "replayed"))
apply_external_action-replayed s a b now later e =
    seen_again (apply_external_action s a now).0 b later
      (ap (already_seen (apply_external_action s a now).0) e ∙ seen-apply_external_action s a now)
