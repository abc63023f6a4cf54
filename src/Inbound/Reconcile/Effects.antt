-- ===== src/Inbound/Reconcile/Effects.antt =====
-- What a callback of inbound/reconcile.py changes.
use mathlib.Core.Bool.{false≢true}
use text.Mathlib.TextPositions.{eq_refl}
use vh26_pixel_perfect.Prelude.{
  ℕ, ◌≡◌, ◌≢◌, ◌⊎◌, refl, ◌∙◌, sym, ap, Bool, true, false, not, String, string_eq, ◌==◌, eq_iff,
  Option, none, some, List, [], ◌∷◌, ◌++◌, All, keep_if, Bool-cases, Option-cases, inl, inr,
  if◌then◌else◌,
}
use vh26_pixel_perfect.Prelude.Dict
use vh26_pixel_perfect.Prelude.Dict.{get-put}
use vh26_pixel_perfect.Engine.Lifecycle.{IncidentState, Trigger, transition_state}
use vh26_pixel_perfect.Inbound.Reconcile.{
  Store, ExternalAction, ResultStatus, applied, Detail, IncidentRow, ExternalDecision,
  ReconcileResult, already_seen, record_inbound, apply_transition, apply_to_incident,
  apply_triggered, apply_external_action, trigger_for_kind, build_decision, notified_channels,
  stamped,
}

-- The status of an incident, if it is stored.
abbrev pub status_in : Option IncidentRow → Option IncidentState
status_in none = none
status_in (some r) = some r.status

abbrev pub status_of : Store → String → Option IncidentState
status_of s id = status_in (Dict.get id s.incidents)

-- How often an incident has been reopened, if it is stored.
abbrev pub reopens_in : Option IncidentRow → Option ℕ
reopens_in none = none
reopens_in (some r) = some r.reopen_count

abbrev pub reopens_of : Store → String → Option ℕ
reopens_of s id = reopens_in (Dict.get id s.incidents)

-- The callback makes a valid transition of its own incident, with one entry in the ledger that
-- notifies no channel of the provider.
pub record Applied (s : Store) (a : ExternalAction) (s' : Store) : Type 0 where
  pub trigger : Trigger
  pub from_state : IncidentState
  pub next : IncidentState
  pub triggered : trigger_for_kind a.kind ≡ some trigger
  pub before : status_of s a.incident_id ≡ some from_state
  pub transition : transition_state from_state trigger ≡ some next
  pub after :
      (id : String) → status_of s' id ≡ (if a.incident_id == id then some next else status_of s id)
  pub forgotten : reopens_of s' a.incident_id ≡ some 0
  pub decision : ExternalDecision
  pub ledger : s'.persisted ≡ s.persisted ++ decision ∷ []
  pub channels : All (λ c. c ≢ a.provider) decision.channels

-- The callback changes no incident and adds nothing to the ledger.
pub record Unchanged (s s' : Store) : Type 0 where
  pub incidents : s'.incidents ≡ s.incidents
  pub persisted : s'.persisted ≡ s.persisted
  pub refreshed : s'.refreshed ≡ s.refreshed

abbrev pub Effect : Store → ExternalAction → Store × ReconcileResult → Type 0
Effect s a (s', r) =
    ((r.status ≡ applied) × Applied s a s') ⊎ ((r.status ≢ applied) × Unchanged s s')

Unchanged-record_inbound :
    (s : Store) (a : ExternalAction) (status : ResultStatus) (detail : Detail) (now : ℕ)
    → Unchanged s (record_inbound s a status detail now)
unfolding record_inbound
Unchanged-record_inbound s a status detail now = elim (Bool-cases (already_seen s a.inbound_id)) [
  | inl seen ↦ rw seen (record { incidents = refl; persisted = refl; refreshed = refl })
  | inr new ↦ rw new (record { incidents = refl; persisted = refl; refreshed = refl })
]

kept_elsewhere :
    (provider : String) (cs : List String)
    → All (λ c. c ≢ provider) (keep_if (λ c. not (c == provider)) cs)
kept_elsewhere provider [] = tt
kept_elsewhere provider (c ∷ cs) = elim (Bool-cases (c == provider)) [
  | inl same ↦ rw same (kept_elsewhere provider cs)
  | inr differs ↦
      rw differs
        (λ e. false≢true (sym differs ∙ (eq_iff c provider).1 e), kept_elsewhere provider cs)
]

elsewhere : (provider : String) → All (λ c. c ≢ provider) (notified_channels provider)
unfolding notified_channels
elsewhere provider = kept_elsewhere provider ("slack" ∷ "pagerduty" ∷ [])

status-stamped :
    (a : ExternalAction) (next : IncidentState) (now : ℕ) (r : IncidentRow)
    → (stamped a next now r).status ≡ next
unfolding stamped
status-stamped a next now r = elim (Bool-cases (a.kind == "acknowledge")) [
  | inl ack ↦ rw ack refl
  | inr other ↦ rw other refl
]

reopens-stamped :
    (a : ExternalAction) (next : IncidentState) (now : ℕ) (r : IncidentRow)
    → (stamped a next now r).reopen_count ≡ 0
unfolding stamped
reopens-stamped a next now r = elim (Bool-cases (a.kind == "acknowledge")) [
  | inl ack ↦ rw ack refl
  | inr other ↦ rw other refl
]

status_in-put :
    (b : Bool) (r : IncidentRow) (o : Option IncidentRow) (next : IncidentState)
    → r.status ≡ next
    → status_in (if b then some r else o) ≡ (if b then some next else status_in o)
status_in-put true r o next e = ap some e
status_in-put false r o next e = refl

module _ (s : Store) (a : ExternalAction) (trigger : Trigger) (row : IncidentRow) (now : ℕ)
    (triggered : trigger_for_kind a.kind ≡ some trigger)
    (known : Dict.get a.incident_id s.incidents ≡ some row) where
  transition-Applied :
      (next : IncidentState)
      → transition_state row.status trigger ≡ some next
      → Applied s a (apply_transition s a row next now).0
  unfolding apply_transition build_decision
  transition-Applied next valid =
      let kept =
        Unchanged-record_inbound
          (record s {
            persisted = s.persisted ++ build_decision row.status a next ∷ [];
            incidents = Dict.put a.incident_id (stamped a next now row) s.incidents;
            refreshed = s.refreshed ++ a.incident_id ∷ [];
          })
          a _ _ now in
      record {
        trigger = trigger;
        from_state = row.status;
        next = next;
        triggered = triggered;
        before = ap status_in known;
        transition = valid;
        after = λ id.
            ap (λ d. status_in (Dict.get id d)) kept.incidents
            ∙ ap status_in (get-put a.incident_id id (stamped a next now row) s.incidents)
            ∙ status_in-put (a.incident_id == id) (stamped a next now row) (Dict.get id s.incidents)
                next (status-stamped a next now row);
        forgotten =
            ap (λ d. reopens_in (Dict.get a.incident_id d)) kept.incidents
            ∙ ap reopens_in
                (get-put a.incident_id a.incident_id (stamped a next now row) s.incidents)
            ∙ ap
                (λ b.
                  reopens_in (
                    if b
                    then some (stamped a next now row)
                    else Dict.get a.incident_id s.incidents))
                (eq_refl a.incident_id)
            ∙ ap some (reopens-stamped a next now row);
        decision = build_decision row.status a next;
        ledger = kept.persisted;
        channels = elsewhere a.provider;
      }

  apply_to_incident-Effect : Effect s a (apply_to_incident s a trigger row now)
  unfolding apply_to_incident apply_transition
  apply_to_incident-Effect = elim (Option-cases (transition_state row.status trigger)) [
    | inl invalid ↦
        rw (invalid, apply_to_incident) (inr (λ e. cc, Unchanged-record_inbound s a _ _ now))
    | inr (next, valid) ↦ rw (valid, apply_to_incident) (inl (refl, transition-Applied next valid))
  ]

apply_triggered-Effect :
    (s : Store) (a : ExternalAction) (o : Option Trigger) (now : ℕ)
    → trigger_for_kind a.kind ≡ o
    → Effect s a (apply_triggered s a o now)
unfolding apply_triggered
apply_triggered-Effect s a none now e = inr (λ h. cc, Unchanged-record_inbound s a _ _ now)
apply_triggered-Effect s a (some trigger) now e =
    elim (Option-cases (Dict.get a.incident_id s.incidents)) [
      | inl unknown ↦
          rw (unknown, apply_triggered) (inr (λ h. cc, Unchanged-record_inbound s a _ _ now))
      | inr (row, known) ↦
          rw (known, apply_triggered) (apply_to_incident-Effect s a trigger row now e known)
    ]

-- A callback is either applied, or changes no incident, no ledger entry and no storm. If it is
-- applied, its kind has a trigger, which is valid in the state of its incident; the incident goes to
-- the state that the lifecycle gives, with a count of reopens of 0 whatever it was, and every other
-- keeps its state; and the ledger gets one entry, which notifies no channel of the provider that
-- called.
pub apply_external_action-Effect :
    (s : Store) (a : ExternalAction) (now : ℕ) → Effect s a (apply_external_action s a now)
unfolding apply_external_action
apply_external_action-Effect s a now = elim (Bool-cases (already_seen s a.inbound_id)) [
  | inl seen ↦
      rw seen (inr (λ h. cc, record { incidents = refl; persisted = refl; refreshed = refl }))
  | inr new ↦ rw new (apply_triggered-Effect s a (trigger_for_kind a.kind) now refl)
]
