-- ===== src/Engine/SilenceSweeper.antt =====
-- engine/silence_sweeper.py: the resolution of incidents whose alerts have stopped. The threshold of
-- silence of an incident, which is floating-point arithmetic, is an argument.
pub mod Silence
pub mod Counts
mod Tests
use Prim.Native.String.{◌++◌, slice}
use vh26_pixel_perfect.Prelude.{
  ℕ, zero, suc, ◌+◌, ◌-◌, ◌/◌, ◌%◌, Bool, true, false, ◌&&◌, String, none, some, List, [], ◌∷◌, ltb,
  leb, if◌then◌else◌,
}
use vh26_pixel_perfect.Prelude.Dict.{Dict}
use vh26_pixel_perfect.Engine.Lifecycle.{IncidentState, resolved}
use vh26_pixel_perfect.Inbound.Reconcile.{
  Store, ExternalAction, IncidentRow, ResultStatus, applied, apply_external_action,
}

-- str(n) of a number below 10 ** digits
unfoldable pub decimal : ℕ → ℕ → String
decimal zero n = ""
decimal (suc digits) n = elim (ltb n 10) [
  | true ↦ slice "0123456789" n (n + 1)
  | false ↦ decimal digits (n / 10) ++ slice "0123456789" (n % 10) (n % 10 + 1)
]

-- `_ACTIVE_STATES`
unfoldable pub is_active : IncidentState → Bool
is_active resolved = false
is_active _ = true

-- An incident that `_candidates` finds.
pub record Candidate : Type 0 where
  pub incident_id : String
  pub silent_for : ℕ
  pub threshold : ℕ

-- silent_for >= threshold, for an incident that the query selects
unfoldable pub is_overdue : ℕ → ℕ → IncidentRow → Bool
is_overdue threshold now row = is_active row.status && leb (row.last_seen_at + threshold) now

unfoldable pub candidates : (String → ℕ) → ℕ → Dict String IncidentRow → List Candidate
candidates threshold now [] = []
candidates threshold now ((id, row) ∷ rows) =
    let rest = candidates threshold now rows in
    if is_overdue (threshold id) now row
    then record { incident_id = id; silent_for = now - row.last_seen_at; threshold = threshold id }
      ∷ rest
    else rest

-- The action on behalf of nobody; a moment has 20 digits at most.
unfoldable pub presumed_over : ℕ → Candidate → ExternalAction
presumed_over now c = record {
  inbound_id = "silence:" ++ c.incident_id ++ ":" ++ decimal 20 (now / 60000);
  provider = "system";
  kind = "resolve";
  incident_id = c.incident_id;
  actor = none;
  detail = some (
      "No alerts for "
      ++ decimal 20 (c.silent_for / 1000)
      ++ "s, past this incident's "
      ++ decimal 20 (c.threshold / 1000)
      ++ "s silence threshold. Presumed resolved - not confirmed by a human.");
  payload_sha256 = "";
  resolution_source = "inferred_silence";
}

-- `ReconcileResult.changed`
unfoldable pub changed : ResultStatus → Bool
changed applied = true
changed _ = false

unfoldable pub sweep_all : ℕ → Store → List Candidate → Store × ℕ
sweep_all now s [] = (s, 0)
sweep_all now s (c ∷ cs) =
    let outcome = apply_external_action s (presumed_over now c) now in
    let rest = sweep_all now outcome.0 cs in
    (rest.0, (if changed outcome.1.status then 1 else 0) + rest.1)

-- The incidents that are resolved, and how many.
unfoldable pub sweep_once : (String → ℕ) → Store → ℕ → Store × ℕ
sweep_once threshold s now = sweep_all now s (candidates threshold now s.incidents)
