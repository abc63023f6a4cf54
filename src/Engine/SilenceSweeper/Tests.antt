-- ===== src/Engine/SilenceSweeper/Tests.antt =====
-- Tests of engine/silence_sweeper.py.
use vh26_pixel_perfect.Prelude.{ℕ, ◌≡◌, refl, String, none, some, [], ◌∷◌}
use vh26_pixel_perfect.Prelude.Dict.{get, put, remove}
use vh26_pixel_perfect.Engine.Lifecycle.{opened, transition_state}
use vh26_pixel_perfect.Engine.SilenceSweeper.{
  decimal, is_active, is_overdue, candidates, presumed_over, changed, sweep_all, sweep_once,
}
use vh26_pixel_perfect.Engine.SilenceSweeper.Silence.{Presumed, Swept, sweep_once-Closes}
use vh26_pixel_perfect.Inbound.Reconcile.{
  Store, IncidentRow, already_seen, record_inbound, trigger_for_kind, stamped, apply_transition,
  apply_to_incident, apply_triggered, apply_external_action,
}
use vh26_pixel_perfect.Inbound.Reconcile.Effects.{status_of}

abbrev silent : IncidentRow
silent = record {
  status = opened;
  last_seen_at = 0;
  reopen_count = 2;
  acknowledged_at = none;
  acknowledged_by = none;
  acknowledged_via = none;
  resolved_at = none;
  resolved_via = none;
  resolution_source = none;
  resolution_detail = none;
}

abbrev store : Store
store = record {
  inbound = [];
  incidents = ("quiet", silent) ∷ ("busy", record silent { last_seen_at = 7000 }) ∷ [];
  persisted = [];
  refreshed = [];
}

abbrev five_seconds : String → ℕ
five_seconds id = 5000

window : decimal 20 1305 ≡ "1305"
unfolding decimal
window = refl

one_closed : (sweep_once five_seconds store 8000).1 ≡ 1
unfolding sweep_once sweep_all candidates is_overdue is_active presumed_over changed decimal
    apply_external_action apply_triggered apply_to_incident apply_transition already_seen
    trigger_for_kind transition_state get
one_closed = refl

busy_kept : status_of (sweep_once five_seconds store 8000).0 "busy" ≡ some opened
unfolding sweep_once sweep_all candidates is_overdue is_active presumed_over decimal
    apply_external_action apply_triggered apply_to_incident apply_transition already_seen
    record_inbound stamped trigger_for_kind transition_state get put remove
busy_kept = refl

sweep_once-Closes_example :
    Swept
      (Presumed five_seconds store 8000 "quiet")
      store
      (sweep_once five_seconds store 8000).0
      "quiet"
sweep_once-Closes_example = sweep_once-Closes five_seconds store 8000 "quiet"
