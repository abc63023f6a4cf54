-- ===== src/Engine/ProcessEvent/Damping.antt =====
-- The damping of a flapping incident in engine/process_event.py.
use vh26_pixel_perfect.Prelude.{ℕ, ◌≤◌, ◌≡◌, true, List, [], ◌∷◌}
use vh26_pixel_perfect.Engine.ProcessEvent.{
  EngineSettings, IncidentRecord, EventStatus, Decision, repeated, recorded,
}

pub record Alert : Type 0 where
  pub status : EventStatus
  pub event_time : ℕ
  pub predicted : ℕ
  pub now : ℕ

-- The decisions on alerts of one incident, each recorded before the next, and its last record.
unfoldable pub decide_all :
    EngineSettings → IncidentRecord → List Alert → IncidentRecord × List Decision
decide_all settings r [] = (r, [])
decide_all settings r (a ∷ alerts) =
    let d = repeated settings r a.status a.event_time a.predicted a.now in
    let (r', ds) = decide_all settings (recorded r d a.event_time a.now) alerts in (r', d ∷ ds)

-- A record of an incident that flaps.
pub record IsFlapping (settings : EngineSettings) (r : IncidentRecord) : Type 0 where
  pub enabled : settings.flap_damping ≡ true
  pub often : settings.flap_threshold ≤ r.reopen_count

module _ (settings : EngineSettings) (r : IncidentRecord) (a : Alert) where
  abbrev decided : Decision
  decided = repeated settings r a.status a.event_time a.predicted a.now
