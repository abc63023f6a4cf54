-- ===== src/Graph/RootCause/Tests.antt =====
-- graph/root_cause_worker.py: a sweep over a dirty scope and a clean one.
use vh26_pixel_perfect.Prelude.{
  ℕ, ◌+◌, ◌≡◌, refl, String, Option, none, some, List, [], ◌∷◌, map, arith,
}
use vh26_pixel_perfect.Graph.Observation.{ScopeStats, observe_scope}
use vh26_pixel_perfect.Graph.RootCause.{Settings, Tables, dirty_scopes, revision_of, sweep_once}
use vh26_pixel_perfect.Graph.RootCause.CatchUp.{caught_up, sweep_once-caught_up}

abbrev production : ScopeStats ℕ
production = record {
  scope_key = "prod";
  rounds = 3;
  last_observed_at = 100;
  observed_revision = 3;
  ranked_revision = 1;
  ranked_at = none;
}

abbrev staging : ScopeStats ℕ
staging = record {
  scope_key = "staging";
  rounds = 2;
  last_observed_at = 90;
  observed_revision = 2;
  ranked_revision = 2;
  ranked_at = some 95;
}

abbrev settings : Settings
settings = record { correlation_window_ms = 900000; correlation_max_neighbours = 25 }

abbrev unsure : List ℕ → Option (ℕ × String)
unsure candidates = none

abbrev tables : Tables ℕ
tables = record { incidents = []; scopes = production ∷ staging ∷ [] }

sweep_once-caught_up_example :
    (let after = (sweep_once settings unsure tables 200 210).0.scopes in
      (after ≡ map (caught_up 210) tables.scopes)
      × (dirty_scopes after ≡ [])
      × ((one : ℕ) (sum : ℕ → ℕ → ℕ) (decay : ℕ → ℕ → ℕ) (scope : String) (at : ℕ)
          → dirty_scopes (observe_scope one sum decay scope at after)
            ≡ (scope, revision_of scope after + 1) ∷ []))
sweep_once-caught_up_example =
    sweep_once-caught_up settings unsure tables 200 210 (refl, (refl, tt))
      (omega arith, (omega arith, tt))
