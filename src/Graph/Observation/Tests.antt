-- ===== src/Graph/Observation/Tests.antt =====
-- graph/observe_incident.py: a round of two incidents, with evidence that halves.
use vh26_pixel_perfect.Prelude.{
  ℕ, ◌+◌, ◌/◌, ◌≡◌, refl, List, [], ◌∷◌, some, true, inl, if◌then◌else◌,
}
use vh26_pixel_perfect.Engine.Lifecycle.{opened}
use vh26_pixel_perfect.Engine.SilenceSweeper.{is_active}
use vh26_pixel_perfect.Graph.Observation.{
  Incident, Graph, existing_edge, observe_incident, observe_with, record_round, observe_nodes,
  observe_node, observe_scope, observe_related, observe_pair, upsert_edge,
}
use vh26_pixel_perfect.Graph.Observation.Pairs.{edge_at, is_observed, is_participant}
use vh26_pixel_perfect.Graph.Observation.Directed.{evidence, observe_incident-observed}

abbrev database : Incident
database = record {
  incident_id = 1;
  stable_fingerprint = "db";
  status = opened;
  last_alert_at = 100;
  scope_key = "prod";
}

abbrev gateway : Incident
gateway = record {
  incident_id = 2;
  stable_fingerprint = "gateway";
  status = opened;
  last_alert_at = 250;
  scope_key = "prod";
}

abbrev both : List Incident
both = gateway ∷ database ∷ []

abbrev known : Graph ℕ
known = record {
  nodes = [];
  scopes = [];
  edges = (record { src = 1; dst = 2; weight = 4; last_seen_at = 150 }) ∷ [];
}

abbrev halved : ℕ → ℕ → ℕ
halved elapsed weight = weight / 2

abbrev plus : ℕ → ℕ → ℕ
plus a b = a + b

active_gateway : is_participant ("db" ∷ "gateway" ∷ []) gateway ≡ true
unfolding is_active
active_gateway = refl

observe_incident-observed_example :
    edge_at 1 2 (observe_incident 1 plus halved known both 2 ("db" ∷ "gateway" ∷ [])).1.edges ≡ (
      if is_observed ("db" ∷ "gateway" ∷ []) gateway both 1 2
      then some (evidence 1 plus halved 250 (edge_at 1 2 known.edges), 250)
      else edge_at 1 2 known.edges)
observe_incident-observed_example =
    observe_incident-observed 1 plus halved known both ("db" ∷ "gateway" ∷ []) gateway
      (refl, (refl, tt)) (inl refl) active_gateway 1 2

observed-three :
    edge_at 1 2 (observe_incident 1 plus halved known both 2 ("db" ∷ "gateway" ∷ [])).1.edges
    ≡ some (3, 250)
unfolding observe_incident observe_with record_round observe_nodes observe_node observe_scope
    observe_related observe_pair existing_edge upsert_edge is_active
observed-three = refl
