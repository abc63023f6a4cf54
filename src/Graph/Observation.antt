-- ===== src/Graph/Observation.antt =====
-- graph/observe_incident.py: the round that an alert adds to the graph of incidents that occur together.
-- The evidence is a number that decays by edge_decay.py, floating-point arithmetic: it is of any type with
-- one, a sum and a decay over the elapsed milliseconds, for the half-life of the settings. Times are
-- milliseconds of the epoch.
pub mod Pairs
pub mod Directed
mod Tests
use vh26_pixel_perfect.Prelude.{
  ℕ, ◌+◌, ◌-◌, Bool, not, ◌&&◌, String, string_eq, nat_eq, ◌==◌, Option, none, some, List, [], ◌∷◌,
  any, keep_if, leb, if◌then◌else◌,
}
use vh26_pixel_perfect.Engine.Lifecycle.{IncidentState}
use vh26_pixel_perfect.Engine.SilenceSweeper.{is_active}

pub record Incident : Type 0 where
  pub incident_id : ℕ
  pub stable_fingerprint : String
  pub status : IncidentState
  pub last_alert_at : ℕ
  pub scope_key : String

pub record ScopeStats (W : Type 0) : Type 0 where
  pub scope_key : String
  pub rounds : W
  pub last_observed_at : ℕ
  pub observed_revision : ℕ
  pub ranked_revision : ℕ
  pub ranked_at : Option ℕ

pub record NodeStats (W : Type 0) : Type 0 where
  pub incident_id : ℕ
  pub scope_key : String
  pub observations : W
  pub last_observed_at : ℕ

pub record Edge (W : Type 0) : Type 0 where
  pub src : ℕ
  pub dst : ℕ
  pub weight : W
  pub last_seen_at : ℕ

pub record Graph (W : Type 0) : Type 0 where
  pub nodes : List (NodeStats W)
  pub scopes : List (ScopeStats W)
  pub edges : List (Edge W)

abbrev pub is_among : List String → String → Bool
is_among texts text = any (λ t. t == text) texts

-- SELECT of the active incidents with one of the fingerprints
abbrev pub related_to : List String → List Incident → List Incident
related_to fingerprints incidents =
    keep_if (λ i. is_among fingerprints i.stable_fingerprint && is_active i.status) incidents

abbrev pub participants_of : List String → List Incident → List Incident
participants_of fingerprints incidents =
    related_to (keep_if (λ f. not (f == "")) fingerprints) incidents

abbrev pub find_incident : ℕ → List Incident → Option Incident
find_incident id [] = none
find_incident id (i ∷ incidents) =
    let rest = find_incident id incidents in if i.incident_id == id then some i else rest

-- The earlier of two incidents is the source of the edge.
abbrev pub directed : Incident → Incident → ℕ × ℕ
directed current related =
    if leb related.last_alert_at current.last_alert_at
    then (related.incident_id, current.incident_id)
    else (current.incident_id, related.incident_id)

module _ {W : Type 0} (one : W) (sum : W → W → W) (decay : ℕ → W → W) where
  -- decay_weights, and one more observation
  abbrev pub aged : ℕ → ℕ → W → W
  aged now last value = sum (decay (now - last) value) one

  unfoldable pub observe_node : String → ℕ → ℕ → List (NodeStats W) → List (NodeStats W)
  observe_node scope now id [] =
      (record { incident_id = id; scope_key = scope; observations = one; last_observed_at = now })
      ∷ []
  observe_node scope now id (n ∷ nodes) =
      let rest = observe_node scope now id nodes in
      if n.incident_id == id
      then (record n {
        scope_key = scope;
        observations = aged now n.last_observed_at n.observations;
        last_observed_at = now;
      })
        ∷ nodes
      else n ∷ rest

  unfoldable pub observe_nodes :
      String → ℕ → List Incident → List (NodeStats W) → List (NodeStats W)
  unfolding observe_node
  observe_nodes scope now [] nodes = nodes
  observe_nodes scope now (i ∷ participants) nodes =
      observe_nodes scope now participants (observe_node scope now i.incident_id nodes)

  unfoldable pub observe_scope : String → ℕ → List (ScopeStats W) → List (ScopeStats W)
  observe_scope scope now [] =
      (record {
        scope_key = scope;
        rounds = one;
        last_observed_at = now;
        observed_revision = 1;
        ranked_revision = 0;
        ranked_at = none;
      })
      ∷ []
  observe_scope scope now (s ∷ scopes) =
      let rest = observe_scope scope now scopes in
      if s.scope_key == scope
      then (record s {
        rounds = aged now s.last_observed_at s.rounds;
        last_observed_at = now;
        observed_revision = s.observed_revision + 1;
      })
        ∷ scopes
      else s ∷ rest

  unfoldable pub record_round : Graph W → List Incident → String → ℕ → Graph W
  unfolding observe_nodes observe_scope
  record_round g participants scope now = record g {
    nodes = observe_nodes scope now participants g.nodes;
    scopes = observe_scope scope now g.scopes;
  }

  unfoldable pub existing_edge : ℕ → ℕ → List (Edge W) → Option (W × ℕ)
  existing_edge source target [] = none
  existing_edge source target (e ∷ edges) =
      let rest = existing_edge source target edges in
      if e.src == source && e.dst == target then some (e.weight, e.last_seen_at) else rest

  abbrev pub updated : ℕ → Option (W × ℕ) → W
  updated now none = one
  updated now (some (weight, last)) = aged now last weight

  -- INSERT INTO edges ... ON CONFLICT DO UPDATE
  unfoldable pub upsert_edge : ℕ → ℕ → W → ℕ → List (Edge W) → List (Edge W)
  upsert_edge source target weight now [] =
      (record { src = source; dst = target; weight = weight; last_seen_at = now }) ∷ []
  upsert_edge source target weight now (e ∷ edges) =
      let rest = upsert_edge source target weight now edges in
      if e.src == source && e.dst == target
      then (record e { weight = weight; last_seen_at = now }) ∷ edges
      else e ∷ rest

  -- One turn of the loop over the related incidents, with the edge that it wrote.
  unfoldable pub observe_pair : ℕ → ℕ × ℕ → List (Edge W) → Edge W × List (Edge W)
  unfolding existing_edge upsert_edge
  observe_pair now (source, target) edges =
      let weight = updated now (existing_edge source target edges) in
      (
        record { src = source; dst = target; weight = weight; last_seen_at = now },
        upsert_edge source target weight now edges,
      )

  unfoldable pub observe_related :
      Incident → List Incident → List (Edge W) → List (Edge W) × List (Edge W)
  unfolding observe_pair
  observe_related current [] edges = ([], edges)
  observe_related current (r ∷ related) edges =
      let (update, edges1) = observe_pair current.last_alert_at (directed current r) edges in
      let (updates, edges2) = observe_related current related edges1 in
      let skipped = observe_related current related edges in
      if r.incident_id == current.incident_id then skipped else (update ∷ updates, edges2)

  unfoldable pub observe_with : Graph W → List Incident → Option Incident → List (Edge W) × Graph W
  unfolding record_round observe_related
  observe_with g related none = ([], g)
  observe_with g related (some current) =
      let g1 = record_round g related current.scope_key current.last_alert_at in
      let (updates, edges) = observe_related current related g1.edges in
      (updates, record g1 { edges = edges })

  unfoldable pub observe_incident :
      Graph W → List Incident → ℕ → List String → List (Edge W) × Graph W
  unfolding observe_with
  observe_incident g incidents id fingerprints =
      let related = participants_of fingerprints incidents in
      observe_with g related (find_incident id related)
