-- ===== src/Graph/RootCause.antt =====
-- graph/root_cause_worker.py: the background ranking of the scopes with new evidence. The ranking itself,
-- score_root_cause of root_cause_ranker.py, is floating-point arithmetic over the edges: it is an argument
-- that names an incident and its confidence as it is printed. Times are milliseconds of the epoch.
pub mod CatchUp
mod Tests
use vh26_pixel_perfect.Prelude.{
  ℕ, ◌+◌, ◌-◌, Bool, true, false, not, ◌&&◌, ◌||◌, String, string_eq, nat_eq, ◌==◌, Option, none,
  some, List, [], ◌∷◌, map, keep_if, count_if, take, ltb, leb, if◌then◌else◌,
}
use vh26_pixel_perfect.Engine.Lifecycle.{IncidentState}
use vh26_pixel_perfect.Engine.SilenceSweeper.{is_active}
use vh26_pixel_perfect.Graph.Neighbours.{is_in}
use vh26_pixel_perfect.Graph.Observation.{ScopeStats}

-- What a hint calls an incident: its title, or its id if that is missing or empty.
pub data Label : Type 0 where
  titled : String → Label
  untitled : ℕ → Label

pub record Hint : Type 0 where
  pub label : Label
  pub confidence : String

pub record Incident : Type 0 where
  pub incident_id : ℕ
  pub scope_key : String
  pub title : String
  pub status : IncidentState
  pub last_alert_at : ℕ
  pub last_ingested_at : Option ℕ
  pub root_cause_hint : Option Hint

pub record Settings : Type 0 where
  pub correlation_window_ms : ℕ
  pub correlation_max_neighbours : ℕ

-- COALESCE(last_ingested_at, last_alert_at)
abbrev pub seen_at : Option ℕ → ℕ → ℕ
seen_at none alerted = alerted
seen_at (some ingested) alerted = ingested

abbrev pub last_seen : Incident → ℕ
last_seen i = seen_at i.last_ingested_at i.last_alert_at

unfoldable pub insert_latest : Incident → List Incident → List Incident
insert_latest i [] = i ∷ []
insert_latest i (j ∷ rest) =
    let later = insert_latest i rest in
    if ltb (last_seen i) (last_seen j) then j ∷ later else i ∷ j ∷ rest

unfoldable pub latest_first : List Incident → List Incident
unfolding insert_latest
latest_first [] = []
latest_first (i ∷ incidents) = insert_latest i (latest_first incidents)

unfoldable pub candidates_of : Settings → String → ℕ → List Incident → List ℕ
unfolding latest_first
candidates_of settings scope now incidents =
    map (λ i. i.incident_id)
      (take settings.correlation_max_neighbours (
        latest_first (
          keep_if
            (λ i.
              i.scope_key == scope
              && is_active i.status
              && leb (now - settings.correlation_window_ms) (last_seen i))
            incidents)))

abbrev pub label_of : ℕ → List Incident → Label
label_of id [] = untitled id
label_of id (i ∷ incidents) =
    let rest = label_of id incidents in
    if i.incident_id == id then (if i.title == "" then untitled id else titled i.title) else rest

unfoldable pub describe_verdict : List Incident → Option (ℕ × String) → Option Hint
describe_verdict incidents none = none
describe_verdict incidents (some (id, confidence)) =
    some (record { label = label_of id incidents; confidence = confidence })

abbrev pub same_label : Label → Label → Bool
same_label (titled s) (titled t) = s == t
same_label (untitled i) (untitled j) = i == j
same_label (titled s) (untitled j) = false
same_label (untitled i) (titled t) = false

abbrev pub same_hint : Option Hint → Option Hint → Bool
same_hint none none = true
same_hint (some h) (some k) = same_label h.label k.label && h.confidence == k.confidence
same_hint none (some k) = false
same_hint (some h) none = false

abbrev pub consumed : Option ℕ → ℕ → ℕ
consumed none observed = observed
consumed (some revision) observed = revision

pub record Tables (W : Type 0) : Type 0 where
  pub incidents : List Incident
  pub scopes : List (ScopeStats W)

module _ {W : Type 0} where
  abbrev pub is_dirty : ScopeStats W → Bool
  is_dirty s = ltb s.ranked_revision s.observed_revision

  unfoldable pub dirty_scopes : List (ScopeStats W) → List (String × ℕ)
  dirty_scopes scopes = map (λ s. (s.scope_key, s.observed_revision)) (keep_if is_dirty scopes)

  abbrev pub revision_of : String → List (ScopeStats W) → ℕ
  revision_of scope [] = 0
  revision_of scope (s ∷ scopes) =
      let rest = revision_of scope scopes in
      if s.scope_key == scope then s.observed_revision else rest

  unfoldable pub mark_ranked : String → ℕ → ℕ → List (ScopeStats W) → List (ScopeStats W)
  mark_ranked scope revision clock scopes =
      map
        (λ s.
          if s.scope_key == scope
          then record s { ranked_revision = revision; ranked_at = some clock }
          else s)
        scopes

  module _ (settings : Settings) (score : List ℕ → Option (ℕ × String)) where
    unfoldable pub rank_scope : Tables W → String → ℕ → ℕ → Option ℕ → Tables W × ℕ
    unfolding candidates_of describe_verdict mark_ranked
    rank_scope t scope now clock ranked_revision =
        let candidates = candidates_of settings scope now t.incidents in
        let hint = describe_verdict t.incidents (score candidates) in
        let revision = consumed ranked_revision (revision_of scope t.scopes) in
        (
          record t {
            incidents =
                map
                  (λ i.
                    if is_in i.incident_id candidates && not (same_hint i.root_cause_hint hint)
                    then record i { root_cause_hint = hint }
                    else i)
                  t.incidents;
            scopes = mark_ranked scope revision clock t.scopes;
          },
          count_if (λ i. is_in i.incident_id candidates && not (same_hint i.root_cause_hint hint))
              t.incidents,
        )

    unfoldable pub rank_scopes : Tables W → List (String × ℕ) → ℕ → ℕ → Tables W × ℕ
    unfolding rank_scope
    rank_scopes t [] now clock = (t, 0)
    rank_scopes t ((scope, revision) ∷ scopes) now clock =
        let (t1, updated) = rank_scope t scope now clock (some revision) in
        let (t2, others) = rank_scopes t1 scopes now clock in (t2, updated + others)

    unfoldable pub sweep_once : Tables W → ℕ → ℕ → Tables W × ℕ
    unfolding dirty_scopes rank_scopes
    sweep_once t now clock = rank_scopes t (dirty_scopes t.scopes) now clock
