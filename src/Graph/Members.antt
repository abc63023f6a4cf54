-- ===== src/Graph/Members.antt =====
-- graph/storm_grouping.py: the members of a storm, its severity, status and likely root.
pub mod Counts
use vh26_pixel_perfect.Prelude.{
  ℕ, ◌+◌, Bool, true, false, ◌&&◌, ◌||◌, not, String, string_eq, nat_eq, ◌==◌, Option, none, some,
  List, [], ◌∷◌, ◌++◌, map, any, keep_if, length, take, ltb, leb, if◌then◌else◌,
}
use vh26_pixel_perfect.Engine.SilenceSweeper.{is_active}
use vh26_pixel_perfect.Graph.Tables.{
  Incident, Edge, GroupStatus, group_open, group_resolved, Group, Tables, GroupAssignment,
}
use vh26_pixel_perfect.Graph.Neighbours.{is_in}
use vh26_pixel_perfect.Graph.Merging.{belongs_to}

-- ORDER BY first_alert_at, incident_id
abbrev pub earlier : Incident → Incident → Bool
earlier i j =
    ltb i.first_alert_at j.first_alert_at
    || i.first_alert_at == j.first_alert_at && ltb i.incident_id j.incident_id

unfoldable pub insert_earlier : Incident → List Incident → List Incident
insert_earlier i [] = i ∷ []
insert_earlier i (j ∷ rest) = if earlier j i then j ∷ insert_earlier i rest else i ∷ j ∷ rest

unfoldable pub in_order : List Incident → List Incident
unfolding insert_earlier
in_order [] = []
in_order (i ∷ incidents) = insert_earlier i (in_order incidents)

-- _SEVERITY_RANK, with 99 for another severity
unfoldable pub severity_rank : String → ℕ
severity_rank severity =
    if severity == "critical"
    then 0
    else if severity == "high"
    then 1
    else if severity == "medium"
    then 2
    else if severity == "low"
    then 3
    else 99

-- min(severities, key=rank): the first of the least.
unfoldable pub worse : String → String → String
worse severity worst =
    if ltb (severity_rank severity) (severity_rank worst) then severity else worst

unfoldable pub worst_from : String → List Incident → String
unfolding worse
worst_from worst [] = worst
worst_from worst (i ∷ members) = worst_from (worse i.severity worst) members

abbrev pub sum_weights : List Edge → ℕ
sum_weights [] = 0
sum_weights (e ∷ edges) = e.weight + sum_weights edges

-- The edges from an incident to the members.
unfoldable pub edges_inside : ℕ → List ℕ → List Edge → List Edge
edges_inside id member_ids edges = keep_if (λ e. e.src == id && is_in e.dst member_ids) edges

-- SUM(weight) of an incident with an edge inside.
unfoldable pub outbound : ℕ → List ℕ → List Edge → Option ℕ
unfolding edges_inside
outbound id member_ids edges = elim (edges_inside id member_ids edges) [
  | [] ↦ none
  | e ∷ rest ↦ some (sum_weights (e ∷ rest))
]

-- ORDER BY outbound DESC, src_incident_id
abbrev pub leads : ℕ × ℕ → Option (ℕ × ℕ) → Bool
leads (id, w) none = true
leads (id, w) (some (j, v)) = ltb v w || w == v && ltb id j

abbrev pub leading : Option (ℕ × ℕ) → ℕ → Option ℕ → Option (ℕ × ℕ)
leading best id none = best
leading best id (some w) = if leads (id, w) best then some (id, w) else best

unfoldable pub leader : List ℕ → List ℕ → List Edge → Option (ℕ × ℕ)
unfolding outbound
leader [] member_ids edges = none
leader (id ∷ ids) member_ids edges =
    leading (leader ids member_ids edges) id (outbound id member_ids edges)

unfoldable pub rank_group_root : List Edge → List ℕ → Option ℕ
unfolding leader
rank_group_root edges [] = none
rank_group_root edges (first ∷ rest) = elim (leader (first ∷ rest) (first ∷ rest) edges) [
  | none ↦ some first
  | some (id, w) ↦ some id
]

abbrev pub status_of : List Incident → GroupStatus
status_of members = if any (λ m. is_active m.status) members then group_open else group_resolved

unfoldable pub members_of : List Incident → ℕ → List Incident
members_of incidents group =
    in_order (keep_if (λ i. belongs_to (group ∷ []) i.correlation_group_id) incidents)

-- The title of the member that is the root, or else of the first.
abbrev pub title_from : String → ℕ → List Incident → String
title_from default root [] = default
title_from default root (m ∷ members) =
    let rest = title_from default root members in if m.incident_id == root then m.title else rest

abbrev pub title_of : Incident → List Incident → Option ℕ → String × ℕ
title_of first rest none = (first.title, length rest)
title_of first rest (some root) = (title_from first.title root (first ∷ rest), length rest)
