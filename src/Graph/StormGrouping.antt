-- ===== src/Graph/StormGrouping.antt =====
-- graph/storm_grouping.py: placing an incident into a storm and refreshing the storm of a member. The UUID of
-- a new group and the clock are arguments.
pub mod Joined
pub mod Union
pub mod Facts
mod Tests
use vh26_pixel_perfect.Prelude.{
  ℕ, ◌+◌, Bool, true, false, ◌&&◌, ◌||◌, not, String, string_eq, nat_eq, ◌==◌, Option, none, some,
  List, [], ◌∷◌, ◌++◌, map, any, keep_if, length, take, ltb, leb, if◌then◌else◌,
}
use vh26_pixel_perfect.Graph.Tables.{
  Incident, Edge, GroupStatus, group_open, group_resolved, Group, Tables, GroupAssignment,
}
use vh26_pixel_perfect.Graph.Neighbours.{is_in, strong_neighbours}
use vh26_pixel_perfect.Graph.Merging.{groups_of, oldest_group, belongs_to, regroup, merge_groups}
use vh26_pixel_perfect.Graph.Members.{
  in_order, worst_from, rank_group_root, title_of, status_of, members_of,
}

-- The facts that are derived from the members.
unfoldable pub with_facts : List Edge → Incident → List Incident → ℕ → Group → Group
with_facts edges first rest now g = record g {
  root_incident_id = rank_group_root edges (map (λ m. m.incident_id) (first ∷ rest));
  title =
      title_of first (first ∷ rest)
        (rank_group_root edges (map (λ m. m.incident_id) (first ∷ rest)));
  severity = worst_from first.severity rest;
  member_count = length (first ∷ rest);
  status = status_of (first ∷ rest);
  updated_at = now;
}

unfoldable pub refresh_with : Tables → ℕ → ℕ → List Incident → Tables × ℕ
refresh_with t group now [] =
    (record t { groups = keep_if (λ g. not (g.group_id == group)) t.groups }, 0)
refresh_with t group now (first ∷ rest) = (
  record t {
    groups =
        map (λ g. if g.group_id == group then with_facts t.edges first rest now g else g) t.groups;
  },
  length (first ∷ rest),
)

unfoldable pub refresh_group : Tables → ℕ → ℕ → Tables × ℕ
refresh_group t group now = refresh_with t group now (members_of t.incidents group)

-- The anchor of a group, if its row is stored.
unfoldable pub anchor_of : List Group → ℕ → Option ℕ
anchor_of [] group = none
anchor_of (g ∷ groups) group =
    let rest = anchor_of groups group in
    if g.group_id == group then some g.anchor_incident_id else rest

abbrev pub id_of_first : List Incident → ℕ → ℕ
id_of_first [] default = default
id_of_first (i ∷ _) default = i.incident_id

-- INSERT INTO incident_groups, with the defaults of its columns
unfoldable pub new_group : ℕ → String → ℕ → ℕ → Group
new_group group scope anchor now = record {
  group_id = group;
  scope_key = scope;
  anchor_incident_id = anchor;
  root_incident_id = none;
  title = ("", 0);
  severity = "medium";
  member_count = 1;
  status = group_open;
  created_at = now;
  updated_at = now;
}

-- The group that the incident and its neighbours join, whether it is new, and the tables with it.
unfoldable pub chosen_group : Tables → ℕ → String → List ℕ → ℕ → ℕ → List ℕ → ℕ × Bool × Tables
chosen_group t id scope neighbours fresh now [] =
    let anchor =
      id_of_first (in_order (keep_if (λ i. is_in i.incident_id (id ∷ neighbours)) t.incidents))
        id in
    (fresh, true, record t { groups = t.groups ++ new_group fresh scope anchor now ∷ [] })
chosen_group t id scope neighbours fresh now (g ∷ gs) =
    let group = oldest_group t g gs in
    (group, false, merge_groups t group (keep_if (λ h. not (h == group)) (g ∷ gs)))

-- UPDATE incidents SET correlation_group_id
unfoldable pub join_group : Tables → ℕ → List ℕ → Tables
join_group t group members = record t {
  incidents =
      map
        (regroup
          (λ i. is_in i.incident_id members && not (belongs_to (group ∷ []) i.correlation_group_id))
          group)
        t.incidents;
}

abbrev pub assignment : ℕ → ℕ → Bool → Option ℕ → Option GroupAssignment
assignment group count created none = none
assignment group count created (some anchor) = some (record {
  group_id = group;
  anchor_incident_id = anchor;
  member_count = count;
  created = created;
})

abbrev pub is_multi_member : GroupAssignment → Bool
is_multi_member a = ltb 1 a.member_count

-- An incident with neighbours.
unfoldable pub assign_with : Tables → ℕ → String → List ℕ → ℕ → ℕ → Tables × Option GroupAssignment
assign_with t id scope neighbours fresh now =
    let (group, created, t1) =
      chosen_group t id scope neighbours fresh now (groups_of t.incidents (id ∷ neighbours)) in
    let (t2, count) = refresh_group (join_group t1 group (id ∷ neighbours)) group now in
    (t2, assignment group count created (anchor_of t2.groups group))

unfoldable pub assign_group : ℕ → Tables → ℕ → String → ℕ → ℕ → Tables × Option GroupAssignment
unfolding assign_with
assign_group threshold t id scope fresh now = elim (strong_neighbours threshold t id scope) [
  | [] ↦ (t, none)
  | n ∷ ns ↦ assign_with t id scope (n ∷ ns) fresh now
]

-- The group of an incident, if it is stored and has one.
unfoldable pub group_of : List Incident → ℕ → Option ℕ
group_of [] id = none
group_of (i ∷ incidents) id =
    let rest = group_of incidents id in if i.incident_id == id then i.correlation_group_id else rest

abbrev pub assignment_unless_empty : ℕ → ℕ → Option ℕ → Option GroupAssignment
assignment_unless_empty group count anchor =
    if count == 0 then none else assignment group count false anchor

unfoldable pub refresh_group_for_member : Tables → ℕ → ℕ → Tables × Option GroupAssignment
refresh_group_for_member t id now = elim (group_of t.incidents id) [
  | none ↦ (t, none)
  | some group ↦
      let (t2, count) = refresh_group t group now in
      (t2, assignment_unless_empty group count (anchor_of t2.groups group))
]
