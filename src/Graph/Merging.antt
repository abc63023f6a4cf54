-- ===== src/Graph/Merging.antt =====
-- graph/storm_grouping.py: the groups that storms join and the merge of several into the oldest.
pub mod Membership
use vh26_pixel_perfect.Prelude.{
  ℕ, ◌+◌, Bool, true, false, ◌&&◌, ◌||◌, not, String, string_eq, nat_eq, ◌==◌, Option, none, some,
  List, [], ◌∷◌, ◌++◌, map, any, keep_if, length, take, ltb, leb, if◌then◌else◌,
}
use vh26_pixel_perfect.Graph.Tables.{
  Incident, Edge, GroupStatus, group_open, group_resolved, Group, Tables, GroupAssignment,
}
use vh26_pixel_perfect.Graph.Neighbours.{is_in}

-- SELECT DISTINCT correlation_group_id of the incidents with these ids
abbrev pub with_group : Option ℕ → List ℕ → List ℕ
with_group none found = found
with_group (some g) found = if is_in g found then found else g ∷ found

unfoldable pub groups_of : List Incident → List ℕ → List ℕ
groups_of [] ids = []
groups_of (i ∷ incidents) ids =
    let found = groups_of incidents ids in
    if is_in i.incident_id ids then with_group i.correlation_group_id found else found

-- ORDER BY created_at, group_id
abbrev pub older : Group → Group → Bool
older g h =
    ltb g.created_at h.created_at || g.created_at == h.created_at && ltb g.group_id h.group_id

abbrev pub oldest_of : Group → List Group → Group
oldest_of g [] = g
oldest_of g (h ∷ groups) = oldest_of (if older h g then h else g) groups

abbrev pub id_of_oldest : List Group → ℕ → ℕ
id_of_oldest [] default = default
id_of_oldest (g ∷ groups) default = (oldest_of g groups).group_id

unfoldable pub oldest_group : Tables → ℕ → List ℕ → ℕ
oldest_group t first rest =
    id_of_oldest (keep_if (λ g. is_in g.group_id (first ∷ rest)) t.groups) first

abbrev pub belongs_to : List ℕ → Option ℕ → Bool
belongs_to groups none = false
belongs_to groups (some g) = is_in g groups

abbrev pub regroup : (Incident → Bool) → ℕ → Incident → Incident
regroup test group i = if test i then record i { correlation_group_id = some group } else i

unfoldable pub merge_groups : Tables → ℕ → List ℕ → Tables
merge_groups t survivor absorbed = record t {
  incidents = map (regroup (λ i. belongs_to absorbed i.correlation_group_id) survivor) t.incidents;
  groups = keep_if (λ g. not (is_in g.group_id absorbed)) t.groups;
}
