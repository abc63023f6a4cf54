-- ===== src/Graph/StormGrouping/Union.antt =====
-- graph/storm_grouping.py: placing an incident unites its storm with those of its neighbours.
use mathlib.Core.Bool.{false≢true}
use vh26_pixel_perfect.Prelude.{
  ℕ, Bool, true, false, not, ◌&&◌, ◌||◌, ◌≡◌, ◌≢◌, refl, sym, ◌∙◌, ap, String, nat_eq, ◌==◌, Option,
  none, some, List, [], ◌∷◌, map, keep_if, All, Any-All, All-Any, map_id, map-map, Any, arith,
  List-cases, inl, inr, ◌⊎◌, ◌↔◌,
}
use vh26_pixel_perfect.Graph.Tables.{Incident, Tables}
use vh26_pixel_perfect.Graph.Neighbours.{is_in, strong_neighbours}
use vh26_pixel_perfect.Graph.Merging.{groups_of, belongs_to, regroup, merge_groups}
use vh26_pixel_perfect.Graph.Merging.Membership.{is_in-oldest_group, regroup-moved, regroup-regroup}
use vh26_pixel_perfect.Graph.Members.{members_of}
use vh26_pixel_perfect.Graph.StormGrouping.Joined.{
  shares, is_joined, shares-moved, is_joined_closed,
}
use vh26_pixel_perfect.Graph.StormGrouping.{
  refresh_with, refresh_group, chosen_group, join_group, assign_with, assign_group,
}

-- The group that they all go to.
abbrev pub survivor : Tables → ℕ → String → List ℕ → ℕ → ℕ → ℕ
survivor t id scope neighbours fresh now =
    (chosen_group t id scope neighbours fresh now (groups_of t.incidents (id ∷ neighbours))).0

chosen_group_not_elsewhere :
    (t : Tables) (id : ℕ) (scope : String) (neighbours : List ℕ) (fresh now : ℕ) (existing : List ℕ)
    (c : Option ℕ)
    → c ≢ some fresh
    → belongs_to existing c ≡ false
    → c ≢ some (chosen_group t id scope neighbours fresh now existing).0
unfolding chosen_group
chosen_group_not_elsewhere t id scope neighbours fresh now [] c unused apart e = unused e
chosen_group_not_elsewhere t id scope neighbours fresh now (g ∷ gs) c unused apart e =
    false≢true (sym apart ∙ ap (belongs_to (g ∷ gs)) e ∙ is_in-oldest_group t g gs)

belongs_to_none : (c : Option ℕ) → belongs_to [] c ≡ false
belongs_to_none none = refl
belongs_to_none (some g) = refl

chosen_group-incidents :
    (t : Tables) (id : ℕ) (scope : String) (neighbours : List ℕ) (fresh now : ℕ) (existing : List ℕ)
    → (let (group, _, chosen) = chosen_group t id scope neighbours fresh now existing in
        chosen.incidents
        ≡ map
            (regroup
              (λ i. belongs_to (keep_if (λ h. not (h == group)) existing) i.correlation_group_id)
              group)
            t.incidents)
unfolding chosen_group merge_groups
chosen_group-incidents t id scope neighbours fresh now [] =
    map_id (regroup (λ i. belongs_to [] i.correlation_group_id) fresh)
      (λ i. rw (belongs_to_none i.correlation_group_id) refl) t.incidents
chosen_group-incidents t id scope neighbours fresh now (g ∷ gs) = refl

refresh_group-incidents :
    (t : Tables) (group now : ℕ) → (refresh_group t group now).0.incidents ≡ t.incidents
unfolding refresh_group refresh_with
refresh_group-incidents t group now = elim (List-cases (members_of t.incidents group)) [
  | inl e ↦ rw e refl
  | inr (first, rest, e) ↦ rw e refl
]

-- The incidents after an incident with neighbours is placed.
assign_with-incidents :
    (t : Tables) (id : ℕ) (scope : String) (neighbours : List ℕ) (fresh now : ℕ)
    → (assign_with t id scope neighbours fresh now).0.incidents
      ≡ map
          (regroup (is_joined t (id ∷ neighbours)) (survivor t id scope neighbours fresh now))
          t.incidents
unfolding assign_with join_group
assign_with-incidents t id scope neighbours fresh now =
    let members = id ∷ neighbours in
    let existing = groups_of t.incidents members in
    let (group, created, chosen) = chosen_group t id scope neighbours fresh now existing in
    refresh_group-incidents (join_group chosen group members) group now
    ∙ ap
        (map (
          regroup
            (λ i.
              is_in i.incident_id members && not (belongs_to (group ∷ []) i.correlation_group_id))
            group))
        (chosen_group-incidents t id scope neighbours fresh now existing)
    ∙ map-map
        (regroup
          (λ i. is_in i.incident_id members && not (belongs_to (group ∷ []) i.correlation_group_id))
          group)
        (regroup (λ i. belongs_to (keep_if (λ h. not (h == group)) existing) i.correlation_group_id)
          group)
        (regroup (is_joined t members) group) (regroup-regroup members existing group) t.incidents

or-false_right : (a : Bool) {b : Bool} → a || b ≡ false → b ≡ false
or-false_right a h = ground arith

regroup-shares :
    (t : Tables) (id : ℕ) (scope : String) (neighbours : List ℕ) (fresh now : ℕ)
    → All (λ i. i.correlation_group_id ≢ some fresh) t.incidents
    → (i j : Incident) → Any (λ x. x ≡ i) t.incidents
    → Any (λ x. x ≡ j) t.incidents
    → (let after =
          regroup (is_joined t (id ∷ neighbours)) (survivor t id scope neighbours fresh now) in
        (shares (after i).correlation_group_id (after j).correlation_group_id ≡ true) ↔ (
          (shares i.correlation_group_id j.correlation_group_id ≡ true)
          ⊎ ((is_joined t (id ∷ neighbours) i ≡ true) × (is_joined t (id ∷ neighbours) j ≡ true))))
regroup-shares t id scope neighbours fresh now unused i j si sj =
    let members = id ∷ neighbours in
    let group = survivor t id scope neighbours fresh now in
    let elsewhere : (x : Incident)
        → Any (λ y. y ≡ x) t.incidents
        → is_joined t members x ≡ false
        → x.correlation_group_id ≢ some group =
      λ x stored apart.
        chosen_group_not_elsewhere t id scope neighbours fresh now (groups_of t.incidents members)
          x.correlation_group_id
          (Any-All (λ y. y.correlation_group_id ≢ some fresh) t.incidents unused x stored)
          (or-false_right (is_in x.incident_id members) apart) in
    rw (regroup-moved (is_joined t members) group i, regroup-moved (is_joined t members) group j)
      (shares-moved (is_joined t members i) (is_joined t members j) group i.correlation_group_id
        j.correlation_group_id (is_joined_closed t members i j si sj) (elsewhere i si)
        (elsewhere j sj))

-- The incidents that are moved are one storm afterwards, and the others are as they were.
abbrev pub Unites : ℕ → Tables → ℕ → String → ℕ → ℕ → List ℕ → Type 0
Unites threshold t id scope fresh now neighbours =
    let joined = is_joined t (id ∷ neighbours) in
    let after = regroup joined (survivor t id scope neighbours fresh now) in
    ((assign_group threshold t id scope fresh now).0.incidents ≡ map after t.incidents)
    × All
        (λ i.
          All
            (λ j. (shares (after i).correlation_group_id (after j).correlation_group_id ≡ true) ↔ (
              (shares i.correlation_group_id j.correlation_group_id ≡ true)
              ⊎ ((joined i ≡ true) × (joined j ≡ true))))
            t.incidents)
        t.incidents

-- When an incident has strong neighbours and no stored incident has the id for a new group, placing the
-- incident sends exactly those incidents to one group that are it, a neighbour, or of the group of one of
-- them, and changes no other column of an incident: two stored incidents are of one storm afterwards
-- just if they were before or both are among those that were sent.
pub assign_group-Unites :
    (threshold : ℕ) (t : Tables) (id : ℕ) (scope : String) (fresh now n : ℕ) (ns : List ℕ)
    → strong_neighbours threshold t id scope ≡ n ∷ ns
    → All (λ i. i.correlation_group_id ≢ some fresh) t.incidents
    → Unites threshold t id scope fresh now (n ∷ ns)
unfolding assign_group
assign_group-Unites threshold t id scope fresh now n ns e unused = (
  rw (assign_group, e) (assign_with-incidents t id scope (n ∷ ns) fresh now),
  All-Any _ t.incidents (λ i si.
      All-Any _ t.incidents
        (λ j sj. regroup-shares t id scope (n ∷ ns) fresh now unused i j si sj)),
)
