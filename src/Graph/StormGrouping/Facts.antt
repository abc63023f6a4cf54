-- ===== src/Graph/StormGrouping/Facts.antt =====
-- graph/storm_grouping.py: the row of a storm says what its members say.
use mathlib.Core.Bool.{false≢true}
use vh26_pixel_perfect.Prelude.{
  ℕ, ◌≤◌, Bool, true, not, ◌≡◌, sym, ◌∙◌, ap, string_eq, nat_eq, ◌==◌, List, [], ◌∷◌, map, keep_if,
  All, ltb, if◌then◌else◌, arith, Bool-cases, List-cases, nat_beq_iff, inl, inr, ◌↔◌, count_if,
}
use vh26_pixel_perfect.Graph.Tables.{Incident, Group, group_open, Tables, Edge}
use vh26_pixel_perfect.Engine.SilenceSweeper.{is_active}
use vh26_pixel_perfect.Graph.Members.{members_of, severity_rank, worst_from}
use vh26_pixel_perfect.Graph.Members.Counts.{
  members_with, count_if-members_of, length-count_if, status_of-open, worst_from-none_before,
  worst_from-of_some,
}
use vh26_pixel_perfect.Graph.StormGrouping.{with_facts, refresh_with, refresh_group}

-- What the row of a group is to say of its members.
pub record IsCurrent (incidents : List Incident) (g : Group) : Type 0 where
  pub counted : g.member_count ≡ members_with (λ _. true) incidents g.group_id
  pub not_empty : 1 ≤ members_with (λ _. true) incidents g.group_id
  pub open_while_active :
      (g.status ≡ group_open) ↔ (1 ≤ members_with (λ i. is_active i.status) incidents g.group_id)
  pub none_worse :
      members_with
        (λ i. ltb (severity_rank i.severity) (severity_rank g.severity))
        incidents
        g.group_id
      ≡ 0
  pub of_a_member : 1 ≤ members_with (λ i. i.severity == g.severity) incidents g.group_id

-- No row of the group is left as it was: the ones that stay are current.
abbrev pub IsRefreshed : List Incident → ℕ → List Group → Type 0
IsRefreshed incidents group groups = All (λ g. g.group_id ≡ group → IsCurrent incidents g) groups

with_facts-IsCurrent :
    (edges : List Edge) (incidents : List Incident) (first : Incident) (rest : List Incident)
    (now : ℕ) (g : Group)
    → members_of incidents g.group_id ≡ first ∷ rest
    → IsCurrent incidents (with_facts edges first rest now g)
unfolding with_facts
with_facts-IsCurrent edges incidents first rest now g members =
    let counts : (test : Incident → Bool)
        → count_if test (first ∷ rest) ≡ members_with test incidents g.group_id =
      λ test. ap (count_if test) (sym members) ∙ count_if-members_of test incidents g.group_id in
    record {
      counted = length-count_if (first ∷ rest) ∙ counts (λ _. true);
      not_empty = omega (arith, counts (λ _. true));
      open_while_active =
          rw (sym (counts (λ i. is_active i.status))) (status_of-open (first ∷ rest));
      none_worse =
          sym (
            counts (λ i.
              ltb (severity_rank i.severity) (severity_rank (worst_from first.severity rest))))
          ∙ worst_from-none_before first rest;
      of_a_member = omega (
        arith,
        counts (λ i. i.severity == worst_from first.severity rest),
        worst_from-of_some first rest,
      );
    }

refreshed-IsCurrent :
    (edges : List Edge) (incidents : List Incident) (first : Incident) (rest : List Incident)
    (now group : ℕ) (g : Group)
    → members_of incidents group ≡ first ∷ rest
    → (if g.group_id == group then with_facts edges first rest now g else g).group_id ≡ group
    → IsCurrent incidents (if g.group_id == group then with_facts edges first rest now g else g)
refreshed-IsCurrent edges incidents first rest now group g members =
    elim (Bool-cases (g.group_id == group)) [
      | inl found ↦ rw found (λ _.
          with_facts-IsCurrent edges incidents first rest now g
            (ap (members_of incidents) ((nat_beq_iff g.group_id group).0 found) ∙ members))
      | inr other ↦
          rw other (λ same. absurd (false≢true (sym other ∙ (nat_beq_iff g.group_id group).1 same)))
    ]

map-IsRefreshed :
    (edges : List Edge) (incidents : List Incident) (first : Incident) (rest : List Incident)
    (now group : ℕ) (groups : List Group)
    → members_of incidents group ≡ first ∷ rest
    → IsRefreshed incidents group
        (map (λ g. if g.group_id == group then with_facts edges first rest now g else g) groups)
map-IsRefreshed edges incidents first rest now group [] members = tt
map-IsRefreshed edges incidents first rest now group (g ∷ groups) members = (
  refreshed-IsCurrent edges incidents first rest now group g members,
  map-IsRefreshed edges incidents first rest now group groups members,
)

keep_if-IsRefreshed :
    (incidents : List Incident) (group : ℕ) (groups : List Group)
    → IsRefreshed incidents group (keep_if (λ g. not (g.group_id == group)) groups)
keep_if-IsRefreshed incidents group [] = tt
keep_if-IsRefreshed incidents group (g ∷ groups) = elim (Bool-cases (g.group_id == group)) [
  | inl found ↦ rw found (keep_if-IsRefreshed incidents group groups)
  | inr other ↦ rw other (
    λ same. absurd (false≢true (sym other ∙ (nat_beq_iff g.group_id group).1 same)),
    keep_if-IsRefreshed incidents group groups,
  )
]

-- Refreshing a storm returns the number of its members, and every row of it that is still stored counts
-- them, is open just while one of them is active, and has the severity of a member that none ranks before.
pub refresh_group-IsRefreshed :
    (t : Tables) (group now : ℕ)
    → ((refresh_group t group now).1 ≡ members_with (λ _. true) t.incidents group)
      × IsRefreshed t.incidents group (refresh_group t group now).0.groups
unfolding refresh_group refresh_with
refresh_group-IsRefreshed t group now = elim (List-cases (members_of t.incidents group)) [
  | inl none_left ↦ rw none_left (
    ap (count_if (λ _. true)) (sym none_left) ∙ count_if-members_of (λ _. true) t.incidents group,
    keep_if-IsRefreshed t.incidents group t.groups,
  )
  | inr (first, rest, e) ↦ rw e (
    length-count_if (first ∷ rest)
        ∙ ap (count_if (λ _. true)) (sym e)
        ∙ count_if-members_of (λ _. true) t.incidents group,
    map-IsRefreshed t.edges t.incidents first rest now group t.groups e,
  )
]
