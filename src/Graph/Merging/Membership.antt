-- ===== src/Graph/Merging/Membership.antt =====
-- graph/storm_grouping.py: which groups are merged, and where the incidents of them go.
use vh26_pixel_perfect.Prelude.{
  ℕ, Bool, true, false, not, ◌&&◌, ◌||◌, ◌≡◌, refl, sym, ◌∙◌, ap, nat_eq, ◌==◌, nat_beq_iff, Option,
  none, some, List, [], ◌∷◌, keep_if, Any, if◌then◌else◌, arith, Bool-cases, inl, inr,
}
use vh26_pixel_perfect.Graph.Tables.{Incident, Group, Tables}
use vh26_pixel_perfect.Graph.Neighbours.{is_in}
use vh26_pixel_perfect.Graph.Merging.{
  with_group, groups_of, older, oldest_of, id_of_oldest, oldest_group, belongs_to, regroup,
}

pub is_in-keep_if :
    (x group : ℕ) (groups : List ℕ)
    → is_in x (keep_if (λ h. not (h == group)) groups) ≡ is_in x groups && not (x == group)
is_in-keep_if x group [] = refl
is_in-keep_if x group (h ∷ groups) = elim (Bool-cases (h == group)) [
  | inl found ↦ rw found (ground (arith, is_in-keep_if x group groups))
  | inr other ↦ rw other (ground (arith, is_in-keep_if x group groups))
]

is_in-with_group :
    (g : ℕ) (o : Option ℕ) (found : List ℕ)
    → belongs_to (g ∷ []) o || is_in g found ≡ true
    → is_in g (with_group o found) ≡ true
is_in-with_group g none found h = ground arith
is_in-with_group g (some k) found h = elim (Bool-cases (is_in k found)) [
  | inl seen ↦ rw seen (elim (Bool-cases (g == k)) [
    | inl same ↦ ap (λ n. is_in n found) ((nat_beq_iff g k).0 same) ∙ seen
    | inr other ↦ ground arith
  ])
  | inr unseen ↦ rw unseen (ground arith)
]

-- The group of a stored incident with one of the ids is among the groups of the ids.
pub groups_of_complete :
    (incidents : List Incident) (ids : List ℕ) (i : Incident) (g : ℕ)
    → Any (λ x. x ≡ i) incidents
    → is_in i.incident_id ids ≡ true
    → i.correlation_group_id ≡ some g
    → is_in g (groups_of incidents ids) ≡ true
unfolding groups_of
groups_of_complete [] ids i g stored member e = elim stored [ ]
groups_of_complete (x ∷ incidents) ids i g (inl same) member e =
    rw (ap (λ y. is_in y.incident_id ids) same ∙ member) (
      is_in-with_group g x.correlation_group_id (groups_of incidents ids)
        (rw (ap (λ y. y.correlation_group_id) same ∙ e) (ground arith)))
groups_of_complete (x ∷ incidents) ids i g (inr later) member e =
    let found = groups_of_complete incidents ids i g later member e in
    elim (Bool-cases (is_in x.incident_id ids)) [
      | inl also ↦
          rw also
            (is_in-with_group g x.correlation_group_id (groups_of incidents ids) (ground arith))
      | inr not_one ↦ rw not_one found
    ]

is_in-older :
    (ids : List ℕ) (g k : Group)
    → is_in g.group_id ids ≡ true
    → is_in k.group_id ids ≡ true
    → is_in (if older k g then k else g).group_id ids ≡ true
is_in-older ids g k h q = elim (Bool-cases (older k g)) [ inl e ↦ rw e q | inr e ↦ rw e h ]

is_in-oldest_of :
    (ids : List ℕ) (g : Group) (groups : List Group)
    → is_in g.group_id ids ≡ true
    → is_in (oldest_of g (keep_if (λ h. is_in h.group_id ids) groups)).group_id ids ≡ true
is_in-oldest_of ids g [] h = h
is_in-oldest_of ids g (k ∷ groups) h = elim (Bool-cases (is_in k.group_id ids)) [
  | inl kept ↦
      rw kept (is_in-oldest_of ids (if older k g then k else g) groups (is_in-older ids g k h kept))
  | inr left_out ↦ rw left_out (is_in-oldest_of ids g groups h)
]

is_in-id_of_oldest :
    (ids : List ℕ) (default : ℕ) (groups : List Group)
    → is_in default ids ≡ true
    → is_in (id_of_oldest (keep_if (λ h. is_in h.group_id ids) groups) default) ids ≡ true
is_in-id_of_oldest ids default [] h = h
is_in-id_of_oldest ids default (k ∷ groups) h = elim (Bool-cases (is_in k.group_id ids)) [
  | inl kept ↦ rw kept (is_in-oldest_of ids k groups kept)
  | inr left_out ↦ rw left_out (is_in-id_of_oldest ids default groups h)
]

-- The group that the others are merged into is one of them.
pub is_in-oldest_group :
    (t : Tables) (first : ℕ) (rest : List ℕ)
    → is_in (oldest_group t first rest) (first ∷ rest) ≡ true
unfolding oldest_group
is_in-oldest_group t first rest = is_in-id_of_oldest (first ∷ rest) first t.groups (ground arith)

abbrev pub moved : Bool → ℕ → Option ℕ → Option ℕ
moved test group c = if test then some group else c

pub regroup-moved :
    (test : Incident → Bool) (group : ℕ) (i : Incident)
    → regroup test group i
      ≡ record i { correlation_group_id = moved (test i) group i.correlation_group_id }
regroup-moved test group i = elim (Bool-cases (test i)) [ inl e ↦ rw e refl | inr e ↦ rw e refl ]

moved_same : (test : Bool) (group : ℕ) → moved test group (some group) ≡ some group
moved_same true group = refl
moved_same false group = refl

or-true : (b : Bool) → b || true ≡ true
or-true b = ground arith

and-or : (b : Bool) → b && true ≡ b || false
and-or b = ground arith

moved-moved :
    (member : Bool) (existing : List ℕ) (group : ℕ) (c : Option ℕ)
    → (let first = moved (belongs_to (keep_if (λ h. not (h == group)) existing) c) group c in
        moved (member && not (belongs_to (group ∷ []) first)) group first)
      ≡ moved (member || belongs_to existing c) group c
moved-moved true existing group none = refl
moved-moved false existing group none = refl
moved-moved member existing group (some g) = elim (Bool-cases (g == group)) [
  | inl same ↦
      let e : g ≡ group = (nat_beq_iff g group).0 same in
      let kept : is_in g (keep_if (λ h. not (h == group)) existing) ≡ false =
        ground (arith, is_in-keep_if g group existing) in
      rw (kept, e)
        (moved_same (member && not (is_in group (group ∷ []))) group
          ∙ sym (moved_same (member || is_in group existing) group))
  | inr other ↦
      let kept : is_in g (keep_if (λ h. not (h == group)) existing) ≡ is_in g existing =
        ground (arith, is_in-keep_if g group existing) in
      let apart : group == g ≡ false = ground arith in
      elim (Bool-cases (is_in g existing)) [
        | inl found ↦
            rw (kept, found)
              (moved_same (member && not (is_in group (group ∷ []))) group
                ∙ sym (ap (λ b. moved b group (some g)) (or-true member)))
        | inr unknown ↦ rw (kept, unknown, apart) (ap (λ b. moved b group (some g)) (and-or member))
      ]
]

-- Moving the incidents of the groups other than the survivor, and then the new members, moves those that
-- are a new member or of one of the groups.
pub regroup-regroup :
    (members existing : List ℕ) (group : ℕ) (i : Incident)
    → regroup
        (λ x. is_in x.incident_id members && not (belongs_to (group ∷ []) x.correlation_group_id))
        group
        (regroup
          (λ x. belongs_to (keep_if (λ h. not (h == group)) existing) x.correlation_group_id)
          group
          i)
      ≡ regroup
          (λ x. is_in x.incident_id members || belongs_to existing x.correlation_group_id)
          group
          i
regroup-regroup members existing group i =
    let is_absorbed : Incident → Bool =
      λ x. belongs_to (keep_if (λ h. not (h == group)) existing) x.correlation_group_id in
    let is_new : Incident → Bool =
      λ x. is_in x.incident_id members && not (belongs_to (group ∷ []) x.correlation_group_id) in
    let placed : Option ℕ → Incident = λ c. record i { correlation_group_id = c } in
    let renew : Incident → Incident =
      λ x. record x { correlation_group_id = moved (is_new x) group x.correlation_group_id } in
    regroup-moved is_new group (regroup is_absorbed group i)
    ∙ ap renew (regroup-moved is_absorbed group i)
    ∙ ap placed (moved-moved (is_in i.incident_id members) existing group i.correlation_group_id)
    ∙ sym (
        regroup-moved
          (λ x. is_in x.incident_id members || belongs_to existing x.correlation_group_id) group i)
