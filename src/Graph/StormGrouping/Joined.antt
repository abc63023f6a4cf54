-- ===== src/Graph/StormGrouping/Joined.antt =====
-- graph/storm_grouping.py: which incidents are of one storm, and which are moved together.
use mathlib.Core.Bool.{false≢true}
use vh26_pixel_perfect.Prelude.{
  ℕ, Bool, true, false, ◌||◌, ◌≡◌, ◌≢◌, refl, sym, ◌∙◌, ap, nat_eq, nat_beq_iff, Option, none, some,
  List, [], ◌∷◌, Any, arith, Bool-cases, inl, inr, ◌⊎◌, ◌↔◌,
}
use vh26_pixel_perfect.Graph.Tables.{Incident, Tables}
use vh26_pixel_perfect.Graph.Neighbours.{is_in}
use vh26_pixel_perfect.Graph.Merging.{groups_of, belongs_to}
use vh26_pixel_perfect.Graph.Merging.Membership.{groups_of_complete, moved}

-- Whether two incidents are of one storm.
abbrev pub shares : Option ℕ → Option ℕ → Bool
shares none d = false
shares (some g) d = belongs_to (g ∷ []) d

-- Whether placing an incident with these neighbours moves another one.
abbrev pub is_joined : Tables → List ℕ → Incident → Bool
is_joined t members i =
    is_in i.incident_id members || belongs_to (groups_of t.incidents members) i.correlation_group_id

shares-some : (g : ℕ) (d : Option ℕ) → shares (some g) d ≡ true → d ≡ some g
shares-some g (some k) h = ap some (sym ((nat_beq_iff g k).0 (ground arith)))
shares-some g none h = absurd (false≢true h)

shares_inv : (c d : Option ℕ) → shares c d ≡ true → (g : ℕ) × (c ≡ some g) × (d ≡ some g)
shares_inv (some g) d h = (g, refl, shares-some g d h)
shares_inv none d h = absurd (false≢true h)

shares_same : (g : ℕ) → shares (some g) (some g) ≡ true
shares_same g = ground arith

shares_sym : (c d : Option ℕ) → shares c d ≡ true → shares d c ≡ true
shares_sym c d h = let (g, e, k) = shares_inv c d h in rw (e, k) (shares_same g)

pub shares-moved :
    (p q : Bool) (group : ℕ) (c d : Option ℕ)
    → (shares c d ≡ true → p ≡ q)
    → (p ≡ false → c ≢ some group)
    → (q ≡ false → d ≢ some group)
    → (shares (moved p group c) (moved q group d) ≡ true)
      ↔ ((shares c d ≡ true) ⊎ ((p ≡ true) × (q ≡ true)))
shares-moved true true group c d closed hc hd = (λ _. inr (refl, refl), λ _. shares_same group)
shares-moved true false group c d closed hc hd = (
  λ h. absurd (hd refl (shares-some group d h)),
  λ h. elim h [ inl s ↦ absurd (false≢true (sym (closed s))) | inr (_, q) ↦ absurd (false≢true q) ],
)
shares-moved false true group c d closed hc hd = (
  λ h. absurd (hc refl (shares-some group c (shares_sym c (some group) h))),
  λ h. elim h [ inl s ↦ absurd (false≢true (closed s)) | inr (p, _) ↦ absurd (false≢true p) ],
)
shares-moved false false group c d closed hc hd =
    (λ h. inl h, λ h. elim h [ inl s ↦ s | inr (p, _) ↦ absurd (false≢true p) ])

or-false_left : {a b : Bool} → a ≡ false → a || b ≡ true → b ≡ true
or-false_left h k = ground arith

or-true_right : (a : Bool) {b : Bool} → b ≡ true → a || b ≡ true
or-true_right a h = ground arith

both-true : {a b : Bool} → (a ≡ true → b ≡ true) → (b ≡ true → a ≡ true) → a ≡ b
both-true to from = ground arith

is_joined-group :
    (t : Tables) (members : List ℕ) (i : Incident) (g : ℕ)
    → Any (λ x. x ≡ i) t.incidents
    → i.correlation_group_id ≡ some g
    → is_joined t members i ≡ true
    → is_in g (groups_of t.incidents members) ≡ true
is_joined-group t members i g stored e joined = elim (Bool-cases (is_in i.incident_id members)) [
  | inl member ↦ groups_of_complete t.incidents members i g stored member e
  | inr other ↦
      let with_g : is_in i.incident_id members
            || belongs_to (groups_of t.incidents members) (some g)
          ≡ true =
        ap (λ c. is_in i.incident_id members || belongs_to (groups_of t.incidents members) c)
          (sym e)
        ∙ joined in
      or-false_left other with_g
]

is_joined-shares :
    (t : Tables) (members : List ℕ) (i j : Incident)
    → Any (λ x. x ≡ i) t.incidents
    → shares i.correlation_group_id j.correlation_group_id ≡ true
    → is_joined t members i ≡ true
    → is_joined t members j ≡ true
is_joined-shares t members i j stored h joined =
    let (g, e, k) = shares_inv i.correlation_group_id j.correlation_group_id h in
    let found = is_joined-group t members i g stored e joined in
    ap (λ c. is_in j.incident_id members || belongs_to (groups_of t.incidents members) c) k
    ∙ or-true_right (is_in j.incident_id members) found

pub is_joined_closed :
    (t : Tables) (members : List ℕ) (i j : Incident)
    → Any (λ x. x ≡ i) t.incidents
    → Any (λ x. x ≡ j) t.incidents
    → shares i.correlation_group_id j.correlation_group_id ≡ true
    → is_joined t members i ≡ is_joined t members j
is_joined_closed t members i j si sj h =
    let to = is_joined-shares t members i j si h in
    let from =
      is_joined-shares t members j i sj
        (shares_sym i.correlation_group_id j.correlation_group_id h) in
    both-true to from
