-- ===== src/Graph/Members/Counts.antt =====
-- graph/storm_grouping.py: what the members of a storm add up to, whatever their order.
use vh26_pixel_perfect.Prelude.{
  ℕ, ◌+◌, ◌≤◌, Bool, true, false, ◌&&◌, ◌≡◌, refl, sym, ◌∙◌, String, string_eq, ◌==◌, List, [], ◌∷◌,
  any, keep_if, length, count_if, ltb, if◌then◌else◌, arith, Bool-cases, inl, inr, ◌⊎◌, ◌↔◌,
}
use vh26_pixel_perfect.Graph.Tables.{Incident, group_open}
use vh26_pixel_perfect.Engine.SilenceSweeper.{is_active}
use vh26_pixel_perfect.Graph.Merging.{belongs_to}
use vh26_pixel_perfect.Graph.Members.{
  insert_earlier, in_order, earlier, members_of, severity_rank, worse, worst_from, status_of,
}

-- The number of the members of a group that pass a test.
abbrev pub members_with : (Incident → Bool) → List Incident → ℕ → ℕ
members_with test incidents group =
    count_if (λ i. belongs_to (group ∷ []) i.correlation_group_id && test i) incidents

count_if-insert_earlier :
    (test : Incident → Bool) (i : Incident) (incidents : List Incident)
    → count_if test (insert_earlier i incidents) ≡ count_if test (i ∷ incidents)
unfolding insert_earlier
count_if-insert_earlier test i [] = refl
count_if-insert_earlier test i (j ∷ rest) = elim (Bool-cases (earlier j i)) [
  | inl e ↦ rw e (omega (arith, count_if-insert_earlier test i rest))
  | inr e ↦ rw e (refl)
]

count_if-in_order :
    (test : Incident → Bool) (incidents : List Incident)
    → count_if test (in_order incidents) ≡ count_if test incidents
unfolding in_order
count_if-in_order test [] = refl
count_if-in_order test (i ∷ incidents) =
    omega
      (arith, count_if-insert_earlier test i (in_order incidents), count_if-in_order test incidents)

count_if-keep_if :
    (p q : Incident → Bool) (incidents : List Incident)
    → count_if q (keep_if p incidents) ≡ count_if (λ i. p i && q i) incidents
count_if-keep_if p q [] = refl
count_if-keep_if p q (i ∷ incidents) = elim (Bool-cases (p i)) [
  | inl e ↦ rw e (omega (arith, count_if-keep_if p q incidents))
  | inr e ↦ rw e (omega (arith, count_if-keep_if p q incidents))
]

pub count_if-members_of :
    (test : Incident → Bool) (incidents : List Incident) (group : ℕ)
    → count_if test (members_of incidents group) ≡ members_with test incidents group
unfolding members_of
count_if-members_of test incidents group =
    count_if-in_order test (keep_if (λ i. belongs_to (group ∷ []) i.correlation_group_id) incidents)
    ∙ count_if-keep_if (λ i. belongs_to (group ∷ []) i.correlation_group_id) test incidents

pub length-count_if :
    (incidents : List Incident) → length incidents ≡ count_if (λ _. true) incidents
length-count_if [] = refl
length-count_if (i ∷ incidents) = omega (arith, length-count_if incidents)

any-count_if :
    (test : Incident → Bool) (incidents : List Incident)
    → (any test incidents ≡ true) ↔ (1 ≤ count_if test incidents)
any-count_if test [] = ground arith
any-count_if test (i ∷ incidents) = ground (arith, any-count_if test incidents)

pub status_of-open :
    (members : List Incident)
    → (status_of members ≡ group_open) ↔ (1 ≤ count_if (λ i. is_active i.status) members)
status_of-open members = ground (arith, any-count_if (λ i. is_active i.status) members)

worse_le :
    (s worst : String)
    → (severity_rank (worse s worst) ≤ severity_rank worst)
      × (severity_rank (worse s worst) ≤ severity_rank s)
unfolding worse
worse_le s worst = elim (Bool-cases (ltb (severity_rank s) (severity_rank worst))) [
  | inl e ↦ rw e (ground arith)
  | inr e ↦ rw e (ground arith)
]

worse_either : (s worst : String) → (worse s worst ≡ worst) ⊎ (worse s worst ≡ s)
unfolding worse
worse_either s worst = elim (Bool-cases (ltb (severity_rank s) (severity_rank worst))) [
  | inl e ↦ rw e (inr refl)
  | inr e ↦ rw e (inl refl)
]

pub worst_from_le :
    (worst : String) (members : List Incident)
    → severity_rank (worst_from worst members) ≤ severity_rank worst
unfolding worst_from
worst_from_le worst [] = ground arith
worst_from_le worst (i ∷ members) =
    omega (arith, worse_le i.severity worst, worst_from_le (worse i.severity worst) members)

le→ltb : (a b : ℕ) → b ≤ a → ltb a b ≡ false
le→ltb a b h = ground arith

skipped : {b : Bool} {n : ℕ} → b ≡ false → n ≡ 0 → (if b then 1 else 0) + n ≡ 0
skipped e h = rw e (omega (arith, h))

pub worst_from_least :
    (worst : String) (members : List Incident)
    → count_if
        (λ i. ltb (severity_rank i.severity) (severity_rank (worst_from worst members)))
        members
      ≡ 0
unfolding worst_from
worst_from_least worst [] = refl
worst_from_least worst (i ∷ members) =
    let next = worse i.severity worst in
    let bound : severity_rank (worst_from next members) ≤ severity_rank i.severity =
      omega (arith, worse_le i.severity worst, worst_from_le next members) in
    skipped (le→ltb (severity_rank i.severity) (severity_rank (worst_from next members)) bound)
      (worst_from_least next members)

same_string : (s t : String) → s ≡ t → (s == t) ≡ true
same_string s t e = (string_eq.same_iff s t).1 e

pub worst_from_member :
    (worst : String) (members : List Incident)
    → (worst_from worst members ≡ worst)
      ⊎ (1 ≤ count_if (λ i. i.severity == worst_from worst members) members)
unfolding worst_from
worst_from_member worst [] = inl refl
worst_from_member worst (i ∷ members) = elim (worst_from_member (worse i.severity worst) members) [
  | inl e ↦ elim (worse_either i.severity worst) [
    | inl same ↦ inl (e ∙ same)
    | inr taken ↦ inr (
        rw (same_string i.severity (worst_from (worse i.severity worst) members) (sym (e ∙ taken)))
          (omega arith))
  ]
  | inr found ↦ inr (omega (arith, found))
]

-- Of the severities of all members none ranks before the worst of them.
pub worst_from-none_before :
    (first : Incident) (rest : List Incident)
    → count_if
        (λ i. ltb (severity_rank i.severity) (severity_rank (worst_from first.severity rest)))
        (first ∷ rest)
      ≡ 0
worst_from-none_before first rest =
    skipped
      (le→ltb (severity_rank first.severity) (severity_rank (worst_from first.severity rest))
        (worst_from_le first.severity rest))
      (worst_from_least first.severity rest)

pub worst_from-of_some :
    (first : Incident) (rest : List Incident)
    → 1 ≤ count_if (λ i. i.severity == worst_from first.severity rest) (first ∷ rest)
worst_from-of_some first rest = elim (worst_from_member first.severity rest) [
  | inl e ↦ rw (same_string first.severity (worst_from first.severity rest) (sym e)) (omega arith)
  | inr found ↦ omega (arith, found)
]
