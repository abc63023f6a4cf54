-- ===== src/Graph/Observation/Pairs.antt =====
-- graph/observe_incident.py: which incidents and edges a round is about.
use text.Mathlib.TextPositions.{eq_refl}
use vh26_pixel_perfect.Prelude.{
  ℕ, Bool, true, false, not, ◌&&◌, ◌||◌, ◌⊎◌, eq_iff, sym, none, ltb, ◌≡◌, refl, ◌∙◌, ap, String,
  string_eq, nat_eq, ◌==◌, Option, some, List, [], ◌∷◌, any, keep_if, leb, if◌then◌else◌, arith,
  Bool-cases, inl, inr,
}
use vh26_pixel_perfect.Engine.SilenceSweeper.{is_active}
use vh26_pixel_perfect.Graph.Observation.{
  is_among, Incident, Edge, participants_of, find_incident, directed,
}

abbrev pub is_pair : ℕ × ℕ → ℕ → ℕ → Bool
is_pair (source, target) s d = source == s && target == d

-- Whether one of the incidents makes a directed pair with the current one.
abbrev pub is_touched : Incident → List Incident → ℕ → ℕ → Bool
is_touched current related s d =
    any (λ r. not (r.incident_id == current.incident_id) && is_pair (directed current r) s d)
      related

-- incident_id is the primary key.
abbrev pub Distinct : List Incident → Type 0
Distinct [] = Unit
Distinct (i ∷ incidents) =
    (any (λ j. j.incident_id == i.incident_id) incidents ≡ false) × Distinct incidents

any-keep_if :
    (p q : Incident → Bool) (incidents : List Incident)
    → any p incidents ≡ false
    → any p (keep_if q incidents) ≡ false
any-keep_if p q [] h = refl
any-keep_if p q (i ∷ incidents) h = elim (Bool-cases (q i)) [
  | inl e ↦ rw e (let rest = any-keep_if p q incidents (ground arith) in ground arith)
  | inr e ↦ rw e (any-keep_if p q incidents (ground arith))
]

pub keep_if-Distinct :
    (q : Incident → Bool) (incidents : List Incident)
    → Distinct incidents
    → Distinct (keep_if q incidents)
keep_if-Distinct q [] h = tt
keep_if-Distinct q (i ∷ incidents) (new, h) = elim (Bool-cases (q i)) [
  | inl e ↦ rw e (
    any-keep_if (λ j. j.incident_id == i.incident_id) q incidents new,
    keep_if-Distinct q incidents h,
  )
  | inr e ↦ rw e (keep_if-Distinct q incidents h)
]

-- Two pairs with a common end and different other ends are different.
is_pair_apart :
    (b c : Bool) (x r k s d : ℕ)
    → (r == x) ≡ false
    → (k == x) ≡ false
    → (k == r) ≡ false
    → is_pair (if b then (r, x) else (x, r)) s d ≡ true
    → is_pair (if c then (k, x) else (x, k)) s d ≡ false
is_pair_apart true true x r k s d hr hk other h = ground arith
is_pair_apart true false x r k s d hr hk other h = ground arith
is_pair_apart false true x r k s d hr hk other h = ground arith
is_pair_apart false false x r k s d hr hk other h = ground arith

pub is_touched_later :
    (current r : Incident) (related : List Incident) (s d : ℕ)
    → (r.incident_id == current.incident_id) ≡ false
    → is_pair (directed current r) s d ≡ true
    → any (λ j. j.incident_id == r.incident_id) related ≡ false
    → is_touched current related s d ≡ false
is_touched_later current r [] s d hr h new = refl
is_touched_later current r (k ∷ related) s d hr h new =
    let rest = is_touched_later current r related s d hr h (ground arith) in
    elim (Bool-cases (k.incident_id == current.incident_id)) [
      | inl e ↦ rw e rest
      | inr e ↦
          rw
            (
              e,
              is_pair_apart (leb r.last_alert_at current.last_alert_at)
                  (leb k.last_alert_at current.last_alert_at) current.incident_id r.incident_id
                  k.incident_id s d hr e (ground arith) h,
            )
            rest
    ]

-- An incident that a round with these fingerprints is about: active, under one of them.
abbrev pub is_participant : List String → Incident → Bool
is_participant fingerprints i =
    not (i.stable_fingerprint == "")
    && any (λ f. f == i.stable_fingerprint) fingerprints
    && is_active i.status

-- Whether the edge from `s` to `d` is that of the two incidents: from the earlier alert to the later.
abbrev pub is_edge_of : Incident → Incident → ℕ → ℕ → Bool
is_edge_of current other s d =
    other.incident_id == s
      && current.incident_id == d
      && not (ltb current.last_alert_at other.last_alert_at)
    || current.incident_id == s
      && other.incident_id == d
      && ltb current.last_alert_at other.last_alert_at

-- Whether the edge is one between the incident and another that the round is about.
abbrev pub is_observed : List String → Incident → List Incident → ℕ → ℕ → Bool
is_observed fingerprints current incidents s d =
    any
      (λ other.
        is_participant fingerprints other
        && not (other.incident_id == current.incident_id)
        && is_edge_of current other s d)
      incidents

abbrev pub IsListed : Incident → List Incident → Type 0
IsListed i [] = ⊥
IsListed i (j ∷ incidents) = (i ≡ j) ⊎ IsListed i incidents

is_among_nonempty :
    (text : String) (fingerprints : List String)
    → is_among (keep_if (λ f. not (f == "")) fingerprints) text
      ≡ not (text == "") && any (λ f. f == text) fingerprints
is_among_nonempty text [] = ground arith
is_among_nonempty text (f ∷ fingerprints) =
    let rest = is_among_nonempty text fingerprints in
    elim (Bool-cases (f == text)) [
      | inl same ↦
          let e : f ≡ text = (eq_iff f text).0 same in
          elim (Bool-cases (text == "")) [
            | inl empty ↦ rw (e, empty) (rest ∙ (rw empty refl))
            | inr written ↦ rw (e, written, eq_refl text) refl
          ]
      | inr other ↦ elim (Bool-cases (f == "")) [
        | inl empty ↦ rw (empty, other) rest
        | inr written ↦ rw (written, other) rest
      ]
    ]

is_edge_of-directed :
    (current other : Incident) (s d : ℕ)
    → is_pair (directed current other) s d ≡ is_edge_of current other s d
is_edge_of-directed current other s d =
    elim (Bool-cases (leb other.last_alert_at current.last_alert_at)) [
      | inl earlier ↦
          let now : ltb current.last_alert_at other.last_alert_at ≡ false = ground arith in
          rw (earlier, now) (ground arith)
      | inr later ↦
          let now : ltb current.last_alert_at other.last_alert_at ≡ true = ground arith in
          rw (later, now) (ground arith)
    ]

-- The turns of the loop that write the edge.
pub is_touched-is_observed :
    (fingerprints : List String) (current : Incident) (incidents : List Incident) (s d : ℕ)
    → is_touched current (participants_of fingerprints incidents) s d
      ≡ is_observed fingerprints current incidents s d
is_touched-is_observed fingerprints current [] s d = refl
is_touched-is_observed fingerprints current (i ∷ incidents) s d =
    let rest = is_touched-is_observed fingerprints current incidents s d in
    let among = is_among_nonempty i.stable_fingerprint fingerprints in
    let edge = is_edge_of-directed current i s d in
    let named = keep_if (λ f. not (f == "")) fingerprints in
    let taken : is_among named i.stable_fingerprint && is_active i.status
        ≡ is_participant fingerprints i =
      ground (arith, among) in
    elim (Bool-cases (is_participant fingerprints i)) [
      | inl about ↦
          let kept : is_among named i.stable_fingerprint && is_active i.status ≡ true =
            taken ∙ about in
          rw (kept, about, edge, rest) refl
      | inr other ↦
          let left : is_among named i.stable_fingerprint && is_active i.status ≡ false =
            taken ∙ other in
          rw (left, other) rest
    ]

-- A listed incident has not the id of one whose id no listed incident has.
listed_apart :
    (current i : Incident) (incidents : List Incident)
    → IsListed current incidents
    → any (λ j. j.incident_id == i.incident_id) incidents ≡ false
    → (i.incident_id == current.incident_id) ≡ false
listed_apart current i [] listed new = absurd listed
listed_apart current i (j ∷ incidents) (inl here) new =
    let id : current.incident_id ≡ j.incident_id = ap (λ k. k.incident_id) here in
    ground (arith, id)
listed_apart current i (j ∷ incidents) (inr later) new =
    listed_apart current i incidents later (ground arith)

pub find_incident-participants_of :
    (fingerprints : List String) (current : Incident) (incidents : List Incident)
    → Distinct incidents
    → IsListed current incidents
    → is_participant fingerprints current ≡ true
    → find_incident current.incident_id (participants_of fingerprints incidents) ≡ some current
find_incident-participants_of fingerprints current [] distinct listed active = absurd listed
find_incident-participants_of fingerprints current (i ∷ incidents) (new, distinct) listed active =
    let named = keep_if (λ f. not (f == "")) fingerprints in
    let among = is_among_nonempty i.stable_fingerprint fingerprints in
    let taken : is_among named i.stable_fingerprint && is_active i.status
        ≡ is_participant fingerprints i =
      ground (arith, among) in
    elim listed [
      | inl here ↦
          let kept : is_among named i.stable_fingerprint && is_active i.status ≡ true =
            taken ∙ ap (is_participant fingerprints) (sym here) ∙ active in
          let id : i.incident_id == current.incident_id ≡ true =
            ground (arith, ap (λ k. k.incident_id) here) in
          rw (kept, id) (ap some (sym here))
      | inr later ↦
          let rest =
            find_incident-participants_of fingerprints current incidents distinct later active in
          let apart = listed_apart current i incidents later new in
          elim (Bool-cases (is_participant fingerprints i)) [
            | inl about ↦
                let kept : is_among named i.stable_fingerprint && is_active i.status ≡ true =
                  taken ∙ about in
                rw (kept, apart) rest
            | inr other ↦
                let left : is_among named i.stable_fingerprint && is_active i.status ≡ false =
                  taken ∙ other in
                rw left rest
          ]
    ]

-- The first row of an edge.
abbrev pub edge_at : {W : Type 0} → ℕ → ℕ → List (Edge W) → Option (W × ℕ)
edge_at s d [] = none
edge_at s d (e ∷ edges) =
    if e.src == s && e.dst == d then some (e.weight, e.last_seen_at) else edge_at s d edges
