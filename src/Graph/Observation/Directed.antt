-- ===== src/Graph/Observation/Directed.antt =====
-- graph/observe_incident.py: which edges a round changes, and by how much.
use vh26_pixel_perfect.Prelude.{
  ℕ, Bool, true, false, not, ◌&&◌, ◌-◌, sym, none, ◌≡◌, refl, ◌∙◌, ap, String, string_eq, nat_eq,
  ◌==◌, Option, some, List, [], ◌∷◌, keep_if, if◌then◌else◌, arith, Bool-cases, inl, inr,
}
use vh26_pixel_perfect.Engine.SilenceSweeper.{is_active}
use vh26_pixel_perfect.Graph.Observation.{
  is_among, Incident, Edge, Graph, participants_of, directed, updated, existing_edge, upsert_edge,
  observe_pair, observe_related, observe_with, observe_incident, record_round,
}
use vh26_pixel_perfect.Graph.Observation.Pairs.{
  is_pair, is_touched, Distinct, IsListed, is_participant, is_observed, edge_at, keep_if-Distinct,
  is_touched_later, is_touched-is_observed, find_incident-participants_of,
}

module _ {W : Type 0} (one : W) (sum : W → W → W) (decay : ℕ → W → W) where
  existing_edge-upsert_edge :
      (s d source target : ℕ) (weight : W) (now : ℕ) (edges : List (Edge W))
      → existing_edge one sum decay s d (upsert_edge one sum decay source target weight now edges)
        ≡ (if is_pair (source, target) s d
            then some (weight, now)
            else existing_edge one sum decay s d edges)
  unfolding existing_edge upsert_edge
  existing_edge-upsert_edge s d source target weight now [] = refl
  existing_edge-upsert_edge s d source target weight now (e ∷ edges) =
      elim (Bool-cases (e.src == source && e.dst == target)) [
        | inl hit ↦ rw hit (elim (Bool-cases (is_pair (source, target) s d)) [
          | inl found ↦
              let also : e.src == s && e.dst == d ≡ true = ground arith in rw (also, found) refl
          | inr other ↦
              let also : e.src == s && e.dst == d ≡ false = ground arith in rw (also, other) refl
        ])
        | inr miss ↦ rw miss (elim (Bool-cases (e.src == s && e.dst == d)) [
          | inl found ↦
              let apart : is_pair (source, target) s d ≡ false = ground arith in
              rw (found, apart) refl
          | inr other ↦ rw other (existing_edge-upsert_edge s d source target weight now edges)
        ])
      ]

  abbrev after_test : Bool → ℕ → Option (W × ℕ) → Option (W × ℕ)
  after_test touched now before =
      if touched then some (updated one sum decay now before, now) else before

  existing_edge_ends :
      (source target s d : ℕ) (edges : List (Edge W))
      → is_pair (source, target) s d ≡ true
      → existing_edge one sum decay source target edges ≡ existing_edge one sum decay s d edges
  existing_edge_ends source target s d edges h =
      let e : source ≡ s = ground arith in let k : target ≡ d = ground arith in cc

  existing_edge-observe_related :
      (current : Incident) (related : List Incident) (edges : List (Edge W)) (s d : ℕ)
      → Distinct related
      → existing_edge one sum decay s d (observe_related one sum decay current related edges).1
        ≡ after_test
            (is_touched current related s d)
            current.last_alert_at
            (existing_edge one sum decay s d edges)
  unfolding observe_related observe_pair
  existing_edge-observe_related current [] edges s d distinct = refl
  existing_edge-observe_related current (r ∷ related) edges s d (new, distinct) =
      elim (Bool-cases (r.incident_id == current.incident_id)) [
        | inl same ↦ rw same (existing_edge-observe_related current related edges s d distinct)
        | inr other ↦ rw other (
            let now = current.last_alert_at in
            let source = (directed current r).0 in
            let target = (directed current r).1 in
            let weight =
              updated one sum decay now (existing_edge one sum decay source target edges) in
            let edges1 = upsert_edge one sum decay source target weight now edges in
            let later = existing_edge-observe_related current related edges1 s d distinct in
            let read = existing_edge-upsert_edge s d source target weight now edges in
            elim (Bool-cases (is_pair (source, target) s d)) [
              | inl hit ↦
                  later
                  ∙ ap (λ b. after_test b now (existing_edge one sum decay s d edges1))
                      (is_touched_later current r related s d other hit new)
                  ∙ read
                  ∙ rw hit (
                      ap (λ e. some (updated one sum decay now e, now))
                        (existing_edge_ends source target s d edges hit))
              | inr miss ↦
                  let kept : existing_edge one sum decay s d edges1
                      ≡ existing_edge one sum decay s d edges =
                    read
                    ∙ ap
                        (λ b.
                          if b then some (weight, now) else existing_edge one sum decay s d edges)
                        miss in
                  rw miss (later ∙ ap (after_test (is_touched current related s d) now) kept)
            ])
      ]

  -- One observation; on an edge that was there, added to its evidence, which decayed since.
  abbrev pub evidence : ℕ → Option (W × ℕ) → W
  evidence now none = one
  evidence now (some (weight, last)) = sum (decay (now - last) weight) one

  existing_edge-edge_at :
      (s d : ℕ) (edges : List (Edge W)) → existing_edge one sum decay s d edges ≡ edge_at s d edges
  unfolding existing_edge
  existing_edge-edge_at s d [] = refl
  existing_edge-edge_at s d (e ∷ edges) =
      ap (λ o. if e.src == s && e.dst == d then some (e.weight, e.last_seen_at) else o)
        (existing_edge-edge_at s d edges)

  updated-evidence :
      (now : ℕ) (before : Option (W × ℕ)) → updated one sum decay now before ≡ evidence now before
  updated-evidence now none = refl
  updated-evidence now (some (weight, last)) = refl

  -- When an incident is active under one of the fingerprints, and ids are unique, its round observes
  -- exactly the edges between it and the other such incidents, each from the earlier alert to the later
  -- and, of alerts at one time, to it: such an edge is there afterwards with one observation, added to
  -- the decayed evidence if it was there, as of the time of its alert; every other edge, absent ones
  -- included, is as it was.
  pub observe_incident-observed :
      (g : Graph W) (incidents : List Incident) (fingerprints : List String) (current : Incident)
      → Distinct incidents
      → IsListed current incidents
      → is_participant fingerprints current ≡ true
      → (s d : ℕ)
      → edge_at s d
          (observe_incident one sum decay g incidents current.incident_id fingerprints).1.edges
        ≡ (if is_observed fingerprints current incidents s d
            then some (evidence current.last_alert_at (edge_at s d g.edges), current.last_alert_at)
            else edge_at s d g.edges)
  unfolding observe_incident observe_with record_round
  observe_incident-observed g incidents fingerprints current distinct listed active s d =
      let related = participants_of fingerprints incidents in
      let now = current.last_alert_at in
      let found =
        find_incident-participants_of fingerprints current incidents distinct listed active in
      let edges : List (Edge W) = (observe_related one sum decay current related g.edges).1 in
      let round : existing_edge one sum decay s d edges
          ≡ after_test (is_touched current related s d) now
              (existing_edge one sum decay s d g.edges) =
        existing_edge-observe_related current related g.edges s d (
          keep_if-Distinct
            (λ i.
              is_among (keep_if (λ f. not (f == "")) fingerprints) i.stable_fingerprint
              && is_active i.status)
            incidents distinct) in
      let which : is_touched current related s d ≡ is_observed fingerprints current incidents s d =
        is_touched-is_observed fingerprints current incidents s d in
      rw found (
        sym (existing_edge-edge_at s d edges)
        ∙ round
        ∙ ap (λ o. after_test (is_touched current related s d) now o)
            (existing_edge-edge_at s d g.edges)
        ∙ ap (λ b. after_test b now (edge_at s d g.edges)) which
        ∙ ap
            (λ w.
              if is_observed fingerprints current incidents s d
              then some (w, now)
              else edge_at s d g.edges)
            (updated-evidence now (edge_at s d g.edges)))
