-- ===== src/Outbox/Recovery/Apart.antt =====
-- A round of outbox/recovery.py leaves the intents of other incidents.
use vh26_pixel_perfect.Prelude.{
  ◌≡◌, refl, sym, ap, ◌∙◌, Bool, true, false, ◌&&◌, String, string_eq, ◌==◌, eq_iff, Option, none,
  some, List, [], ◌∷◌, map, ltb, arith, Bool-cases, Option-cases, inl, inr,
}
use vh26_pixel_perfect.Outbox.Tables.{OutboxRow}
use vh26_pixel_perfect.Outbox.Recovery.{is_queued, is_intent, newest, Group, has_marker}
use vh26_pixel_perfect.Outbox.Recovery.Turns.{carried, turn, marked_intent}

incident_id-carried :
    (m : Option OutboxRow) (r : OutboxRow) → (carried m r).incident_id ≡ r.incident_id
incident_id-carried none r = refl
incident_id-carried (some n) r = refl

pub incident_id-turn :
    (channel : String) (g : Group) (m : Option OutboxRow) (r : OutboxRow)
    → (turn channel g m r).incident_id ≡ r.incident_id
incident_id-turn channel g m r = elim (Bool-cases (is_intent channel g.incident_id r)) [
  | inl here ↦ rw here (elim (Bool-cases (ltb r.outbox_id g.winner)) [
    | inl older ↦ rw older refl
    | inr last ↦ rw last (incident_id-carried m r)
  ])
  | inr away ↦ rw away refl
]

is_intent-incident_id :
    (channel j k : String) (r s : OutboxRow)
    → is_intent channel k r ≡ true
    → s.incident_id ≡ r.incident_id
    → (j == k) ≡ false
    → is_intent channel j s ≡ false
unfolding is_intent is_queued
is_intent-incident_id channel j k r s here same apart =
    ground (arith, eq_iff r.incident_id k, eq_iff s.incident_id j, eq_iff j k)

module _ (channel : String) where
  -- A round over another incident.
  pub turn_other :
      (g : Group) (m : Option OutboxRow) (j : String) (r : OutboxRow)
      → (j == g.incident_id) ≡ false
      → is_intent channel j r ≡ true
      → turn channel g m r ≡ r
  turn_other g m j r apart mine = elim (Bool-cases (is_intent channel g.incident_id r)) [
    | inl here ↦
        let clash = sym mine ∙ is_intent-incident_id channel j g.incident_id r r here refl apart in
        cc
    | inr away ↦ rw away refl
  ]

  pub marked_intent-turn :
      (g : Group) (m : Option OutboxRow) (j : String) (r : OutboxRow)
      → (j == g.incident_id) ≡ false
      → marked_intent channel j (turn channel g m r) ≡ marked_intent channel j r
  marked_intent-turn g m j r apart = elim (Bool-cases (is_intent channel g.incident_id r)) [
    | inl here ↦
        let before = is_intent-incident_id channel j g.incident_id r r here refl apart in
        let after =
          is_intent-incident_id channel j g.incident_id r (turn channel g m r) here
            (incident_id-turn channel g m r) apart in
        ap (λ b. b && has_marker (turn channel g m r)) after
        ∙ ap (λ b. b && has_marker r) (sym before)
    | inr away ↦ rw away refl
  ]

pub newest-map :
    (q : OutboxRow → Bool) (f : OutboxRow → OutboxRow)
    → ((r : OutboxRow) → q (f r) ≡ q r)
    → ((r : OutboxRow) → q r ≡ true → f r ≡ r)
    → (rows : List OutboxRow) → newest q (map f rows) ≡ newest q rows
unfolding newest
newest-map q f keeps same [] = refl
newest-map q f keeps same (r ∷ rows) =
    let rest = newest-map q f keeps same rows in
    elim (Bool-cases (q r)) [
      | inl passes ↦
          let here : f r ≡ r = same r passes in
          ap (λ t. newest q (t ∷ map f rows)) here ∙ (rw (newest, rest) refl)
      | inr fails ↦
          let fails1 : q (f r) ≡ false = keeps r ∙ fails in
          skip (f r) (map f rows) fails1 ∙ rest ∙ sym (skip r rows fails)
    ]
  where
    skip :
        (t : OutboxRow) (rest : List OutboxRow) → q t ≡ false → newest q (t ∷ rest) ≡ newest q rest
    skip t rest h = elim (Option-cases (newest q rest)) [
      | inl nothing ↦ rw (nothing, h) refl
      | inr (s, found) ↦ rw (found, h) refl
    ]
