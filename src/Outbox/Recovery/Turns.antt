-- ===== src/Outbox/Recovery/Turns.antt =====
-- A round of outbox/recovery.py over a group, row by row.
use vh26_pixel_perfect.Prelude.{
  ℕ, ◌<◌, ◌≡◌, refl, sym, ap, ◌∙◌, Bool, true, false, not, ◌&&◌, String, string_eq, ◌==◌, Option,
  none, some, List, [], ◌∷◌, map, ltb, leb, nat_beq, count_if, if◌then◌else◌, arith, Bool-cases,
  Option-cases, inl, inr, All,
}
use vh26_pixel_perfect.Outbox.Tables.{OutboxRow, superseded, is_pending}
use vh26_pixel_perfect.Outbox.Recovery.{
  is_queued, is_intent, max_id, newest, Group, carry_marker, with_marker, loses, supersede,
  collapse, has_marker, mark, apply_marker,
}
use vh26_pixel_perfect.Outbox.Recovery.Counts.{IsAscending, max_id-none, max_id-later}

-- A row queued on the channel for the incident.
abbrev pub intent_of : String → String → OutboxRow → Bool
intent_of channel incident_id r =
    r.channel == channel && is_pending r.status && r.incident_id == incident_id

-- A row that says the incident was paged through a fallback.
abbrev pub is_marked : OutboxRow → Bool
is_marked r = elim r.payload.delivered_via_fallback [ none ↦ false | some _ ↦ true ]

-- The last of the rows that pass a test.
abbrev pub last_of : (OutboxRow → Bool) → List OutboxRow → Option OutboxRow
last_of p [] = none
last_of p (r ∷ rows) = elim (last_of p rows) [
  | none ↦ if p r then some r else none
  | some s ↦ some s
]

abbrev id_of : Option OutboxRow → ℕ
id_of none = 0
id_of (some r) = r.outbox_id

abbrev pub last_id : (OutboxRow → Bool) → List OutboxRow → ℕ
last_id p rows = id_of (last_of p rows)

-- The row with the marker of another.
abbrev pub carried : Option OutboxRow → OutboxRow → OutboxRow
carried none r = r
carried (some m) r = record r {
  payload = record r.payload { delivered_via_fallback = m.payload.delivered_via_fallback };
}

last_of-All :
    (p : OutboxRow → Bool) (n : ℕ) (rows : List OutboxRow) (s : OutboxRow)
    → All (λ s. n < s.outbox_id) rows
    → last_of p rows ≡ some s
    → n < s.outbox_id
last_of-All p n [] s later h = cc
last_of-All p n (r ∷ rows) s later h = elim (Option-cases (last_of p rows)) [
  | inl none_later ↦ elim (Bool-cases (p r)) [
    | inl here ↦
        let e : last_of p (r ∷ rows) ≡ some r = rw (none_later, here) refl in
        let id : r.outbox_id ≡ s.outbox_id = ap id_of (sym e ∙ h) in omega (arith, id, later.0)
    | inr away ↦
        let e : last_of p (r ∷ rows) ≡ none = rw (none_later, away) refl in
        let clash = sym e ∙ h in cc
  ]
  | inr (t, found) ↦
      let e : last_of p (r ∷ rows) ≡ some t = rw found refl in
      let id : t.outbox_id ≡ s.outbox_id = ap id_of (sym e ∙ h) in
      let rest = last_of-All p n rows t later.1 found in omega arith
]

module _ (p : OutboxRow → Bool) where
  pub newest-last_of : (rows : List OutboxRow) → IsAscending rows → newest p rows ≡ last_of p rows
  unfolding newest
  newest-last_of [] a = refl
  newest-last_of (r ∷ rows) a =
      let rest = newest-last_of rows a.1 in
      elim (Option-cases (last_of p rows)) [
        | inl none_later ↦ rw (rest, none_later) refl
        | inr (s, found) ↦
            let l = last_of-All p r.outbox_id rows s a.0 found in
            let before : ltb s.outbox_id r.outbox_id ≡ false = ground arith in
            rw (rest, found, before) (ground arith)
      ]

  pub max_id-last_id : (rows : List OutboxRow) → IsAscending rows → max_id p rows ≡ last_id p rows
  unfolding max_id
  max_id-last_id [] a = refl
  max_id-last_id (r ∷ rows) a =
      let rest = max_id-last_id rows a.1 in
      elim (Option-cases (last_of p rows)) [
        | inl none_later ↦
            let zero : max_id p rows ≡ 0 = rest ∙ ap id_of none_later in
            rw (zero, none_later)
              (elim (Bool-cases (p r)) [
                | inl here ↦ rw here (omega arith)
                | inr away ↦ rw away refl
              ])
        | inr (s, found) ↦
            let l = last_of-All p r.outbox_id rows s a.0 found in
            let id : max_id p rows ≡ s.outbox_id = rest ∙ ap id_of found in
            rw (id, found) (ground arith)
      ]

  none-newest :
      (q : OutboxRow → Bool) (rows : List OutboxRow)
      → count_if p rows ≡ 0
      → newest (λ r. p r && q r) rows ≡ none
  unfolding newest
  none-newest q [] h = refl
  none-newest q (r ∷ rows) h =
      let rest = none-newest q rows (ground arith) in
      let here : p r ≡ false = ground arith in rw (rest, here) refl

  none_won :
      (n w : ℕ) (rows : List OutboxRow)
      → All (λ s. n < s.outbox_id) rows
      → w ≡ n
      → count_if p rows ≡ 0
      → All (λ r. nat_beq r.outbox_id w ≡ (p r && not (ltb r.outbox_id w))) rows
  none_won n w [] later e h = tt
  none_won n w (r ∷ rows) later e h =
      (let l = later.0 in ground arith, none_won n w rows later.1 e (ground arith))

  -- The newest id is that of one row that passes, and the others that pass have smaller ones.
  at_newest :
      (w : ℕ) (rows : List OutboxRow)
      → IsAscending rows
      → w ≡ max_id p rows
      → 0 < count_if p rows
      → All (λ r. nat_beq r.outbox_id w ≡ (p r && not (ltb r.outbox_id w))) rows
  unfolding max_id
  at_newest w [] a e some_pass = tt
  at_newest w (r ∷ rows) a e some_pass = elim (Bool-cases (leb (count_if p rows) 0)) [
    | inl none_later ↦
        let h : count_if p rows ≡ 0 = ground arith in
        let zero = max_id-none p rows h in
        let id : w ≡ r.outbox_id = ground arith in
        (ground arith, none_won r.outbox_id w rows a.0 id h)
    | inr some_later ↦
        let h : 0 < count_if p rows = ground arith in
        let l : r.outbox_id < max_id p rows = max_id-later p r.outbox_id rows a.0 h in
        let id : w ≡ max_id p rows = ground arith in (ground arith, at_newest w rows a.1 id h)
  ]

-- What a round over a group makes of a row, with the newest marked intent of the group.
abbrev pub turn : String → Group → Option OutboxRow → OutboxRow → OutboxRow
turn channel g m r =
    if is_intent channel g.incident_id r
    then (if ltb r.outbox_id g.winner
        then record r { status = superseded; superseded_by = some g.winner }
        else carried m r)
    else r

turn-none :
    (channel : String) (g : Group) (r : OutboxRow) → supersede channel g r ≡ turn channel g none r
unfolding supersede loses
turn-none channel g r = elim (Bool-cases (is_intent channel g.incident_id r)) [
  | inl here ↦ rw here (elim (Bool-cases (ltb r.outbox_id g.winner)) [
    | inl older ↦ rw older refl
    | inr newest_one ↦ rw newest_one refl
  ])
  | inr away ↦ rw away refl
]

is_intent-with_marker :
    (via : Option String) (c j : String) (r : OutboxRow)
    → is_intent c j (with_marker via r) ≡ is_intent c j r
unfolding is_intent is_queued with_marker
is_intent-with_marker via c j r = refl

turn-some :
    (channel : String) (g : Group) (m r : OutboxRow)
    → nat_beq r.outbox_id g.winner
      ≡ (is_intent channel g.incident_id r && not (ltb r.outbox_id g.winner))
    → supersede channel g (mark m.payload.delivered_via_fallback g.winner r)
      ≡ turn channel g (some m) r
unfolding supersede loses mark with_marker
turn-some channel g m r won = elim (Bool-cases (is_intent channel g.incident_id r)) [
  | inl here ↦ elim (Bool-cases (ltb r.outbox_id g.winner)) [
    | inl older ↦
        let lost : nat_beq r.outbox_id g.winner ≡ false = won ∙ (rw (here, older) refl) in
        rw (lost, here, older) refl
    | inr newest_one ↦
        let won1 : nat_beq r.outbox_id g.winner ≡ true = won ∙ (rw (here, newest_one) refl) in
        let after =
          is_intent-with_marker m.payload.delivered_via_fallback channel g.incident_id r ∙ here in
        rw (won1, here, newest_one, after) refl
  ]
  | inr away ↦
      let other : nat_beq r.outbox_id g.winner ≡ false = won ∙ (rw away refl) in
      rw (other, away) refl
]

pub map_agree :
    {P : OutboxRow → Type 0} (f g h : OutboxRow → OutboxRow)
    → ((r : OutboxRow) → P r → f (g r) ≡ h r)
    → (rows : List OutboxRow) → All P rows
    → map f (map g rows) ≡ map h rows
map_agree f g h same [] a = refl
map_agree f g h same (r ∷ rows) (p, a) =
    rw (same r p) (ap (λ rest. h r ∷ rest) (map_agree f g h same rows a))

pub map_same :
    (f g : OutboxRow → OutboxRow)
    → ((r : OutboxRow) → f r ≡ g r)
    → (rows : List OutboxRow) → map f rows ≡ map g rows
map_same f g same [] = refl
map_same f g same (r ∷ rows) = rw (same r) (ap (λ rest. g r ∷ rest) (map_same f g same rows))

abbrev pub marked_intent : String → String → OutboxRow → Bool
marked_intent channel j r = is_intent channel j r && has_marker r

-- A round changes each row by itself.
pub collapse-turn :
    (channel : String) (g : Group) (rows : List OutboxRow)
    → IsAscending rows
    → g.winner ≡ max_id (is_intent channel g.incident_id) rows
    → (collapse channel g rows).0
      ≡ map (turn channel g (newest (marked_intent channel g.incident_id) rows)) rows
unfolding collapse carry_marker apply_marker
collapse-turn channel g rows a w =
    let p = is_intent channel g.incident_id in
    elim (Option-cases (newest (marked_intent channel g.incident_id) rows)) [
      | inl unmarked ↦
          rw unmarked
            (map_same (supersede channel g) (turn channel g none) (turn-none channel g) rows)
      | inr (m, found) ↦
          let some_pass : 0 < count_if p rows = elim (Bool-cases (leb (count_if p rows) 0)) [
            | inl empty ↦
                let gone = none-newest p has_marker rows (ground arith) in
                let clash = sym gone ∙ found in cc
            | inr some_there ↦ ground arith
          ] in
          rw found (
            map_agree (supersede channel g) (mark m.payload.delivered_via_fallback g.winner)
              (turn channel g (some m)) (turn-some channel g m) rows
              (at_newest p g.winner rows a w some_pass))
    ]
