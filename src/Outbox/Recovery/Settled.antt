-- ===== src/Outbox/Recovery/Settled.antt =====
-- What `coalesce_pending` of outbox/recovery.py makes of each row.
use text.Mathlib.TextPositions.{eq_refl}
use vh26_pixel_perfect.Prelude.{
  ℕ, ◌≡◌, refl, sym, ap, ◌∙◌, Bool, true, false, not, ◌&&◌, ◌||◌, String, string_eq, ◌==◌, eq_iff,
  Option, some, List, [], ◌∷◌, map, map-map, map_id, ltb, any, count_if, keep_if, if◌then◌else◌,
  if-true, if-false, arith, Bool-cases, inl, inr, All,
}
use vh26_pixel_perfect.Outbox.Tables.{OutboxRow, superseded}
use vh26_pixel_perfect.Outbox.Recovery.{
  is_queued, is_intent, group_keys, max_id, newest, Group, collapse, has_marker, collapse_all,
}
use vh26_pixel_perfect.Outbox.Recovery.Counts.{IsAscending}
use vh26_pixel_perfect.Outbox.Recovery.Rounds.{AreNewest, collapse-IsAscending, collapse-AreNewest}
use vh26_pixel_perfect.Outbox.Recovery.Turns.{
  intent_of, is_marked, last_of, last_id, carried, turn, marked_intent, collapse-turn,
  newest-last_of, max_id-last_id,
}
use vh26_pixel_perfect.Outbox.Recovery.Apart.{
  incident_id-turn, turn_other, marked_intent-turn, newest-map,
}

-- What coalescing the channel makes of a row: of an incident with several intents, each but the last
-- is superseded by the last, and the last has the marker of the last of them that had one; every
-- other row stays.
abbrev pub settled : String → List OutboxRow → OutboxRow → OutboxRow
settled channel rows r =
    let mine = intent_of channel r.incident_id in
    if mine r && ltb 1 (count_if mine rows)
    then (if ltb r.outbox_id (last_id mine rows)
        then record r { status = superseded; superseded_by = some (last_id mine rows) }
        else carried (last_of (λ s. mine s && is_marked s) rows) r)
    else r

abbrev pub group_for : String → List OutboxRow → String → Group
group_for channel rows k = record { incident_id = k; winner = max_id (is_intent channel k) rows }

-- The groups of a grouping, each of an incident of its own.
abbrev pub AreApart : List Group → Type 0
AreApart [] = Unit
AreApart (g ∷ groups) = (any (λ h. h.incident_id == g.incident_id) groups ≡ false) × AreApart groups

module _ (channel : String) where
  -- The newest marked intent of the group.
  abbrev pub marker_of : List OutboxRow → Group → Option OutboxRow
  marker_of rows g = newest (marked_intent channel g.incident_id) rows

  abbrev pub turns : List OutboxRow → List Group → OutboxRow → OutboxRow
  turns rows [] r = r
  turns rows (g ∷ groups) r = turns rows groups (turn channel g (marker_of rows g) r)

  turns_same :
      (rows rows1 : List OutboxRow) (groups : List Group)
      → All (λ g. marker_of rows1 g ≡ marker_of rows g) groups
      → (r : OutboxRow) → turns rows1 groups r ≡ turns rows groups r
  turns_same rows rows1 [] same r = refl
  turns_same rows rows1 (g ∷ groups) (here, same) r =
      turns_same rows rows1 groups same (turn channel g (marker_of rows1 g) r)
      ∙ ap (λ m. turns rows groups (turn channel g m r)) here

  marker_of-turn :
      (g : Group) (m : Option OutboxRow) (rows : List OutboxRow) (groups : List Group)
      → any (λ h. h.incident_id == g.incident_id) groups ≡ false
      → All (λ h. marker_of (map (turn channel g m) rows) h ≡ marker_of rows h) groups
  marker_of-turn g m rows [] apart = tt
  marker_of-turn g m rows (h ∷ groups) apart =
      let here : (h.incident_id == g.incident_id) ≡ false = ground arith in
      (
        newest-map (marked_intent channel h.incident_id) (turn channel g m)
            (λ r. marked_intent-turn channel g m h.incident_id r here)
            (λ r passes. turn_other channel g m h.incident_id r here (ground arith)) rows,
        marker_of-turn g m rows groups (ground arith),
      )

  pub collapse_all-turns :
      (groups : List Group) (rows : List OutboxRow)
      → IsAscending rows
      → AreNewest channel groups rows
      → AreApart groups
      → (collapse_all channel groups rows).0 ≡ map (turns rows groups) rows
  unfolding collapse_all
  collapse_all-turns [] rows a n apart = map_id (λ r. r) (λ r. refl) rows
  collapse_all-turns (g ∷ groups) rows a n apart =
      let f = turn channel g (marker_of rows g) in
      let one : (collapse channel g rows).0 ≡ map f rows = collapse-turn channel g rows a n.0 in
      collapse_all-turns groups (collapse channel g rows).0 (collapse-IsAscending channel g rows a)
        (collapse-AreNewest channel g groups rows a n.0 n.1) apart.1
      ∙ ap (λ rows1. map (turns rows1 groups) rows1) one
      ∙ map-map (turns (map f rows) groups) f (turns rows (g ∷ groups))
          (λ r.
            turns_same rows (map f rows) groups
              (marker_of-turn g (marker_of rows g) rows groups apart.0) (f r))
          rows

  abbrev pub groups_for : List OutboxRow → List String → List Group
  groups_for rows = map (group_for channel rows)

  any-groups_for :
      (rows : List OutboxRow) (j : String) (keys : List String)
      → any (λ g. g.incident_id == j) (groups_for rows keys) ≡ any (λ k. k == j) keys
  any-groups_for rows j [] = refl
  any-groups_for rows j (k ∷ keys) = ap (λ b. k == j || b) (any-groups_for rows j keys)

  -- The turns over the incidents of some keys change the intents of these, each once.
  pub turns-groups_for :
      (rows : List OutboxRow) (keys : List String)
      → AreApart (groups_for rows keys)
      → (r : OutboxRow)
      → turns rows (groups_for rows keys) r ≡ (
          if is_queued channel r && any (λ k. k == r.incident_id) keys
          then turn channel
              (group_for channel rows r.incident_id)
              (marker_of rows (group_for channel rows r.incident_id))
              r
          else r)
  unfolding is_intent
  turns-groups_for rows [] apart r =
      let never : is_queued channel r && false ≡ false = ground arith in rw never refl
  turns-groups_for rows (k ∷ keys) apart r =
      let g = group_for channel rows k in
      let r1 = turn channel g (marker_of rows g) r in
      let rest = turns-groups_for rows keys apart.1 r1 in
      elim (Bool-cases (is_intent channel k r)) [
        | inl here ↦
            let e : r.incident_id ≡ k = ground (arith, eq_iff r.incident_id k) in
            let id : r1.incident_id ≡ k = incident_id-turn channel g (marker_of rows g) r ∙ e in
            let gone : any (λ i. i == r1.incident_id) keys ≡ false =
              ap (λ j. any (λ i. i == j) keys) id ∙ sym (any-groups_for rows k keys) ∙ apart.0 in
            let never : is_queued channel r1 && any (λ i. i == r1.incident_id) keys ≡ false =
              ground (arith, gone) in
            let found : is_queued channel r
                  && (k == r.incident_id || any (λ i. i == r.incident_id) keys)
                ≡ true =
              ground (arith, eq_iff k r.incident_id) in
            rest
            ∙ (rw never refl)
            ∙ ap
                (λ j.
                  turn channel (group_for channel rows j)
                    (marker_of rows (group_for channel rows j)) r)
                (sym e)
            ∙ sym (rw found refl)
        | inr away ↦
            let same : r1 ≡ r = rw away refl in
            let cond : is_queued channel r
                  && (k == r.incident_id || any (λ i. i == r.incident_id) keys)
                ≡ is_queued channel r && any (λ i. i == r.incident_id) keys =
              ground (arith, eq_iff k r.incident_id, eq_iff r.incident_id k) in
            ap (turns rows (groups_for rows keys)) same
            ∙ turns-groups_for rows keys apart.1 r
            ∙ sym (rw cond refl)
      ]

  pub any-keep_if :
      (q : String → Bool) (j : String) (keys : List String)
      → any (λ k. k == j) (keep_if q keys) ≡ q j && any (λ k. k == j) keys
  any-keep_if q j [] = ground arith
  any-keep_if q j (k ∷ keys) =
      let rest = any-keep_if q j keys in
      elim (Bool-cases (k == j)) [
        | inl here ↦
            let e : k ≡ j = (eq_iff k j).0 here in
            elim (Bool-cases (q j)) [
              | inl kept ↦ rw (e, kept, eq_refl j) refl
              | inr left ↦ rw (e, left) (rest ∙ (rw left refl))
            ]
        | inr away ↦ elim (Bool-cases (q k)) [
          | inl kept ↦ rw (kept, away) rest
          | inr left ↦ rw (left, away) rest
        ]
      ]

  pub group_keys-AreApart :
      (q : String → Bool) (table rows : List OutboxRow)
      → AreApart (groups_for table (keep_if q (group_keys channel rows)))
  unfolding group_keys
  group_keys-AreApart q table [] = tt
  group_keys-AreApart q table (r ∷ rows) =
      let keys = group_keys channel rows in
      let rest = group_keys-AreApart q table rows in
      elim (Bool-cases (is_queued channel r && not (any (λ k. k == r.incident_id) keys))) [
        | inl new ↦ rw new (elim (Bool-cases (q r.incident_id)) [
          | inl kept ↦
              let fresh : any (λ k. k == r.incident_id) keys ≡ false = ground arith in
              rw kept (
                any-groups_for table r.incident_id (keep_if q keys)
                    ∙ any-keep_if q r.incident_id keys
                    ∙ (rw (kept, fresh) refl),
                rest,
              )
          | inr left ↦ rw left rest
        ])
        | inr old ↦ rw old rest
      ]

  -- The one turn of an intent of an incident with several.
  pub turn-settled :
      (rows : List OutboxRow) (r : OutboxRow)
      → IsAscending rows
      → (if is_queued channel r && ltb 1 (count_if (is_intent channel r.incident_id) rows)
          then turn channel
              (group_for channel rows r.incident_id)
              (marker_of rows (group_for channel rows r.incident_id))
              r
          else r)
        ≡ settled channel rows r
  unfolding is_intent is_queued has_marker
  turn-settled rows r a =
      let j = r.incident_id in
      let mine = intent_of channel j in
      let n = count_if (is_intent channel j) rows in
      let w : max_id (is_intent channel j) rows ≡ last_id mine rows = max_id-last_id mine rows a in
      let m : newest (marked_intent channel j) rows ≡ last_of (λ s. mine s && is_marked s) rows =
        newest-last_of (λ s. mine s && is_marked s) rows a in
      let changed : ℕ → Option OutboxRow → OutboxRow = λ winner marker.
        if ltb r.outbox_id winner
        then record r { status = superseded; superseded_by = some winner }
        else carried marker r in
      elim (Bool-cases (mine r && ltb 1 n)) [
        | inl several ↦
            let intent : is_intent channel j r ≡ true = ground arith in
            let turned : is_queued channel r && ltb 1 n ≡ true = ground arith in
            if-true (is_queued channel r && ltb 1 n) _ r turned
            ∙ if-true (is_intent channel j r)
                (changed (max_id (is_intent channel j) rows)
                  (newest (marked_intent channel j) rows))
                r intent
            ∙ ap (λ winner. changed winner (newest (marked_intent channel j) rows)) w
            ∙ ap (changed (last_id mine rows)) m
            ∙ sym (
                if-true (mine r && ltb 1 n)
                  (changed (last_id mine rows) (last_of (λ s. mine s && is_marked s) rows)) r
                  several)
        | inr otherwise ↦
            let same = eq_refl j in
            let left : is_queued channel r && ltb 1 n ≡ false = ground arith in
            if-false (is_queued channel r && ltb 1 n) _ r left
            ∙ sym (
                if-false (mine r && ltb 1 n)
                  (changed (last_id mine rows) (last_of (λ s. mine s && is_marked s) rows)) r
                  otherwise)
      ]
