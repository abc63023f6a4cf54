-- ===== src/Outbox/Recovery/Coalesce.antt =====
-- `coalesce_pending` of outbox/recovery.py: which intents are left.
use mathlib.Core.Bool.{false≢true}
use text.Mathlib.TextPositions.{eq_refl}
use vh26_pixel_perfect.Prelude.{
  ℕ, ◌<◌, ◌≡◌, ap, ◌&&◌, min, refl, Bool, true, false, String, string_eq, ◌==◌, eq_iff, List, [],
  ◌∷◌, map, ltb, any, count_if, keep_if, if◌then◌else◌, arith, ◌∙◌, lt→ltb, leb, Bool-cases, inl,
  inr,
}
use vh26_pixel_perfect.Outbox.Tables.{OutboxRow}
use vh26_pixel_perfect.Outbox.Recovery.{
  is_queued, is_intent, max_id, Group, groups_of, group_keys, coalesce_pending,
}
use vh26_pixel_perfect.Outbox.Recovery.Counts.{IsAscending}
use vh26_pixel_perfect.Outbox.Recovery.Turns.{turn, map_same}
use vh26_pixel_perfect.Outbox.Recovery.Settled.{
  settled, group_for, groups_for, marker_of, turns, collapse_all-turns, turns-groups_for,
  group_keys-AreApart, any-keep_if, turn-settled,
}
use vh26_pixel_perfect.Outbox.Recovery.Rounds.{Keeps, collapse_all-Keeps, AreNewest, is_hit}

groups_for-AreNewest :
    (channel : String) (rows : List OutboxRow) (keys : List String)
    → AreNewest channel (groups_for channel rows keys) rows
groups_for-AreNewest channel rows [] = tt
groups_for-AreNewest channel rows (k ∷ keys) = (refl, groups_for-AreNewest channel rows keys)

-- An incident with a queued row is among the keys of the grouping.
in_group_keys :
    (channel j : String) (rows : List OutboxRow)
    → 0 < count_if (is_intent channel j) rows
    → any (λ k. k == j) (group_keys channel rows) ≡ true
unfolding group_keys is_intent
in_group_keys channel j [] h = absurd (omega arith)
in_group_keys channel j (r ∷ rows) h =
    ground (arith, in_group_keys channel j rows, eq_iff r.incident_id j)

is_hit-groups_for :
    (channel j : String) (rows : List OutboxRow) (keys : List String)
    → 1 < count_if (is_intent channel j) rows
    → any (λ k. k == j) keys ≡ true
    → is_hit channel channel j
        (groups_for channel rows (keep_if (λ k. ltb 1 (count_if (is_intent channel k) rows)) keys))
      ≡ true
is_hit-groups_for channel j rows [] h k = cc
is_hit-groups_for channel j rows (i ∷ keys) h k = elim (Bool-cases (i == j)) [
  | inl here ↦
      let e : i ≡ j = (eq_iff i j).0 here in
      rw (e, lt→ltb 1 (count_if (is_intent channel j) rows) h, eq_refl channel, eq_refl j) refl
  | inr there ↦ ground (arith, is_hit-groups_for channel j rows keys h)
]

is_hit_other :
    (channel c j : String) (groups : List Group)
    → (c == channel) ≡ false
    → is_hit channel c j groups ≡ false
is_hit_other channel c j [] h = refl
is_hit_other channel c j (g ∷ groups) h = ground (arith, is_hit_other channel c j groups)

-- The groups are of incidents with more than one intent, so the limit to one holds of all.
limited :
    (hit : Bool) (n m : ℕ) → (1 < n → hit ≡ true) → m ≡ (if hit then min 1 n else n) → m ≡ min 1 n
limited true n m h e = e
limited false n m h e = elim (Bool-cases (leb n 1)) [
  | inl few ↦ ground arith
  | inr many ↦ absurd (false≢true (h (ground arith)))
]

coalesce_pending-Keeps :
    (channel c j : String) (rows : List OutboxRow)
    → IsAscending rows
    → Keeps (is_hit channel c j (groups_of channel rows)) c j rows (coalesce_pending channel rows).0
unfolding coalesce_pending groups_of
coalesce_pending-Keeps channel c j rows a =
    let keys =
      keep_if (λ k. ltb 1 (count_if (is_intent channel k) rows)) (group_keys channel rows) in
    collapse_all-Keeps channel c j (groups_of channel rows) rows a
      (groups_for-AreNewest channel rows keys)

positive : (n : ℕ) → 1 < n → 0 < n
positive n h = omega arith

coalesce_pending-one :
    (channel j : String) (rows : List OutboxRow)
    → IsAscending rows
    → count_if (is_intent channel j) (coalesce_pending channel rows).0
      ≡ min 1 (count_if (is_intent channel j) rows)
unfolding groups_of
coalesce_pending-one channel j rows a =
    limited (is_hit channel channel j (groups_of channel rows))
      (count_if (is_intent channel j) rows) _
      (λ many.
        is_hit-groups_for channel j rows (group_keys channel rows) many
          (in_group_keys channel j rows (positive (count_if (is_intent channel j) rows) many)))
      (coalesce_pending-Keeps channel channel j rows a).intents

-- The keys of the groups: the incidents with several queued rows.
grouped :
    (channel : String) (rows : List OutboxRow) (r : OutboxRow)
    → is_queued channel r
        && any
            (λ k. k == r.incident_id)
            (keep_if (λ k. ltb 1 (count_if (is_intent channel k) rows)) (group_keys channel rows))
      ≡ is_queued channel r && ltb 1 (count_if (is_intent channel r.incident_id) rows)
grouped channel rows r =
    let n = count_if (is_intent channel r.incident_id) rows in
    let kept =
      any-keep_if channel (λ k. ltb 1 (count_if (is_intent channel k) rows)) r.incident_id
        (group_keys channel rows) in
    ap (λ b. is_queued channel r && b) kept ∙ elim (Bool-cases (ltb 1 n)) [
      | inl many ↦
          let there = in_group_keys channel r.incident_id rows (ground arith) in
          rw (many, there) refl
      | inr few ↦ rw few refl
    ]

coalesce_pending-settled :
    (channel : String) (rows : List OutboxRow)
    → IsAscending rows
    → (coalesce_pending channel rows).0 ≡ map (settled channel rows) rows
unfolding coalesce_pending groups_of
coalesce_pending-settled channel rows a =
    let q : String → Bool = λ k. ltb 1 (count_if (is_intent channel k) rows) in
    let keys = keep_if q (group_keys channel rows) in
    let apart = group_keys-AreApart channel q rows rows in
    collapse_all-turns channel (groups_for channel rows keys) rows a
      (groups_for-AreNewest channel rows keys) apart
    ∙ map_same (turns channel rows (groups_for channel rows keys)) (settled channel rows)
        (λ r.
          turns-groups_for channel rows keys apart r
          ∙ ap
              (λ b.
                if b
                then turn channel (group_for channel rows r.incident_id)
                    (marker_of channel rows (group_for channel rows r.incident_id)) r
                else r)
              (grouped channel rows r)
          ∙ turn-settled channel rows r a)
        rows

-- From a table in the order of its ids: of every incident that had intents queued on the channel
-- exactly one is still pending, the newest, and an incident without any gets none; the intents
-- queued on another channel stay as many, and their newest is the same. Of an incident with several
-- intents queued on the channel, each but the last is superseded by the last, and the last takes the
-- marker of a fallback from the last of them that had one, if any had; every other row is as it was,
-- among them all of other channels, and nothing else of a row changes.
pub coalesce_pending-newest :
    (channel c j : String) (rows : List OutboxRow)
    → IsAscending rows
    → (count_if (is_intent c j) (coalesce_pending channel rows).0 ≡ (
        if c == channel
        then min 1 (count_if (is_intent c j) rows)
        else count_if (is_intent c j) rows))
      × (max_id (is_intent c j) (coalesce_pending channel rows).0 ≡ max_id (is_intent c j) rows)
      × ((coalesce_pending channel rows).0 ≡ map (settled channel rows) rows)
coalesce_pending-newest channel c j rows a =
    let k = coalesce_pending-Keeps channel c j rows a in
    let each = coalesce_pending-settled channel rows a in
    elim (Bool-cases (c == channel)) [
      | inl same ↦
          let e : c ≡ channel = (eq_iff c channel).0 same in
          (rw (e, eq_refl channel) (coalesce_pending-one channel j rows a), k.latest, each)
      | inr other ↦ (
        rw other (k.intents ∙ (rw (is_hit_other channel c j (groups_of channel rows) other))),
        k.latest,
        each,
      )
    ]
