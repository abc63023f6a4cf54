-- ===== src/Outbox/Recovery/Rounds.antt =====
-- The rounds over the groups of a queue in outbox/recovery.py.
use vh26_pixel_perfect.Prelude.{
  ℕ, ◌≡◌, min, refl, Bool, true, false, ◌&&◌, String, string_eq, ◌==◌, eq_iff, Option, none, some,
  List, [], ◌∷◌, map, count_if, if◌then◌else◌, arith, ◌∙◌, sym, Bool-cases, inl, inr, All,
}
use vh26_pixel_perfect.Outbox.Tables.{OutboxRow, is_pending}
use vh26_pixel_perfect.Outbox.Recovery.{
  is_queued, is_intent, max_id, newest, Group, carry_marker, with_marker, loses, supersede,
  collapse, has_marker, mark, apply_marker, collapse_all,
}
use vh26_pixel_perfect.Outbox.Recovery.Counts.{
  IsAscending, count_if_congr, max_id_congr, count_if-map, max_id-map, IsAscending-map, kept,
  kept-newest,
}

-- What a round of changes keeps of the rows of an incident on a channel.
pub record Keeps (limited : Bool) (c j : String) (rows rows' : List OutboxRow) : Type 0 where
  pub intents :
      count_if (is_intent c j) rows'
      ≡ (if limited then min 1 (count_if (is_intent c j) rows) else count_if (is_intent c j) rows)
  pub latest : max_id (is_intent c j) rows' ≡ max_id (is_intent c j) rows

Keeps-trans :
    (a b : Bool) (c j : String) (x y z : List OutboxRow)
    → Keeps a c j x y
    → Keeps b c j y z
    → Keeps (if a then true else b) c j x z
Keeps-trans true true c j x y z p q = ground (arith, p.intents, q.intents, p.latest, q.latest)
Keeps-trans true false c j x y z p q = ground (arith, p.intents, q.intents, p.latest, q.latest)
Keeps-trans false b c j x y z p q = ground (arith, p.intents, q.intents, p.latest, q.latest)

-- A map over the rows that keeps ids and the test itself.
Keeps-map :
    (f : OutboxRow → OutboxRow) (c j : String) (rows : List OutboxRow)
    → ((r : OutboxRow) → (f r).outbox_id ≡ r.outbox_id)
    → ((r : OutboxRow) → is_intent c j (f r) ≡ is_intent c j r)
    → Keeps false c j rows (map f rows)
Keeps-map f c j rows same keeps = record {
  intents =
      count_if-map (is_intent c j) f rows
      ∙ count_if_congr (λ r. is_intent c j (f r)) (is_intent c j) rows keeps;
  latest =
      max_id-map (is_intent c j) f same rows
      ∙ max_id_congr (λ r. is_intent c j (f r)) (is_intent c j) rows keeps;
}

outbox_id-mark :
    (via : Option String) (w : ℕ) (r : OutboxRow) → (mark via w r).outbox_id ≡ r.outbox_id
unfolding mark with_marker
outbox_id-mark via w r = ground arith

pub is_intent-mark :
    (via : Option String) (w : ℕ) (c j : String) (r : OutboxRow)
    → is_intent c j (mark via w r) ≡ is_intent c j r
unfolding mark with_marker is_intent
is_intent-mark via w c j r = ground arith

apply_marker-Keeps :
    (w : ℕ) (m : Option OutboxRow) (c j : String) (rows : List OutboxRow)
    → Keeps false c j rows (apply_marker w m rows)
unfolding apply_marker
apply_marker-Keeps w none c j rows = record { intents = refl; latest = refl }
apply_marker-Keeps w (some m) c j rows =
    let via = m.payload.delivered_via_fallback in
    Keeps-map (mark via w) c j rows (outbox_id-mark via w) (is_intent-mark via w c j)

apply_marker-IsAscending :
    (w : ℕ) (m : Option OutboxRow) (rows : List OutboxRow)
    → IsAscending rows
    → IsAscending (apply_marker w m rows)
unfolding apply_marker
apply_marker-IsAscending w none rows a = a
apply_marker-IsAscending w (some m) rows a =
    let via = m.payload.delivered_via_fallback in
    IsAscending-map (mark via w) (outbox_id-mark via w) rows a

is_intent-supersede :
    (channel c j : String) (g : Group) (r : OutboxRow)
    → is_intent c j (supersede channel g r) ≡ (
        if c == channel && j == g.incident_id
        then kept (is_intent c j) g.winner r
        else is_intent c j r)
unfolding supersede loses is_intent is_queued is_pending
is_intent-supersede channel c j g r = ground (
  arith,
  eq_iff c channel,
  eq_iff j g.incident_id,
  eq_iff r.channel c,
  eq_iff r.channel channel,
  eq_iff r.incident_id j,
  eq_iff r.incident_id g.incident_id,
)

outbox_id-supersede :
    (channel : String) (g : Group) (r : OutboxRow) → (supersede channel g r).outbox_id ≡ r.outbox_id
unfolding supersede
outbox_id-supersede channel g r = ground arith

-- Whether a round over `g` may drop intents of the incident `j` on the channel `c`.
abbrev pub hits : String → String → String → Group → Bool
hits channel c j g = c == channel && j == g.incident_id

hits_eq :
    (channel c j : String) (g : Group)
    → hits channel c j g ≡ true
    → (c ≡ channel) × (j ≡ g.incident_id)
hits_eq channel c j g h = ground (arith, eq_iff c channel, eq_iff j g.incident_id)

supersede-Keeps :
    (channel c j : String) (g : Group) (rows : List OutboxRow)
    → IsAscending rows
    → g.winner ≡ max_id (is_intent channel g.incident_id) rows
    → Keeps (hits channel c j g) c j rows (map (supersede channel g) rows)
supersede-Keeps channel c j g rows a w = elim (Bool-cases (hits channel c j g)) [
  | inl hit ↦
      let f = supersede channel g in
      let after : (r : OutboxRow) → is_intent c j (f r) ≡ kept (is_intent c j) g.winner r =
        λ r. is_intent-supersede channel c j g r ∙ (rw hit) in
      let e = hits_eq channel c j g hit in
      let w' : g.winner ≡ max_id (is_intent c j) rows = rw (e.0, e.1) w in
      let k = kept-newest (is_intent c j) g.winner rows a w' in
      rw hit (record {
        intents =
            count_if-map (is_intent c j) f rows
            ∙ count_if_congr (λ r. is_intent c j (f r)) (kept (is_intent c j) g.winner) rows after
            ∙ k.0;
        latest =
            max_id-map (is_intent c j) f (outbox_id-supersede channel g) rows
            ∙ max_id_congr (λ r. is_intent c j (f r)) (kept (is_intent c j) g.winner) rows after
            ∙ k.1
            ∙ w';
      })
  | inr miss ↦ rw miss (
      Keeps-map (supersede channel g) c j rows (outbox_id-supersede channel g)
        (λ r. is_intent-supersede channel c j g r ∙ (rw miss)))
]

collapse-Keeps :
    (channel c j : String) (g : Group) (rows : List OutboxRow)
    → IsAscending rows
    → g.winner ≡ max_id (is_intent channel g.incident_id) rows
    → Keeps (hits channel c j g) c j rows (collapse channel g rows).0
unfolding collapse carry_marker
collapse-Keeps channel c j g rows a w =
    let m = newest (λ r. is_intent channel g.incident_id r && has_marker r) rows in
    let w' = w ∙ sym (apply_marker-Keeps g.winner m channel g.incident_id rows).latest in
    Keeps-trans false (hits channel c j g) c j rows (apply_marker g.winner m rows) _
      (apply_marker-Keeps g.winner m c j rows)
      (supersede-Keeps channel c j g (apply_marker g.winner m rows)
        (apply_marker-IsAscending g.winner m rows a) w')

pub collapse-IsAscending :
    (channel : String) (g : Group) (rows : List OutboxRow)
    → IsAscending rows
    → IsAscending (collapse channel g rows).0
unfolding collapse carry_marker
collapse-IsAscending channel g rows a =
    IsAscending-map (supersede channel g) (outbox_id-supersede channel g) _
      (apply_marker-IsAscending g.winner _ rows a)

-- Each group names the newest id of its incident.
abbrev pub AreNewest : String → List Group → List OutboxRow → Type 0
AreNewest channel groups rows =
    All (λ g. g.winner ≡ max_id (is_intent channel g.incident_id) rows) groups

pub collapse-AreNewest :
    (channel : String) (g : Group) (groups : List Group) (rows : List OutboxRow)
    → IsAscending rows
    → g.winner ≡ max_id (is_intent channel g.incident_id) rows
    → AreNewest channel groups rows
    → AreNewest channel groups (collapse channel g rows).0
collapse-AreNewest channel g [] rows a w n = tt
collapse-AreNewest channel g (h ∷ groups) rows a w n = (
  n.0 ∙ sym (collapse-Keeps channel channel h.incident_id g rows a w).latest,
  collapse-AreNewest channel g groups rows a w n.1,
)

abbrev pub is_hit : String → String → String → List Group → Bool
is_hit channel c j [] = false
is_hit channel c j (g ∷ groups) = if hits channel c j g then true else is_hit channel c j groups

pub collapse_all-Keeps :
    (channel c j : String) (groups : List Group) (rows : List OutboxRow)
    → IsAscending rows
    → AreNewest channel groups rows
    → Keeps (is_hit channel c j groups) c j rows (collapse_all channel groups rows).0
unfolding collapse_all
collapse_all-Keeps channel c j [] rows a n = record { intents = refl; latest = refl }
collapse_all-Keeps channel c j (g ∷ groups) rows a n =
    Keeps-trans (hits channel c j g) (is_hit channel c j groups) c j rows _ _
      (collapse-Keeps channel c j g rows a n.0)
      (collapse_all-Keeps channel c j groups (collapse channel g rows).0
        (collapse-IsAscending channel g rows a)
        (collapse-AreNewest channel g groups rows a n.0 n.1))
