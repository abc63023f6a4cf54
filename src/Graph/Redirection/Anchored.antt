-- ===== src/Graph/Redirection/Anchored.antt =====
-- engine/process_event.py: a member of a storm sends no card of its own.
use mathlib.Core.Bool.{false≢true}
use vh26_pixel_perfect.Prelude.{
  ℕ, Bool, true, false, not, ◌&&◌, ◌||◌, ◌≡◌, refl, sym, ◌∙◌, ap, String, string_eq, nat_eq, ◌==◌,
  nat_beq_iff, Option, none, some, List, [], ◌∷◌, ◌++◌, map, keep_if, All, if◌then◌else◌, arith,
  Bool-cases, inl, inr,
}
use vh26_pixel_perfect.Graph.Tables.{Tables, GroupAssignment}
use vh26_pixel_perfect.Graph.StormGrouping.{is_multi_member, assign_group, refresh_group_for_member}
use vh26_pixel_perfect.Graph.Redirection.{
  OutboxRow, is_queued, merge_notice, redirected, already_posted, redirect_member_deliveries,
  redirect_if, or_else, correlate,
}

-- Only the announcement of the storm is still queued for the member.
abbrev pub IsAnnounced : ℕ → ℕ → List OutboxRow → Type 0
IsAnnounced member anchor rows =
    All (λ r. is_queued member r ≡ true → r.merged_into ≡ some anchor) rows

-- The rows of other incidents.
abbrev pub others : ℕ → ℕ → List OutboxRow → List OutboxRow
others member anchor rows =
    keep_if (λ r. not (r.incident_id == member || r.incident_id == anchor)) rows

module _ (member anchor : ℕ) (apart : (anchor == member) ≡ false) where
  redirected-not_queued : (r : OutboxRow) → is_queued member (redirected member anchor r) ≡ false
  redirected-not_queued r = elim (Bool-cases (is_queued member r)) [
    | inl e ↦ rw (e, apart) refl
    | inr e ↦ rw e e
  ]

  IsAnnounced-notice :
      (now : ℕ) (posted : Bool)
      → IsAnnounced member anchor (if posted then merge_notice member anchor now ∷ [] else [])
  IsAnnounced-notice now true = (λ _. refl, tt)
  IsAnnounced-notice now false = tt

  IsAnnounced-redirected :
      (rows new : List OutboxRow)
      → IsAnnounced member anchor new
      → IsAnnounced member anchor (map (redirected member anchor) rows ++ new)
  IsAnnounced-redirected [] new h = h
  IsAnnounced-redirected (r ∷ rows) new h = (
    λ queued. absurd (false≢true (sym (redirected-not_queued r) ∙ queued)),
    IsAnnounced-redirected rows new h,
  )

  others-notice :
      (now : ℕ) (posted : Bool)
      → others member anchor (if posted then merge_notice member anchor now ∷ [] else []) ≡ []
  others-notice now true = rw ((nat_beq_iff member member).1 refl) refl
  others-notice now false = refl

  others-redirected :
      (rows new : List OutboxRow)
      → others member anchor new ≡ []
      → others member anchor (map (redirected member anchor) rows ++ new)
        ≡ others member anchor rows
  others-redirected [] new h = h
  others-redirected (r ∷ rows) new h =
      let rest = others-redirected rows new h in
      elim (Bool-cases (is_queued member r)) [
        | inl e ↦
            let own : (r.incident_id == member) ≡ true = ground arith in
            rw (e, own, apart, (nat_beq_iff anchor anchor).1 refl) rest
        | inr e ↦
            rw e (elim (Bool-cases (not (r.incident_id == member || r.incident_id == anchor))) [
              | inl kept ↦ rw kept (ap (λ xs. r ∷ xs) rest)
              | inr dropped ↦ rw dropped rest
            ])
      ]

-- What placing an incident does to the outbox: nothing, unless it ends in a storm of several incidents
-- that another one anchors.
abbrev pub Anchors : ℕ → List OutboxRow → Option GroupAssignment → List OutboxRow → Type 0
Anchors id rows none after = after ≡ rows
Anchors id rows (some a) after =
    if is_multi_member a && not (a.anchor_incident_id == id)
    then IsAnnounced id a.anchor_incident_id after
      × (others id a.anchor_incident_id after ≡ others id a.anchor_incident_id rows)
    else after ≡ rows

redirect_if-Anchors :
    (rows : List OutboxRow) (id : ℕ) (assignment : Option GroupAssignment) (now : ℕ)
    → Anchors id rows assignment (redirect_if rows id assignment now)
unfolding redirect_member_deliveries
redirect_if-Anchors rows id none now = refl
redirect_if-Anchors rows id (some a) now =
    elim (Bool-cases (is_multi_member a && not (a.anchor_incident_id == id))) [
      | inr e ↦ rw e refl
      | inl e ↦
          let anchor = a.anchor_incident_id in
          let apart : (anchor == id) ≡ false = ground arith in
          let posted = already_posted id rows in
          let notice = if posted then merge_notice id anchor now ∷ [] else [] in
          rw e (
            IsAnnounced-redirected id anchor apart rows notice
                (IsAnnounced-notice id anchor apart now posted),
            others-redirected id anchor apart rows notice
                (others-notice id anchor apart now posted),
          )
    ]

-- Whatever the tables, placing an incident changes the outbox only if it ends in a storm of several
-- incidents that another one anchors. Then nothing is queued for the incident itself but the
-- announcement that it was merged into the anchor, and the rows of all other incidents but the anchor are
-- as they were.
pub correlate-Anchors :
    (threshold : ℕ) (t : Tables) (rows : List OutboxRow) (id : ℕ) (scope : String) (fresh now : ℕ)
    → (let (_, assignment, after) = correlate threshold t rows id scope fresh now in
        Anchors id rows assignment after)
unfolding correlate
correlate-Anchors threshold t rows id scope fresh now =
    let first = assign_group threshold t id scope fresh now in
    redirect_if-Anchors rows id (or_else first (refresh_group_for_member first.0 id now)).1 now
