-- ===== src/Outbox/Worker/Failures.antt =====
-- What a failed delivery does to the rows of the queue in outbox/worker.py.
use vh26_pixel_perfect.Prelude.{
  ap, ℕ, ◌+◌, ◌≡◌, refl, ◌∙◌, Bool, true, false, String, some, List, [], ◌∷◌, ◌++◌, nat_beq, any,
  all, keep_if, ltb, if◌then◌else◌, arith, Bool-cases, Option-cases, inl, inr,
}
use mathlib.Core.Bool.{false≢true}
use vh26_pixel_perfect.Outbox.FailurePolicy.{
  Failure, FailureKind, message_fatal, channel_down, transient, FailureVerdict, classify,
  is_channel_down, trips_breaker,
}
use vh26_pixel_perfect.Outbox.FailurePolicy.Isolation.{IsOutage, classify_iff}
use vh26_pixel_perfect.Outbox.Routing.{FailoverTarget}
use vh26_pixel_perfect.Outbox.Tables.{Db, OutboxRow, Breaker, closed, opened, half_open}
use vh26_pixel_perfect.Outbox.ChannelHealth.{
  record_failure, state_of, mark_failed_over, upsert, channel_failure, declare_outage,
}
use vh26_pixel_perfect.Outbox.HealthColumns.{BreakerConfig}
use vh26_pixel_perfect.Outbox.Queue.{update_row, park, as_parked, in_order}
use vh26_pixel_perfect.Outbox.Queue.Ids.{row_at, changed, row_at-map}
use vh26_pixel_perfect.Outbox.Worker.{
  Worker, reroute, via_fallback, stand_in, next_id, failover_loop, fallback_of, failover_pending,
  is_primary, known_channels, settle_failure, handle_failure, with_rows, Request, Outcome, raised,
  dispatch, settle, dispatch_all, request_of, is_known, other_available,
}

-- A row keeps its status and its attempts.
pub record StandsAs (r r' : OutboxRow) : Type 0 where
  pub status : r'.status ≡ r.status
  pub attempts : r'.attempts ≡ r.attempts

-- Every row of a queue is still there in another, with its status and its attempts.
abbrev pub Keeps : List OutboxRow → List OutboxRow → Type 0
Keeps rows rows' =
    (id : ℕ) (r : OutboxRow)
    → row_at id rows ≡ some r
    → (r' : OutboxRow) × (row_at id rows' ≡ some r') × StandsAs r r'

Keeps-refl : (rows : List OutboxRow) → Keeps rows rows
Keeps-refl rows id r h = (r, h, record { status = refl; attempts = refl })

Keeps-trans : (a b c : List OutboxRow) → Keeps a b → Keeps b c → Keeps a c
Keeps-trans a b c p q id r h =
    let (s, hs, es) = p id r h in
    let (t, ht, et) = q id s hs in
    (t, ht, record { status = et.status ∙ es.status; attempts = et.attempts ∙ es.attempts })

Keeps-append : (rows new : List OutboxRow) → Keeps rows (rows ++ new)
unfolding row_at
Keeps-append [] new id r h = cc
Keeps-append (s ∷ rows) new id r h = elim (Bool-cases (nat_beq s.outbox_id id)) [
  | inl here ↦ (r, rw here (rw here at h), record { status = refl; attempts = refl })
  | inr there ↦ let (r', h', e) = Keeps-append rows new id r (rw there at h) in (r', rw there h', e)
]

abbrev pub chosen : ℕ → (OutboxRow → OutboxRow) → OutboxRow → OutboxRow
chosen k f r = if nat_beq r.outbox_id k then f r else r

pub chosen_id :
    (k : ℕ) (f : OutboxRow → OutboxRow) (r : OutboxRow)
    → (f r).outbox_id ≡ r.outbox_id
    → (chosen k f r).outbox_id ≡ r.outbox_id
chosen_id k f r same = ground arith

Keeps-update_row :
    (k : ℕ) (f : OutboxRow → OutboxRow) (rows : List OutboxRow)
    → ((r : OutboxRow) → (f r).outbox_id ≡ r.outbox_id)
    → ((r : OutboxRow) → StandsAs r (f r))
    → Keeps rows (update_row k f rows)
unfolding update_row
Keeps-update_row k f rows same stands id r h =
    let same' = λ (r : OutboxRow). chosen_id k f r (same r) in
    let at = row_at-map (chosen k f) same' id rows ∙ ap (changed (chosen k f)) h in
    elim (Bool-cases (nat_beq r.outbox_id k)) [
      | inl this ↦ (f r, at ∙ rw this refl, stands r)
      | inr other ↦ (r, at ∙ rw other refl, record { status = refl; attempts = refl })
    ]

module _ (w : Worker) (channel : String) (available : String → Bool) (now : ℕ) where
  Keeps-reroute :
      (target : FailoverTarget) (r : OutboxRow) (rows : List OutboxRow)
      → Keeps rows (reroute w channel target now r rows)
  unfolding reroute
  Keeps-reroute target r rows =
      let new = stand_in w channel target (next_id rows) now r ∷ [] in
      Keeps-trans rows (rows ++ new) _ (Keeps-append rows new) (
        Keeps-update_row r.outbox_id (via_fallback target.channel) (rows ++ new) (λ r. refl)
          (λ r. record { status = refl; attempts = refl }))

  Keeps-failover_loop :
      (selected rows : List OutboxRow)
      → Keeps rows (failover_loop w channel available now selected rows).0
  unfolding failover_loop
  Keeps-failover_loop [] rows = Keeps-refl rows
  Keeps-failover_loop (r ∷ selected) rows = elim (Option-cases (fallback_of channel available r)) [
    | inl nowhere ↦ rw (nowhere, failover_loop) (Keeps-failover_loop selected rows)
    | inr (target, there) ↦
        let rows' = reroute w channel target now r rows in
        rw (there, failover_loop)
          (Keeps-trans rows rows' _ (Keeps-reroute target r rows)
            (Keeps-failover_loop selected rows'))
  ]

outbox-channel_failure :
    (config : BreakerConfig) (state : Breaker) (db : Db) (channel : String)
    (verdict : FailureVerdict) (now : ℕ)
    → (channel_failure config state db channel verdict now).0.outbox ≡ db.outbox
unfolding channel_failure declare_outage upsert
outbox-channel_failure config closed db channel verdict now =
    elim (Bool-cases
      (ltb ((state_of db channel).consecutive_failures + 1) config.failure_threshold)) [
        | inl below ↦ rw below refl
        | inr reached ↦ rw reached refl
      ]
outbox-channel_failure config opened db channel verdict now = refl
outbox-channel_failure config half_open db channel verdict now = refl

pub outbox-record_failure :
    (config : BreakerConfig) (db : Db) (channel : String) (verdict : FailureVerdict) (now : ℕ)
    → (record_failure config db channel verdict now).0.outbox ≡ db.outbox
unfolding record_failure upsert
outbox-record_failure config db channel verdict now = elim (Bool-cases (trips_breaker verdict)) [
  | inl trips ↦
      rw trips (outbox-channel_failure config (state_of db channel).state db channel verdict now)
  | inr not_trips ↦ rw not_trips refl
]

outbox-mark_failed_over :
    (b : Bool) (db : Db) (channel : String) (n : ℕ)
    → (if b then db else mark_failed_over db channel n).outbox ≡ db.outbox
unfolding mark_failed_over
outbox-mark_failed_over true db channel n = refl
outbox-mark_failed_over false db channel n = refl

Keeps-failover_pending :
    (w : Worker) (channel : String) (now : ℕ) (db : Db)
    → Keeps db.outbox (failover_pending w channel now db).outbox
unfolding failover_pending
Keeps-failover_pending w channel now db =
    elim (Bool-cases (any (other_available db channel) known_channels)) [
      | inl some_up ↦
          let selected = in_order (keep_if (is_primary channel) db.outbox) in
          let kept =
            Keeps-failover_loop w channel (other_available db channel) now selected db.outbox in
          let end = failover_loop w channel (other_available db channel) now selected db.outbox in
          rw
            (
              some_up,
              outbox-mark_failed_over (nat_beq end.1 0) (record db { outbox = end.0 }) channel
                  end.1,
            )
            kept
      | inr none_up ↦ rw none_up (Keeps-refl db.outbox)
    ]

Keeps-same : (a b : List OutboxRow) → b ≡ a → Keeps a b
Keeps-same a b e = rw e (Keeps-refl a)

Keeps-park :
    (w : Worker) (r : OutboxRow) (verdict : FailureVerdict) (now : ℕ) (db : Db)
    → Keeps db.outbox
        (park r.outbox_id (state_of db r.channel).next_probe_at verdict.reason now db.outbox)
unfolding park
Keeps-park w r verdict now db =
    Keeps-update_row r.outbox_id
      (as_parked (state_of db r.channel).next_probe_at verdict.reason now) db.outbox (λ s. refl)
      (λ s. record { status = refl; attempts = refl })

pub Keeps-settle_failure :
    (k : FailureKind) (w : Worker) (r : OutboxRow) (verdict : FailureVerdict) (now : ℕ) (db : Db)
    (newly_down : Bool)
    → is_channel_down k ≡ true
    → Keeps db.outbox (settle_failure k w r verdict now db newly_down).outbox
unfolding settle_failure is_channel_down park
Keeps-settle_failure message_fatal w r verdict now db newly_down h = absurd (false≢true h)
Keeps-settle_failure transient w r verdict now db newly_down h = absurd (false≢true h)
Keeps-settle_failure channel_down w r verdict now db false h = Keeps-park w r verdict now db
Keeps-settle_failure channel_down w r verdict now db true h =
    let at = (state_of db r.channel).next_probe_at in
    let db' = with_rows db (park r.outbox_id at verdict.reason now) in
    Keeps-trans db.outbox db'.outbox _ (Keeps-park w r verdict now db)
      (Keeps-failover_pending w r.channel now db')

-- An outage that a delivery meets: no row of the queue changes its status or its attempts.
pub Keeps-handle_failure :
    (w : Worker) (r : OutboxRow) (e : Failure) (now : ℕ) (db : Db)
    → IsOutage e
    → Keeps db.outbox (handle_failure w r e now db).outbox
unfolding handle_failure trips_breaker
Keeps-handle_failure w r e now db outage =
    let told = record_failure w.breaker db r.channel (classify e) now in
    Keeps-trans db.outbox told.0.outbox _
      (Keeps-same db.outbox told.0.outbox
        (outbox-record_failure w.breaker db r.channel (classify e) now))
      (Keeps-settle_failure (classify e).kind w r (classify e) now told.0 told.1
        ((classify_iff e).0.1 outage))

-- Every request is met by an outage.
abbrev pub IsDown : (Request → Outcome) → Type 0
IsDown send = (q : Request) → (e : Failure) × (send q ≡ raised e) × IsOutage e

Keeps-dispatch :
    (w : Worker) (send : Request → Outcome) (now : ℕ) (r : OutboxRow) (db : Db)
    → IsDown send
    → is_known r.channel ≡ true
    → Keeps db.outbox (dispatch w send now r db).outbox
unfolding dispatch settle
Keeps-dispatch w send now r db down known =
    let (e, answer, outage) = down (request_of w r db.outbox) in
    rw (known, answer) (Keeps-handle_failure w r e now db outage)

-- While every request is met by an outage, dispatching rows of known channels changes neither the
-- status nor the attempts of any row of the queue, though rows may be added to it: an outage spends
-- no row's retries and loses no row.
pub Keeps-dispatch_all :
    (w : Worker) (send : Request → Outcome) (now : ℕ) (rows : List OutboxRow) (db : Db)
    → IsDown send
    → all (λ r. is_known r.channel) rows ≡ true
    → Keeps db.outbox (dispatch_all w send now rows db).outbox
unfolding dispatch_all
Keeps-dispatch_all w send now [] db down known = Keeps-refl db.outbox
Keeps-dispatch_all w send now (r ∷ rows) db down known =
    let db' = dispatch w send now r db in
    Keeps-trans db.outbox db'.outbox _ (Keeps-dispatch w send now r db down (ground arith))
      (Keeps-dispatch_all w send now rows db' down (ground arith))
