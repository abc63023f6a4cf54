-- ===== src/Outbox/Worker/Charges.antt =====
-- What one failed delivery costs its row in outbox/worker.py.
use vh26_pixel_perfect.Prelude.{
  ap, ℕ, ◌+◌, ◌≡◌, ◌↔◌, ◌⊎◌, refl, ◌∙◌, Bool, true, some, List, leb, nat_beq, if◌then◌else◌, arith,
  inl, inr,
}
use mathlib.Core.Bool.{false≢true}
use vh26_pixel_perfect.Outbox.FailurePolicy.{
  Failure, FailureKind, message_fatal, channel_down, transient, FailureVerdict, classify,
  is_channel_down, is_message_fatal, trips_breaker, counts_against_attempts,
}
use vh26_pixel_perfect.Outbox.FailurePolicy.Isolation.{IsOutage, IsRejection, classify_iff}
use vh26_pixel_perfect.Outbox.Tables.{Db, OutboxRow, pending, dead}
use vh26_pixel_perfect.Outbox.ChannelHealth.{record_failure}
use vh26_pixel_perfect.Outbox.Queue.{
  update_row, retry_later, dead_letter, as_retried, as_dead, Settings,
}
use vh26_pixel_perfect.Outbox.Queue.Ids.{row_at, changed, row_at-map}
use vh26_pixel_perfect.Outbox.Worker.{Worker, settle_failure, handle_failure}
use vh26_pixel_perfect.Outbox.Worker.Failures.{
  StandsAs, chosen, chosen_id, outbox-record_failure, Keeps-settle_failure,
}

-- A row that is given up without a charge.
pub record GivenUp (r r' : OutboxRow) : Type 0 where
  pub status : r'.status ≡ dead
  pub attempts : r'.attempts ≡ r.attempts

-- A row that is charged one attempt, and given up when the budget is spent.
pub record Charged (settings : Settings) (r r' : OutboxRow) : Type 0 where
  pub attempts : r'.attempts ≡ r.attempts + 1
  pub status : r'.status ≡ (if leb settings.max_attempts (r.attempts + 1) then dead else pending)

chosen_self : (r : OutboxRow) (f : OutboxRow → OutboxRow) → chosen r.outbox_id f r ≡ f r
chosen_self r f = let h : nat_beq r.outbox_id r.outbox_id ≡ true = ground arith in rw h refl

-- The row with the id of an update.
row_at-update_row :
    (r : OutboxRow) (f : OutboxRow → OutboxRow) (rows : List OutboxRow)
    → ((s : OutboxRow) → (f s).outbox_id ≡ s.outbox_id)
    → row_at r.outbox_id rows ≡ some r
    → row_at r.outbox_id (update_row r.outbox_id f rows) ≡ some (f r)
unfolding update_row
row_at-update_row r f rows same h =
    let same' = λ (s : OutboxRow). chosen_id r.outbox_id f s (same s) in
    row_at-map (chosen r.outbox_id f) same' r.outbox_id rows
    ∙ ap (changed (chosen r.outbox_id f)) h
    ∙ ap some (chosen_self r f)

-- How a failure of a kind ends for its row.
abbrev pub Ends : FailureKind → Settings → OutboxRow → OutboxRow → Type 0
Ends message_fatal settings r r' = GivenUp r r'
Ends channel_down settings r r' = StandsAs r r'
Ends transient settings r r' = Charged settings r r'

settle_failure-Ends :
    (k : FailureKind) (w : Worker) (r : OutboxRow) (verdict : FailureVerdict) (now : ℕ) (db : Db)
    (newly_down : Bool)
    → row_at r.outbox_id db.outbox ≡ some r
    → (r' : OutboxRow) × (row_at r.outbox_id (settle_failure k w r verdict now db newly_down).outbox
        ≡ some r')
      × Ends k w.settings r r'
unfolding is_channel_down settle_failure dead_letter retry_later
settle_failure-Ends message_fatal w r verdict now db newly_down h = (
  as_dead verdict.reason r,
  row_at-update_row r (as_dead verdict.reason) db.outbox (λ s. refl) h,
  record { status = refl; attempts = refl },
)
settle_failure-Ends channel_down w r verdict now db newly_down h =
    Keeps-settle_failure channel_down w r verdict now db newly_down refl r.outbox_id r h
settle_failure-Ends transient w r verdict now db newly_down h =
    let f = as_retried w.settings r.attempts verdict.reason verdict.retry_after now in
    (f r, row_at-update_row r f db.outbox (λ s. refl) h, record { status = refl; attempts = refl })

-- The kind of a verdict follows the failure.
by_failure :
    (k : FailureKind) (Outage Rejection : Type 0) (settings : Settings) (r r' : OutboxRow)
    → ((is_channel_down k ≡ true) ↔ Outage)
    → ((is_message_fatal k ≡ true) ↔ Rejection)
    → Ends k settings r r'
    → (Rejection × GivenUp r r')
      ⊎ (Outage × StandsAs r r')
      ⊎ ((¬ Rejection) × (¬ Outage) × Charged settings r r')
unfolding is_channel_down is_message_fatal
by_failure message_fatal Outage Rejection settings r r' o m ends = inl (m.0 refl, ends)
by_failure channel_down Outage Rejection settings r r' o m ends = inr (inl (o.0 refl, ends))
by_failure transient Outage Rejection settings r r' o m ends =
    inr (inr (λ rej. false≢true (m.1 rej), λ out. false≢true (o.1 out), ends))

-- Handling the failure of a row's delivery leaves the row in the queue. If the provider rejected the
-- message, the row is dead and keeps its attempts; if the channel is down, it keeps status and
-- attempts; and any other failure charges it one attempt, after which it is dead exactly if the
-- attempts have reached the limit.
pub handle_failure-Ends :
    (w : Worker) (r : OutboxRow) (e : Failure) (now : ℕ) (db : Db)
    → row_at r.outbox_id db.outbox ≡ some r
    → (r' : OutboxRow) × (row_at r.outbox_id (handle_failure w r e now db).outbox ≡ some r')
      × ((IsRejection e × GivenUp r r')
          ⊎ (IsOutage e × StandsAs r r')
          ⊎ ((¬ IsRejection e) × (¬ IsOutage e) × Charged w.settings r r'))
unfolding handle_failure trips_breaker counts_against_attempts
handle_failure-Ends w r e now db h =
    let told = record_failure w.breaker db r.channel (classify e) now in
    let same = outbox-record_failure w.breaker db r.channel (classify e) now in
    let (r', at, ends) =
      settle_failure-Ends (classify e).kind w r (classify e) now told.0 told.1
        (ap (row_at r.outbox_id) same ∙ h) in
    let facts =
      by_failure (classify e).kind (IsOutage e) (IsRejection e) w.settings r r' (classify_iff e).0
        (classify_iff e).1 ends in
    (r', at, facts)
