-- ===== src/Outbox/ChannelHealth/Ledger.antt =====
-- The ledger of outages in outbox/channel_health.py agrees with the breakers.
use vh26_pixel_perfect.Prelude.{
  ℕ, ◌+◌, ◌-◌, ◌≡◌, refl, ◌∙◌, Bool, true, false, ◌&&◌, String, string_eq, ◌==◌, eq_iff, some, List,
  [], ◌∷◌, arith, if◌then◌else◌, count_if, Bool-cases, inl, inr,
}
use vh26_pixel_perfect.Outbox.FailurePolicy.{FailureVerdict, Reason, trips_breaker}
use vh26_pixel_perfect.Outbox.Tables.{Db, Outage, Breaker, closed, opened, half_open}
use vh26_pixel_perfect.Outbox.ChannelHealth.{
  row_of, state_of, upsert, record_success, record_failure, record_probe_result, channel_failure,
  declare_outage, close_outage, is_down, is_ongoing, update_ongoing, mark_failed_over,
}
use vh26_pixel_perfect.Outbox.HealthColumns.{BreakerConfig}
use vh26_pixel_perfect.Outbox.ChannelHealth.Transitions.{
  failed, tripped, row_of-record_success, row_of-record_failure, row_of-record_probe_result,
}

abbrev pub ongoing : String → List Outage → ℕ
ongoing c = count_if (is_ongoing c)

-- The outages in progress of a channel: one while its breaker is not CLOSED, none otherwise.
abbrev pub IsBalanced : Db → String → Type 0
IsBalanced db c = ongoing c db.outages ≡ (if is_down (row_of db c).state then 1 else 0)

ongoing-update_same :
    (c channel : String) (change : Outage → Outage) (outages : List Outage)
    → ((o : Outage) → is_ongoing c (change o) ≡ is_ongoing c o)
    → ongoing c (update_ongoing channel change outages) ≡ ongoing c outages
unfolding update_ongoing
ongoing-update_same c channel change [] same = refl
ongoing-update_same c channel change (o ∷ outages) same = elim (Bool-cases (is_ongoing channel o)) [
  | inl here ↦ ground (arith, same o)
  | inr there ↦ ground (arith, ongoing-update_same c channel change outages same)
]

-- Of two channels that share an ongoing outage, one is the other.
same_channel :
    (c channel : String) (o : Outage)
    → is_ongoing channel o ≡ true
    → is_ongoing c o ≡ (channel == c)
unfolding is_ongoing
same_channel c channel o h =
    ground (arith, eq_iff o.channel channel, eq_iff o.channel c, eq_iff channel c)

recovered_at-ongoing :
    (c : String) (now : ℕ) (o : Outage)
    → is_ongoing c (record o { recovered_at = some now }) ≡ false
unfolding is_ongoing
recovered_at-ongoing c now o = refl

ongoing-close :
    (c channel : String) (now : ℕ) (outages : List Outage)
    → ongoing c (update_ongoing channel (λ o. record o { recovered_at = some now }) outages)
      ≡ (if channel == c then ongoing c outages - 1 else ongoing c outages)
unfolding update_ongoing
ongoing-close c channel now [] = ground arith
ongoing-close c channel now (o ∷ outages) = elim (Bool-cases (is_ongoing channel o)) [
  | inl here ↦ ground (arith, recovered_at-ongoing c now o, same_channel c channel o here)
  | inr there ↦ ground (arith, ongoing-close c channel now outages, eq_iff channel c)
]

ongoing-declare_outage :
    (config : BreakerConfig) (db : Db) (c channel : String) (verdict : FailureVerdict) (now : ℕ)
    → ongoing c (declare_outage config db channel verdict now).outages
      ≡ (if channel == c then 1 else 0) + ongoing c db.outages
unfolding declare_outage upsert is_ongoing
ongoing-declare_outage config db c channel verdict now = refl

ongoing-channel_failure :
    (config : BreakerConfig) (db : Db) (c channel : String) (b : Breaker) (verdict : FailureVerdict)
    (now : ℕ)
    → ongoing c (channel_failure config b db channel verdict now).0.outages
      ≡ (if (channel_failure config b db channel verdict now).1 && channel == c then 1 else 0)
        + ongoing c db.outages
unfolding channel_failure upsert
ongoing-channel_failure config db c channel closed verdict now =
    ground (arith, ongoing-declare_outage config db c channel verdict now)
ongoing-channel_failure config db c channel opened verdict now = omega arith
ongoing-channel_failure config db c channel half_open verdict now = omega arith

ongoing-record_failure :
    (config : BreakerConfig) (db : Db) (c channel : String) (verdict : FailureVerdict) (now : ℕ)
    → ongoing c (record_failure config db channel verdict now).0.outages
      ≡ (if (record_failure config db channel verdict now).1 && channel == c then 1 else 0)
        + ongoing c db.outages
unfolding record_failure upsert
ongoing-record_failure config db c channel verdict now =
    ground
      (arith, ongoing-channel_failure config db c channel (state_of db channel).state verdict now)

down-tripped :
    (config : BreakerConfig) (db : Db) (channel : String) (b : Breaker) (verdict : FailureVerdict)
    (now : ℕ)
    → (row_of db channel).state ≡ b
    → (if is_down (tripped config b verdict now (row_of db channel)).state then 1 else 0)
      ≡ (if (channel_failure config b db channel verdict now).1 then 1 else 0)
        + (if is_down (row_of db channel).state then 1 else 0)
unfolding channel_failure state_of is_down
down-tripped config db channel closed verdict now e = ground arith
down-tripped config db channel opened verdict now e = ground arith
down-tripped config db channel half_open verdict now e = ground arith

down-record_failure :
    (config : BreakerConfig) (db : Db) (channel : String) (verdict : FailureVerdict) (now : ℕ)
    → (if is_down (failed config verdict now (row_of db channel)).state then 1 else 0)
      ≡ (if (record_failure config db channel verdict now).1 then 1 else 0)
        + (if is_down (row_of db channel).state then 1 else 0)
unfolding record_failure state_of
down-record_failure config db channel verdict now = elim (Bool-cases (trips_breaker verdict)) [
  | inl trips ↦ rw trips (down-tripped config db channel (row_of db channel).state verdict now refl)
  | inr not_trips ↦ rw not_trips (omega arith)
]

-- The ledger of each channel has one outage in progress while the breaker is not CLOSED, and none
-- while it is: a failure of any channel keeps that.
pub record_failure-IsBalanced :
    (config : BreakerConfig) (db : Db) (c channel : String) (verdict : FailureVerdict) (now : ℕ)
    → IsBalanced db c
    → IsBalanced (record_failure config db channel verdict now).0 c
record_failure-IsBalanced config db c channel verdict now h = ground (
  arith,
  ongoing-record_failure config db c channel verdict now,
  down-record_failure config db channel verdict now,
  row_of-record_failure config db channel c now verdict,
  eq_iff channel c,
)

-- So does a delivery: if it finds the channel down it closes the outage in progress.
pub record_success-IsBalanced :
    (db : Db) (c channel : String) (now : ℕ)
    → IsBalanced db c
    → IsBalanced (record_success db channel now).0 c
unfolding record_success close_outage upsert is_down state_of
record_success-IsBalanced db c channel now h = ground (
  arith,
  ongoing-close c channel now db.outages,
  row_of-record_success db channel c now,
  eq_iff channel c,
)

-- So does a probe of an OPEN channel, whatever it found.
pub record_probe_result-IsBalanced :
    (config : BreakerConfig) (db : Db) (c channel : String) (healthy : Bool) (detail : Reason)
    (now : ℕ)
    → (row_of db channel).state ≡ opened
    → IsBalanced db c
    → IsBalanced (record_probe_result config db channel healthy detail now) c
unfolding record_probe_result upsert is_down is_ongoing
record_probe_result-IsBalanced config db c channel true detail now e h =
    ground (arith, row_of-record_probe_result config db channel c now true detail, eq_iff channel c)
record_probe_result-IsBalanced config db c channel false detail now e h = ground (
  arith,
  row_of-record_probe_result config db channel c now false detail,
  eq_iff channel c,
  ongoing-update_same c channel (λ o. record o { probe_attempts = o.probe_attempts + 1 }) db.outages
      (λ o. refl),
)

pub mark_failed_over-IsBalanced :
    (db : Db) (c channel : String) (count : ℕ)
    → IsBalanced db c
    → IsBalanced (mark_failed_over db channel count) c
unfolding mark_failed_over row_of is_ongoing
mark_failed_over-IsBalanced db c channel count h =
    ongoing-update_same c channel (λ o. record o { failed_over = o.failed_over + count }) db.outages
      (λ o. refl)
    ∙ h
