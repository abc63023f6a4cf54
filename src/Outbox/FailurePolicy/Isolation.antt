-- ===== src/Outbox/FailurePolicy/Isolation.antt =====
-- Which failures of outbox/failure_policy.py accuse the channel, and which the message.
use vh26_pixel_perfect.Prelude.{
  ◌≤◌, ◌<◌, ◌≡◌, ◌≢◌, ◌↔◌, ◌⊎◌, Bool, true, not, String, List, [], ◌∷◌, arith, all, string_eq, ◌==◌,
  eq_iff, Bool-cases, inl, inr, refl, if◌then◌else◌,
}
use vh26_pixel_perfect.Outbox.FailurePolicy.{
  Failure, channel_unavailable, message_rejected, too_many_requests, transport_error,
  http_status_error, other_error, FailureVerdict, classify, counts_against_attempts, trips_breaker,
  classify_slack_error, slack_message_fatal, slack_channel_down, is_in, message_fatal, channel_down,
  transient,
}

-- The provider does not answer, refuses our credentials, or fails itself.
abbrev pub IsOutage : Failure → Type 0
IsOutage (channel_unavailable _ _) = Unit
IsOutage (transport_error _) = Unit
IsOutage (http_status_error s _) = (s ≡ 401) ⊎ (s ≡ 403) ⊎ ((500 ≤ s) × (s < 600))
IsOutage _ = ⊥

-- The provider refused this message.
abbrev pub IsRejection : Failure → Type 0
IsRejection (message_rejected _) = Unit
IsRejection (http_status_error s _) = (400 ≤ s) × (s < 500) × (s ≢ 401) × (s ≢ 403) × (s ≢ 429)
IsRejection _ = ⊥

-- A failure trips the breaker exactly if it is an outage: no answer, a refused credential, or a
-- server error. It counts against the message exactly if it is a rejection: the provider's own, or
-- a client error other than 401, 403 and 429.
pub classify_iff :
    (e : Failure)
    → ((trips_breaker (classify e) ≡ true) ↔ IsOutage e)
      × ((counts_against_attempts (classify e) ≡ true) ↔ IsRejection e)
unfolding classify trips_breaker counts_against_attempts
classify_iff (channel_unavailable r a) = ground arith
classify_iff (message_rejected r) = ground arith
classify_iff (too_many_requests a) = ground arith
classify_iff (transport_error n) = ground arith
classify_iff (http_status_error s h) = ground arith
classify_iff (other_error n) = ground arith

-- What holds of every entry of a table holds of a code that is in it.
of_is_in :
    (p : String → Bool) (code : String) (table : List String)
    → is_in code table ≡ true
    → all p table ≡ true
    → p code ≡ true
of_is_in p code [] h a = cc
of_is_in p code (c ∷ table) h a = elim (Bool-cases (c == code)) [
  | inl here ↦ let e = (eq_iff c code).0 here in ground arith
  | inr there ↦ of_is_in p code table (ground arith) (ground arith)
]

tables_disjoint :
    (code : String)
    → is_in code slack_channel_down ≡ true
    → not (is_in code slack_message_fatal) ≡ true
tables_disjoint code h =
    of_is_in (λ c. not (is_in c slack_message_fatal)) code slack_channel_down h refl

not_both :
    (f d : Bool) (x y z : FailureVerdict)
    → (d ≡ true → not f ≡ true)
    → x.kind ≡ message_fatal
    → y.kind ≡ channel_down
    → z.kind ≡ transient
    → ((trips_breaker (if f then x else if d then y else z) ≡ true) ↔ (d ≡ true))
      × ((counts_against_attempts (if f then x else if d then y else z) ≡ true) ↔ (f ≡ true))
unfolding trips_breaker counts_against_attempts
not_both f d x y z disjoint p q r = ground arith

-- A Slack error code trips the breaker exactly if it stands in the table of dead connections, and
-- counts against the message exactly if it stands in the table of bad requests: no code is in both.
pub classify_slack_error_iff :
    (code : String)
    → ((trips_breaker (classify_slack_error code) ≡ true) ↔ (is_in code slack_channel_down ≡ true))
      × ((counts_against_attempts (classify_slack_error code) ≡ true)
          ↔ (is_in code slack_message_fatal ≡ true))
unfolding classify_slack_error
classify_slack_error_iff code =
    not_both (is_in code slack_message_fatal) (is_in code slack_channel_down) _ _ _
      (tables_disjoint code) refl refl refl
