-- ===== src/Outbox/FailurePolicy.antt =====
-- outbox/failure_policy.py: what a failed delivery says about the channel. Seconds are counted in
-- milliseconds, and an exception is what the code reads of it.
pub mod Isolation
mod Tests
use vh26_pixel_perfect.Prelude.{
  ℕ, Bool, true, false, ◌&&◌, ◌||◌, String, string_eq, ◌==◌, Option, none, some, List, [], ◌∷◌, ltb,
  leb, nat_beq, any, if◌then◌else◌,
}

pub data FailureKind : Type 0 where
  message_fatal channel_down transient : FailureKind

-- The text of a verdict, before it is formatted.
pub data Reason : Type 0 where
  plain : String → Reason
  rate_limited : Reason
  transport : String → Reason
  http : ℕ → Reason
  slack : String → Reason
  unknown : String → Reason
  parked : Reason → Reason

pub record FailureVerdict : Type 0 where
  pub kind : FailureKind
  pub reason : Reason
  pub retry_after : Option ℕ

unfoldable pub is_message_fatal : FailureKind → Bool
is_message_fatal message_fatal = true
is_message_fatal _ = false

unfoldable pub is_channel_down : FailureKind → Bool
is_channel_down channel_down = true
is_channel_down _ = false

unfoldable pub counts_against_attempts : FailureVerdict → Bool
unfolding is_message_fatal
counts_against_attempts v = is_message_fatal v.kind

unfoldable pub trips_breaker : FailureVerdict → Bool
unfolding is_channel_down
trips_breaker v = is_channel_down v.kind

-- A response's Retry-After header: absent, a text that `float` refuses, or a number.
pub data RetryAfter : Type 0 where
  absent malformed : RetryAfter
  seconds : ℕ → RetryAfter

-- The classes that `classify` tells apart, in the order in which it asks.
pub data Failure : Type 0 where
  channel_unavailable : String → Option ℕ → Failure
  message_rejected : String → Failure
  too_many_requests : ℕ → Failure
  transport_error : String → Failure
  http_status_error : ℕ → RetryAfter → Failure
  other_error : String → Failure

retry_after_of : RetryAfter → Option ℕ
retry_after_of absent = none
retry_after_of malformed = none
retry_after_of (seconds s) = some s

verdict : FailureKind → Reason → Option ℕ → FailureVerdict
verdict k r a = record { kind = k; reason = r; retry_after = a }

classify_status : ℕ → RetryAfter → FailureVerdict
unfolding retry_after_of verdict
classify_status status header =
    if nat_beq status 429
    then verdict transient (http 429) (retry_after_of header)
    else if nat_beq status 401 || nat_beq status 403
    then verdict channel_down (http status) none
    else if leb 500 status && ltb status 600
    then verdict channel_down (http status) (retry_after_of header)
    else if leb 400 status && ltb status 500
    then verdict message_fatal (http status) none
    else verdict transient (unknown "HTTPStatusError") none

unfoldable pub classify : Failure → FailureVerdict
unfolding classify_status verdict
classify (channel_unavailable reason retry_after) = verdict channel_down (plain reason) retry_after
classify (message_rejected reason) = verdict message_fatal (plain reason) none
classify (too_many_requests retry_after) = verdict transient rate_limited (some retry_after)
classify (transport_error name) = verdict channel_down (transport name) none
classify (http_status_error status header) = classify_status status header
classify (other_error name) = verdict transient (unknown name) none

abbrev pub slack_message_fatal : List String
slack_message_fatal =
    "invalid_blocks" ∷ "invalid_blocks_format" ∷ "msg_too_long" ∷ "no_text" ∷ "channel_not_found"
    ∷ "is_archived" ∷ "not_in_channel" ∷ "message_not_found" ∷ "cant_update_message"
    ∷ "edit_window_closed" ∷ []

abbrev pub slack_channel_down : List String
slack_channel_down =
    "token_revoked" ∷ "token_expired" ∷ "invalid_auth" ∷ "not_authed" ∷ "account_inactive"
    ∷ "service_unavailable" ∷ "fatal_error" ∷ "internal_error" ∷ "ratelimited" ∷ []

-- code in table
abbrev pub is_in : String → List String → Bool
is_in code = any (λ c. c == code)

unfoldable pub classify_slack_error : String → FailureVerdict
unfolding verdict
classify_slack_error error_code =
    if is_in error_code slack_message_fatal
    then verdict message_fatal (slack error_code) none
    else if is_in error_code slack_channel_down
    then verdict channel_down (slack error_code) none
    else verdict transient (slack error_code) none
