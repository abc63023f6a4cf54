-- ===== src/Outbox/FailurePolicy/Tests.antt =====
-- Tests of outbox/failure_policy.py.
use vh26_pixel_perfect.Prelude.{◌≡◌, ◌↔◌, true}
use vh26_pixel_perfect.Outbox.FailurePolicy.{
  Failure, http_status_error, absent, classify, counts_against_attempts, trips_breaker,
}
use vh26_pixel_perfect.Outbox.FailurePolicy.Isolation.{IsOutage, IsRejection, classify_iff}

abbrev bad_gateway : Failure
bad_gateway = http_status_error 502 absent

classify_iff_example :
    ((trips_breaker (classify bad_gateway) ≡ true) ↔ IsOutage bad_gateway)
    × ((counts_against_attempts (classify bad_gateway) ≡ true) ↔ IsRejection bad_gateway)
classify_iff_example = classify_iff bad_gateway
