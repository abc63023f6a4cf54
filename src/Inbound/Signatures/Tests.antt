-- ===== src/Inbound/Signatures/Tests.antt =====
-- Tests of inbound/signatures.py and github_integration/webhooks.py.
use vh26_pixel_perfect.Prelude.{◌≡◌, ◌≢◌, ◌↔◌, refl, true, some, [], ◌∷◌, ◌++◌, Any, if◌then◌else◌}
use vh26_pixel_perfect.Prelude.Text.{codes}
use vh26_pixel_perfect.Prelude.Codes.{
  Codes, is_blank, is_ascii, same_text, starts_with, strip, lstrip, rstrip, split,
}
use vh26_pixel_perfect.Prelude.Result.{ok, err}
use vh26_pixel_perfect.Inbound.Signatures.{
  type_error, parse_int, slack_signature, verify_slack, verify_pagerduty,
  verify_github_webhook_signature,
}
use vh26_pixel_perfect.Inbound.Signatures.Forgery.{
  IsGenuine, verify_slack_iff, verify_pagerduty_iff, verify_github_webhook_signature_iff,
}

-- A digest that tells an empty message from another.
abbrev digest : Codes → Codes → Codes
digest key message =
    if is_blank message
    then codes "0000000000000000000000000000000000000000000000000000000000000000"
    else codes "abcdefabcdefabcdefabcdefabcdefabcdefabcdefabcdefabcdefabcdefabcd"

digest-ascii : (key message : Codes) → is_ascii (digest key message) ≡ true
digest-ascii key [] = refl
digest-ascii key (c ∷ s) = refl

parsed : parse_int (codes " -1_700 ") ≡ some (true, 1700)
unfolding parse_int strip lstrip rstrip
parsed = refl

-- A signature that is not ASCII ends in a TypeError.
not_ascii :
    verify_slack digest (codes "key") (codes "1700") (codes "v0=é") (codes "body") 1700000
    ≡ err type_error
unfolding verify_slack parse_int strip lstrip rstrip slack_signature
not_ascii = refl

rotated :
    verify_pagerduty digest
      (codes "key")
      (codes "v1=old, v1=abcdefabcdefabcdefabcdefabcdefabcdefabcdefabcdefabcdefabcdefabcd")
      (codes "body")
    ≡ ok tt
unfolding verify_pagerduty split strip lstrip rstrip starts_with same_text
rotated = refl

verify_slack_iff_example :
    (verify_slack digest (codes "key") (codes "1700") (codes "v0=x") (codes "body") 1700000 ≡ ok tt)
    ↔ IsGenuine digest (codes "key") (codes "1700") (codes "v0=x") (codes "body") 1700000
verify_slack_iff_example =
    verify_slack_iff digest digest-ascii (codes "key") (codes "1700") (codes "v0=x") (codes "body")
      1700000

header_ascii : (is_ascii (codes "old") ≡ true) × Unit {0}
header_ascii = (refl, tt)

verify_pagerduty_iff_example :
    (verify_pagerduty digest (codes "key") (codes "v1=old") (codes "body") ≡ ok tt) ↔ (
      (codes "key" ≢ [])
      × Any
          (λ c. strip c ≡ codes "v1=" ++ digest (codes "key") (codes "body"))
          (split b',' (codes "v1=old")))
unfolding split strip lstrip rstrip
verify_pagerduty_iff_example =
    verify_pagerduty_iff digest (codes "key") (codes "v1=old") (codes "body") refl header_ascii

verify_github_webhook_signature_iff_example :
    (verify_github_webhook_signature digest (codes "key") (codes "body") (some (codes "sha1=x"))
      ≡ true)
    ↔ ((codes "key" ≢ [])
        × (some (codes "sha1=x") ≡ some (codes "sha256=" ++ digest (codes "key") (codes "body"))))
verify_github_webhook_signature_iff_example =
    verify_github_webhook_signature_iff digest (codes "key") (codes "body") (some (codes "sha1=x"))
      refl refl
