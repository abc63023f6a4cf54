-- ===== src/Inbound/Signatures.antt =====
-- inbound/signatures.py and github_integration/webhooks.py: who may call back. A text or a body is the
-- list of its code points or bytes; HMAC-SHA256, as hexadecimal text, is an argument; times are in
-- milliseconds. An integer has ASCII digits, and a timestamp too large for a float, which raises an
-- OverflowError in the source, is one outside the window.
pub mod Numerals
pub mod Candidates
pub mod Forgery
mod Tests
use vh26_pixel_perfect.Prelude.{
  ℕ, ◌+◌, ◌-◌, ◌*◌, Bool, true, false, ◌&&◌, ◌||◌, not, Option, none, some, List, [], ◌∷◌, ◌++◌,
  map, all, drop, length, ltb, leb, nat_beq, if◌then◌else◌,
}
use vh26_pixel_perfect.Prelude.Text.{codes}
use vh26_pixel_perfect.Prelude.Codes.{
  Codes, is_blank, is_ascii, same_text, starts_with, strip, split,
}
use vh26_pixel_perfect.Prelude.Result.{Result, ok, err, ◌>>=◌, ◌>>◌, raise_if}

-- A comparison by `compare_digest` of texts that are not ASCII is a TypeError.
pub data SignatureError : Type 0 where
  signature_error type_error : SignatureError

abbrev pub replay_window : ℕ
replay_window = 300000

-- The sign and the magnitude of an integer.
abbrev pub Signed : Type 0
Signed = Bool × ℕ

abbrev pub is_digit : ℕ → Bool
is_digit c = leb b'0' c && leb c b'9'

-- Digits with single underscores between them, behind the digits of `value`.
unfoldable pub digits_from : ℕ → Codes → Option ℕ
digits_from value [] = some value
digits_from value (c ∷ []) = if is_digit c then some (value * 10 + (c - b'0')) else none
digits_from value (c ∷ d ∷ s) =
    let rest = digits_from (value * 10 + (c - b'0')) (d ∷ s) in
    let grouped = digits_from (value * 10 + (c - b'0')) s in
    if is_digit c
    then (if nat_beq d b'_' then (if is_blank s then none else grouped) else rest)
    else none

abbrev pub unsigned : Bool → Codes → Option Signed
unsigned negative [] = none
unsigned negative (c ∷ s) = elim (digits_from 0 (c ∷ s)) [
  | none ↦ none
  | some n ↦ some (negative, n)
]

abbrev pub signed : Codes → Option Signed
signed [] = none
signed (c ∷ s) =
    if nat_beq c b'-'
    then unsigned true s
    else if nat_beq c b'+'
    then unsigned false s
    else unsigned false (c ∷ s)

-- int(text), for ASCII digits
unfoldable pub parse_int : Codes → Option Signed
unfolding digits_from
parse_int text = signed (strip text)

-- abs(current - sent_at), in milliseconds, of a time in seconds
abbrev pub distance : ℕ → Signed → ℕ
distance now (true, n) = now + n * 1000
distance now (false, n) = (now - n * 1000) + (n * 1000 - now)

-- hmac.compare_digest(expected, given), raising unless it holds
abbrev pub compared : Codes → Codes → Result SignatureError Bool
compared expected given =
    if is_ascii expected && is_ascii given then ok (same_text expected given) else err type_error

-- The loop over the candidates of the header.
unfoldable pub match_candidates : Codes → List Codes → Result SignatureError (Unit {0})
match_candidates expected [] = err signature_error
match_candidates expected (candidate ∷ candidates) =
    let rest = match_candidates expected candidates in
    if starts_with (strip candidate) (codes "v1=")
    then compared (drop 3 (strip candidate)) expected >>= (λ same. if same then ok tt else rest)
    else rest

abbrev pub is_lower_hex : ℕ → Bool
is_lower_hex c = leb b'0' c && leb c b'9' || leb b'a' c && leb c b'f'

module _ (hmac : Codes → Codes → Codes) where
  unfoldable pub slack_signature : Codes → Codes → Codes → Codes
  slack_signature secret timestamp body =
      codes "v0=" ++ hmac secret (codes "v0:" ++ timestamp ++ codes ":" ++ body)

  unfoldable pub verify_slack : Codes → Codes → Codes → Codes → ℕ → Result SignatureError (Unit {0})
  verify_slack secret timestamp signature body now = do
    raise_if (is_blank secret) signature_error
    raise_if (is_blank timestamp || is_blank signature) signature_error
    elim (parse_int timestamp) [
      | none ↦ err signature_error
      | some sent_at ↦ do
        raise_if (ltb replay_window (distance now sent_at)) signature_error
        same ← compared (slack_signature secret timestamp body) signature
        raise_if (not same) signature_error
    ]

  unfoldable pub verify_pagerduty : Codes → Codes → Codes → Result SignatureError (Unit {0})
  unfolding match_candidates
  verify_pagerduty secret header body = do
    raise_if (is_blank secret) signature_error
    raise_if (is_blank header) signature_error
    match_candidates (hmac secret body) (split b',' header)

  unfoldable pub verify_github_webhook_signature : Codes → Codes → Option Codes → Bool
  verify_github_webhook_signature secret body none = false
  verify_github_webhook_signature secret body (some signature) =
      let digest = drop 7 signature in
      if is_blank secret || is_blank signature || not (starts_with signature (codes "sha256="))
      then false
      else if not (nat_beq (length digest) 64) || not (all is_lower_hex digest)
      then false
      else same_text (codes "sha256=" ++ hmac secret body) signature
