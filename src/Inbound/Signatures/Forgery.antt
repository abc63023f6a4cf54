-- ===== src/Inbound/Signatures/Forgery.antt =====
-- Which callbacks inbound/signatures.py and github_integration/webhooks.py accept.
use mathlib.Core.Path.{subst}
use vh26_pixel_perfect.Prelude.{
  ℕ, ◌≡◌, ◌≢◌, ◌↔◌, refl, sym, ap, ◌∙◌, true, false, Option, none, some, [], ◌++◌, all, drop, All,
  Any, length, Option-cases, inl, inr, arith,
}
use vh26_pixel_perfect.Prelude.Text.{codes}
use vh26_pixel_perfect.Prelude.Codes.{Codes, is_blank, is_ascii, starts_with, strip, split}
use vh26_pixel_perfect.Prelude.Codes.Laws.{same_self, same_text_iff}
use vh26_pixel_perfect.Prelude.Result.{ok}
use vh26_pixel_perfect.Inbound.Signatures.{
  Signed, replay_window, parse_int, distance, slack_signature, verify_slack, verify_pagerduty,
  is_lower_hex, verify_github_webhook_signature,
}
use vh26_pixel_perfect.Inbound.Signatures.Candidates.{
  not_blank, not_before, blank-parse_int, compared-ascii, blank-split, match_candidates_iff,
}
use vh26_pixel_perfect.Inbound.Signatures.Numerals.{
  Denotes, IsWithin, parse_int-Denotes, Denotes-parse_int, distance-IsWithin, IsWithin-distance,
}

module _ (hmac : Codes → Codes → Codes) where
  -- What a Slack request must be: `sent_at` is in seconds, the window and now are in milliseconds.
  pub record IsGenuine (secret timestamp signature body : Codes) (now : ℕ) : Type 0 where
    pub configured : secret ≢ []
    pub sent_at : Signed
    pub written : Denotes (strip timestamp) sent_at
    pub recent : IsWithin 300000 now sent_at
    pub signed :
        signature ≡ codes "v0=" ++ hmac secret (codes "v0:" ++ timestamp ++ codes ":" ++ body)

  verify_slack-IsGenuine :
      (secret timestamp signature body : Codes) (now : ℕ)
      → verify_slack hmac secret timestamp signature body now ≡ ok tt
      → IsGenuine secret timestamp signature body now
  unfolding verify_slack slack_signature
  verify_slack-IsGenuine secret timestamp signature body now h =
      elim (Option-cases (parse_int timestamp)) [
        | inl malformed ↦ absurd (ground arith)
        | inr (sent_at, parsed) ↦ record {
          configured = λ e. ground arith;
          sent_at = sent_at;
          written = parse_int-Denotes timestamp sent_at parsed;
          recent = distance-IsWithin now sent_at (ground arith);
          signed =
              ground (arith, same_text_iff (slack_signature hmac secret timestamp body) signature);
        }
      ]

  slack_signature-ascii :
      ((key message : Codes) → is_ascii (hmac key message) ≡ true)
      → (secret timestamp body : Codes)
      → is_ascii (slack_signature hmac secret timestamp body) ≡ true
  unfolding slack_signature
  slack_signature-ascii ascii secret timestamp body = ascii secret _

  slack_signature-eq :
      (secret timestamp body : Codes)
      → slack_signature hmac secret timestamp body
        ≡ codes "v0=" ++ hmac secret (codes "v0:" ++ timestamp ++ codes ":" ++ body)
  unfolding slack_signature
  slack_signature-eq secret timestamp body = refl

  blank-slack_signature :
      (secret timestamp body : Codes)
      → is_blank (slack_signature hmac secret timestamp body) ≡ false
  unfolding slack_signature
  blank-slack_signature secret timestamp body = refl

  genuine-verify_slack :
      ((key message : Codes) → is_ascii (hmac key message) ≡ true)
      → (secret timestamp signature body : Codes) (now : ℕ)
      → IsGenuine secret timestamp signature body now
      → verify_slack hmac secret timestamp signature body now ≡ ok tt
  unfolding verify_slack
  genuine-verify_slack ascii secret timestamp signature body now g =
      let expected = slack_signature hmac secret timestamp body in
      let parsed = Denotes-parse_int timestamp g.sent_at g.written in
      let plain = slack_signature-ascii ascii secret timestamp body in
      subst (λ s. verify_slack hmac secret timestamp s body now ≡ ok tt)
        (slack_signature-eq secret timestamp body ∙ sym g.signed)
        (rw
          (
            not_blank secret g.configured,
            blank-parse_int timestamp g.sent_at parsed,
            blank-slack_signature secret timestamp body,
          )
          (rw parsed (
            rw
              (
                not_before replay_window (distance now g.sent_at)
                    (IsWithin-distance now g.sent_at g.recent),
                compared-ascii expected expected plain plain,
              )
              (rw (same_self expected) refl))))

  -- If HMACs are ASCII, a Slack request is accepted exactly if a secret is configured, its timestamp
  -- writes a whole number of seconds at most 300 away from now, on either side, and its signature is
  -- `v0=` and the HMAC of `v0:`, the timestamp, a colon and the body under that secret.
  pub verify_slack_iff :
      ((key message : Codes) → is_ascii (hmac key message) ≡ true)
      → (secret timestamp signature body : Codes) (now : ℕ)
      → (verify_slack hmac secret timestamp signature body now ≡ ok tt)
        ↔ IsGenuine secret timestamp signature body now
  verify_slack_iff ascii secret timestamp signature body now = (
    verify_slack-IsGenuine secret timestamp signature body now,
    genuine-verify_slack ascii secret timestamp signature body now,
  )

  -- If the HMAC of the body and the candidates of the header are ASCII, a PagerDuty callback is
  -- accepted exactly if a secret is configured and some candidate of the header is, without the white
  -- space around it, the HMAC of the body behind its version.
  pub verify_pagerduty_iff :
      (secret header body : Codes)
      → is_ascii (hmac secret body) ≡ true
      → All (λ c. is_ascii (drop 3 (strip c)) ≡ true) (split b',' header)
      → (verify_pagerduty hmac secret header body ≡ ok tt)
        ↔ ((secret ≢ []) × Any (λ c. strip c ≡ codes "v1=" ++ hmac secret body) (split b',' header))
  unfolding verify_pagerduty
  verify_pagerduty_iff secret header body a h =
      let (to, from) = match_candidates_iff (hmac secret body) (split b',' header) a h in
      (
        λ h. (λ e. ground (arith), to (ground arith)),
        λ (configured, some_candidate).
            rw (not_blank secret configured, blank-split (hmac secret body) header some_candidate)
              (from some_candidate),
      )

  accepts :
      (secret body : Codes)
      → secret ≢ []
      → length (hmac secret body) ≡ 64
      → all is_lower_hex (hmac secret body) ≡ true
      → verify_github_webhook_signature hmac secret body
          (some (codes "sha256=" ++ hmac secret body))
        ≡ true
  unfolding verify_github_webhook_signature starts_with
  accepts secret body configured l hex =
      rw (not_blank secret configured, l, hex) (same_self (codes "sha256=" ++ hmac secret body))

  -- If an HMAC is 64 lower-case hexadecimal digits, the signature of a GitHub webhook is accepted
  -- exactly if a secret is configured and the header is the HMAC of the body under it; the check
  -- answers for every header, also one that is not ASCII.
  pub verify_github_webhook_signature_iff :
      (secret body : Codes) (signature : Option Codes)
      → length (hmac secret body) ≡ 64
      → all is_lower_hex (hmac secret body) ≡ true
      → (verify_github_webhook_signature hmac secret body signature ≡ true)
        ↔ ((secret ≢ []) × (signature ≡ some (codes "sha256=" ++ hmac secret body)))
  unfolding verify_github_webhook_signature
  verify_github_webhook_signature_iff secret body none l hex = (λ e. cc, λ h. cc (h.1))
  verify_github_webhook_signature_iff secret body (some s) l hex =
      let genuine = codes "sha256=" ++ hmac secret body in
      (
        λ h. (λ e. ground arith, ap some (sym ((same_text_iff genuine s).0 (ground arith)))),
        λ (configured, e).
            subst (λ x. verify_github_webhook_signature hmac secret body x ≡ true) (sym e)
              (accepts secret body configured l hex),
      )
