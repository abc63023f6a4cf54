-- ===== src/Ingest/Auth/Tests.antt =====
-- Tests of ingest/auth.py.
use vh26_pixel_perfect.Prelude.{◌≡◌, ◌↔◌, refl, none, some, [], ◌∷◌}
use vh26_pixel_perfect.Prelude.Text.{codes, lower_code}
use vh26_pixel_perfect.Prelude.Codes.{
  same_text, starts_with, strip, lstrip, rstrip, is_space, split, partition,
}
use vh26_pixel_perfect.Ingest.Auth.{
  IngestCredential, granted, scope_error, parse_tokens, parse_entries, parse_entry, may_write,
  prefix_of, presented_token, matched, comparable, authenticate, authorize_scope,
}
use vh26_pixel_perfect.Ingest.Auth.Identity.{Identifies, authenticate-Identifies}
use vh26_pixel_perfect.Ingest.Auth.Scope.{Covers, authorize_scope_iff}

abbrev staging : IngestCredential
staging = record { name = codes "am"; token = codes "t1"; scope = codes "staging/*" }

abbrev anywhere : IngestCredential
anywhere = record { name = codes "dd"; token = codes "t2"; scope = codes "*" }

-- A malformed entry in the middle is dropped.
two_parsed : parse_tokens (codes "am:t1:staging/*, oops ,dd : t2") ≡ staging ∷ anywhere ∷ []
unfolding parse_tokens parse_entries parse_entry split strip lstrip rstrip is_space
two_parsed = refl

let_in : authenticate (staging ∷ anywhere ∷ []) (some (codes "Bearer t2")) none ≡ granted anywhere
unfolding authenticate presented_token partition lower_code same_text strip lstrip rstrip is_space
    matched comparable
let_in = refl

not_production : authorize_scope staging (codes "production/eu") ≡ scope_error
unfolding authorize_scope may_write same_text starts_with prefix_of
not_production = refl

authenticate-Identifies_example :
    Identifies
      (staging ∷ anywhere ∷ [])
      (presented_token (some (codes "Bearer t2")) none)
      (authenticate (staging ∷ anywhere ∷ []) (some (codes "Bearer t2")) none)
authenticate-Identifies_example =
    authenticate-Identifies (staging ∷ anywhere ∷ []) (some (codes "Bearer t2")) none

authorize_scope_iff_example :
    ((authorize_scope staging (codes "production/eu") ≡ granted staging)
      ↔ Covers staging.scope (codes "production/eu"))
    × ((authorize_scope staging (codes "production/eu") ≡ scope_error)
        ↔ (¬ Covers staging.scope (codes "production/eu")))
authorize_scope_iff_example = authorize_scope_iff staging (codes "production/eu")
