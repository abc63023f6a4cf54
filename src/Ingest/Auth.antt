-- ===== src/Ingest/Auth.antt =====
-- ingest/auth.py: who may post an alert, and into which scope. A text is the list of its code points.
pub mod Identity
pub mod Scope
mod Tests
use vh26_pixel_perfect.Prelude.{
  ℕ, Bool, true, false, ◌&&◌, ◌||◌, not, Option, none, some, List, [], ◌∷◌, ◌++◌, map, all,
  if◌then◌else◌,
}
use vh26_pixel_perfect.Prelude.Text.{codes, lower_code}
use vh26_pixel_perfect.Prelude.Codes.{
  Codes, is_ascii, is_blank, same_text, starts_with, strip, split, partition,
}

pub record IngestCredential : Type 0 where
  pub name : Codes
  pub token : Codes
  pub scope : Codes

-- The exceptions, and a value. A comparison of texts that are not ASCII is a TypeError.
pub data AuthResult (A : Type 0) : Type 0 where
  not_configured auth_error scope_error type_error : AuthResult A
  granted : A → AuthResult A

abbrev pub star : ℕ
star = 42

-- scope[:-1] if scope.endswith("*") else scope
unfoldable pub prefix_of : Codes → Codes
prefix_of [] = []
prefix_of (c ∷ []) = if same_text (c ∷ []) (star ∷ []) then [] else c ∷ []
prefix_of (c ∷ d ∷ scope) = c ∷ prefix_of (d ∷ scope)

unfoldable pub may_write : IngestCredential → Codes → Bool
may_write c scope_key =
    if same_text c.scope (star ∷ []) then true else starts_with scope_key (prefix_of c.scope)

-- parts[2].strip() if there is one and it is not empty, else "*"
abbrev pub scope_of : List Codes → Codes
scope_of [] = star ∷ []
scope_of (part ∷ _) = if is_blank (strip part) then star ∷ [] else strip part

abbrev pub parse_parts : List Codes → List IngestCredential
parse_parts (name ∷ token ∷ rest) =
    if is_blank (strip name) || is_blank (strip token)
    then []
    else record { name = strip name; token = strip token; scope = scope_of rest } ∷ []
parse_parts _ = []

-- One entry: a credential, or none if it is empty or malformed.
unfoldable pub parse_entry : Codes → List IngestCredential
parse_entry entry = if is_blank (strip entry) then [] else parse_parts (split 58 (strip entry))

unfoldable pub parse_entries : List Codes → List IngestCredential
parse_entries [] = []
parse_entries (entry ∷ entries) = parse_entry entry ++ parse_entries entries

unfoldable pub parse_tokens : Codes → List IngestCredential
parse_tokens raw = parse_entries (split 44 raw)

abbrev pub or_empty : Option Codes → Codes
or_empty none = []
or_empty (some s) = s

-- `authorization` or the other header: an absent and an empty `authorization` are the same.
unfoldable pub presented_token : Option Codes → Option Codes → Codes
presented_token authorization header_token =
    let (scheme, value) = partition 32 (or_empty authorization) in
    if same_text (map lower_code scheme) (codes "bearer") && not (is_blank (strip value))
    then strip value
    else strip (or_empty header_token)

-- The loop of `authenticate`: the last credential with the token.
unfoldable pub matched :
    Codes → List IngestCredential → Option IngestCredential → Option IngestCredential
matched presented [] found = found
matched presented (c ∷ credentials) found =
    matched presented credentials (if same_text c.token presented then some c else found)

abbrev pub no_credentials : List IngestCredential → Bool
no_credentials [] = true
no_credentials (_ ∷ _) = false

abbrev pub granted_if : Option IngestCredential → AuthResult IngestCredential
granted_if none = auth_error
granted_if (some c) = granted c

-- `hmac.compare_digest` compares ASCII texts only; the loop compares every token.
unfoldable pub comparable : Codes → List IngestCredential → Bool
comparable presented credentials = is_ascii presented && all (λ c. is_ascii c.token) credentials

unfoldable pub authenticate :
    List IngestCredential → Option Codes → Option Codes → AuthResult IngestCredential
unfolding presented_token matched
authenticate credentials authorization header_token =
    let presented = presented_token authorization header_token in
    if no_credentials credentials
    then not_configured
    else if is_blank presented
    then auth_error
    else if comparable presented credentials
    then granted_if (matched presented credentials none)
    else type_error

unfoldable pub authorize_scope : IngestCredential → Codes → AuthResult IngestCredential
unfolding may_write
authorize_scope c scope_key = if may_write c scope_key then granted c else scope_error
