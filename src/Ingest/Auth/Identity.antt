-- ===== src/Ingest/Auth/Identity.antt =====
-- Whom ingest/auth.py lets in.
use mathlib.Core.Bool.{false≢true}
use vh26_pixel_perfect.Prelude.{
  ◌≡◌, ◌≢◌, ◌⊎◌, ◌∙◌, refl, sym, ap, false, Option, none, some, List, [], ◌∷◌, ◌++◌, All,
  Bool-cases, inl, inr, if◌then◌else◌,
}
use vh26_pixel_perfect.Prelude.Codes.{Codes, is_blank, same_text, strip, split}
use vh26_pixel_perfect.Prelude.Codes.Laws.{same_text_iff}
use vh26_pixel_perfect.Ingest.Auth.{
  IngestCredential, AuthResult, not_configured, auth_error, scope_error, type_error, granted,
  comparable, presented_token, matched, granted_if, authenticate, parse_parts, parse_entry,
  parse_entries, parse_tokens, scope_of,
}

abbrev pub IsIn : IngestCredential → List IngestCredential → Type 0
IsIn c [] = ⊥
IsIn c (d ∷ ds) = (c ≡ d) ⊎ IsIn c ds

-- What the loop finds, from what was found before.
abbrev Finds :
    Codes → List IngestCredential → Option IngestCredential → Option IngestCredential → Type 0
Finds p credentials found none = (found ≡ none) × All (λ c. c.token ≢ p) credentials
Finds p credentials found (some c) = (found ≡ some c) ⊎ ((c.token ≡ p) × IsIn c credentials)

later :
    (p : Codes) (c : IngestCredential) (credentials : List IngestCredential)
    (found o : Option IngestCredential)
    → c.token ≢ p
    → Finds p credentials found o
    → Finds p (c ∷ credentials) found o
later p c credentials found none differs (e, a) = (e, (differs, a))
later p c credentials found (some d) differs (inl e) = inl e
later p c credentials found (some d) differs (inr (t, i)) = inr (t, inr i)

taken :
    (p : Codes) (c : IngestCredential) (credentials : List IngestCredential)
    (found o : Option IngestCredential)
    → c.token ≡ p
    → Finds p credentials (some c) o
    → Finds p (c ∷ credentials) found o
taken p c credentials found none same (e, a) = cc
taken p c credentials found (some d) same (inl e) =
    let it : c ≡ d = cc in
    inr (ap (λ (x : IngestCredential). x.token) (sym it) ∙ same, inl (sym it))
taken p c credentials found (some d) same (inr (t, i)) = inr (t, inr i)

matched-Finds :
    (p : Codes) (credentials : List IngestCredential) (found : Option IngestCredential)
    → Finds p credentials found (matched p credentials found)
unfolding matched
matched-Finds p [] none = (refl, tt)
matched-Finds p [] (some c) = inl refl
matched-Finds p (c ∷ credentials) found = elim (Bool-cases (same_text c.token p)) [
  | inl same ↦
      rw (same, matched)
        (taken p c credentials found _ ((same_text_iff c.token p).0 same)
          (matched-Finds p credentials (some c)))
  | inr differs ↦
      rw (differs, matched)
        (later p c credentials found _
          (λ e. false≢true (sym differs ∙ (same_text_iff c.token p).1 e))
          (matched-Finds p credentials found))
]

-- What each answer says of the presented token.
abbrev pub Identifies : List IngestCredential → Codes → AuthResult IngestCredential → Type 0
Identifies credentials p not_configured = credentials ≡ []
Identifies credentials p auth_error =
    (credentials ≢ []) × ((p ≡ []) ⊎ All (λ c. c.token ≢ p) credentials)
Identifies credentials p scope_error = ⊥
Identifies credentials p type_error = (p ≢ []) × (comparable p credentials ≡ false)
Identifies credentials p (granted c) = (p ≢ []) × (c.token ≡ p) × IsIn c credentials

granted_if-Identifies :
    (p : Codes) (credentials : List IngestCredential) (o : Option IngestCredential)
    → credentials ≢ []
    → p ≢ []
    → Finds p credentials none o
    → Identifies credentials p (granted_if o)
granted_if-Identifies p credentials none some_known presents (e, a) = (some_known, inr a)
granted_if-Identifies p credentials (some c) some_known presents (inl e) = cc
granted_if-Identifies p credentials (some c) some_known presents (inr (t, i)) = (presents, t, i)

identified :
    (p : Codes) (c : IngestCredential) (credentials : List IngestCredential)
    → Identifies (c ∷ credentials) p (
        if is_blank p
        then auth_error
        else if comparable p (c ∷ credentials)
        then granted_if (matched p (c ∷ credentials) none)
        else type_error)
identified [] c credentials = ((λ e. cc), inl refl)
identified (a ∷ p) c credentials = elim (Bool-cases (comparable (a ∷ p) (c ∷ credentials))) [
  | inl ascii ↦ rw ascii (
      granted_if-Identifies (a ∷ p) (c ∷ credentials) _ (λ e. cc) (λ e. cc)
        (matched-Finds (a ∷ p) (c ∷ credentials) none))
  | inr wide ↦ rw wide ((λ e. cc), wide)
]

-- `authenticate` returns a credential that is configured and has the presented token, which is not
-- empty; refuses a caller only if it presents none or one that no credential has; is not configured
-- only if there is no credential; and ends in a type error only if the presented token or a
-- credential's is not ASCII.
pub authenticate-Identifies :
    (credentials : List IngestCredential) (authorization header_token : Option Codes)
    → Identifies credentials
        (presented_token authorization header_token)
        (authenticate credentials authorization header_token)
unfolding authenticate
authenticate-Identifies [] authorization header_token = refl
authenticate-Identifies (c ∷ credentials) authorization header_token =
    identified (presented_token authorization header_token) c credentials

-- A credential has a name, a token and a scope, none of them empty.
abbrev pub IsUsable : IngestCredential → Type 0
IsUsable c = (is_blank c.name ≡ false) × (is_blank c.token ≡ false) × (is_blank c.scope ≡ false)

scope_of-filled : (parts : List Codes) → is_blank (scope_of parts) ≡ false
scope_of-filled [] = refl
scope_of-filled (part ∷ parts) = elim (Bool-cases (is_blank (strip part))) [
  | inl blank ↦ rw blank refl
  | inr filled ↦ rw filled filled
]

parse_parts-IsUsable : (parts : List Codes) → All IsUsable (parse_parts parts)
parse_parts-IsUsable [] = tt
parse_parts-IsUsable (name ∷ []) = tt
parse_parts-IsUsable (name ∷ token ∷ rest) = elim (Bool-cases (is_blank (strip name))) [
  | inl blank ↦ rw blank tt
  | inr named ↦ elim (Bool-cases (is_blank (strip token))) [
    | inl blank ↦ rw (named, blank) tt
    | inr filled ↦ rw (named, filled) ((named, filled, scope_of-filled rest), tt)
  ]
]

parse_entry-IsUsable : (entry : Codes) → All IsUsable (parse_entry entry)
unfolding parse_entry
parse_entry-IsUsable entry = elim (Bool-cases (is_blank (strip entry))) [
  | inl blank ↦ rw blank tt
  | inr filled ↦ rw filled (parse_parts-IsUsable (split 58 (strip entry)))
]

All-append :
    (xs ys : List IngestCredential) → All IsUsable xs → All IsUsable ys → All IsUsable (xs ++ ys)
All-append [] ys a b = b
All-append (x ∷ xs) ys (h, a) b = (h, All-append xs ys a b)

parse_entries-IsUsable : (entries : List Codes) → All IsUsable (parse_entries entries)
unfolding parse_entries
parse_entries-IsUsable [] = tt
parse_entries-IsUsable (entry ∷ entries) =
    All-append (parse_entry entry) (parse_entries entries) (parse_entry-IsUsable entry)
      (parse_entries-IsUsable entries)

-- Whatever the setting, however malformed, every credential read from it has a name, a token and a
-- scope that are not empty.
pub parse_tokens-IsUsable : (raw : Codes) → All IsUsable (parse_tokens raw)
unfolding parse_tokens
parse_tokens-IsUsable raw = parse_entries-IsUsable (split 44 raw)
