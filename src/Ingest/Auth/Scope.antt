-- ===== src/Ingest/Auth/Scope.antt =====
-- Which scopes a credential of ingest/auth.py may write.
use mathlib.Core.Bool.{false≢true}
use mathlib.Core.List.{append_cancel_right}
use vh26_pixel_perfect.Prelude.{
  ℕ, ◌≡◌, ◌≢◌, ◌↔◌, ◌⊎◌, ◌∙◌, refl, sym, ap, true, [], ◌∷◌, ◌++◌, Bool-cases, inl, inr,
}
use vh26_pixel_perfect.Prelude.Codes.{Codes, same_text}
use vh26_pixel_perfect.Ingest.Auth.{
  IngestCredential, granted, scope_error, star, prefix_of, may_write, authorize_scope,
}
use vh26_pixel_perfect.Prelude.Codes.Laws.{consed, same_text_iff, starts_with_iff}

-- A scope is a prefix with a star behind it, or a prefix that does not end in a star.
abbrev pub Prefixes : Codes → Codes → Type 0
Prefixes scope p = (scope ≡ p ++ star ∷ []) ⊎ ((scope ≡ p) × ((q : Codes) → scope ≢ q ++ star ∷ []))

not_starred : (q : Codes) → [] ≢ q ++ star ∷ []
not_starred [] e = cc
not_starred (a ∷ q) e = cc

tail_not_starred :
    (c d : ℕ) (scope : Codes)
    → ((q : Codes) → d ∷ scope ≢ q ++ star ∷ [])
    → (q : Codes) → c ∷ d ∷ scope ≢ q ++ star ∷ []
tail_not_starred c d scope n [] e = cc
tail_not_starred c d scope n (a ∷ q) e = let tail : d ∷ scope ≡ q ++ star ∷ [] = cc in n q tail

one_not_starred : (c : ℕ) → c ∷ [] ≢ star ∷ [] → (q : Codes) → c ∷ [] ≢ q ++ star ∷ []
one_not_starred c n [] e = n e
one_not_starred c n (a ∷ q) e = let tail : [] ≡ q ++ star ∷ [] = cc in not_starred q tail

longer : (c d : ℕ) (scope p : Codes) → Prefixes (d ∷ scope) p → Prefixes (c ∷ d ∷ scope) (c ∷ p)
longer c d scope p (inl e) = inl (consed refl e)
longer c d scope p (inr (e, n)) = inr (consed refl e, tail_not_starred c d scope n)

prefix_of-Prefixes : (scope : Codes) → Prefixes scope (prefix_of scope)
unfolding prefix_of
prefix_of-Prefixes [] = inr (refl, not_starred)
prefix_of-Prefixes (c ∷ []) = elim (Bool-cases (same_text (c ∷ []) (star ∷ []))) [
  | inl starred ↦ rw starred (inl ((same_text_iff (c ∷ []) (star ∷ [])).0 starred))
  | inr plain ↦ rw plain (
      inr (
        refl,
        one_not_starred c (λ e. false≢true (sym plain ∙ (same_text_iff (c ∷ []) (star ∷ [])).1 e)),
      ))
]
prefix_of-Prefixes (c ∷ d ∷ scope) =
    longer c d scope (prefix_of (d ∷ scope)) (prefix_of-Prefixes (d ∷ scope))

-- A key begins with the prefix that a scope stands for.
abbrev pub Covers : Codes → Codes → Type 0
Covers scope key = (p : Codes) × (rest : Codes) × Prefixes scope p × (key ≡ p ++ rest)

Prefixes-one : (scope p q : Codes) → Prefixes scope p → Prefixes scope q → p ≡ q
Prefixes-one scope p q (inl e) (inl h) = append_cancel_right p q (star ∷ []) (sym e ∙ h)
Prefixes-one scope p q (inl e) (inr (h, n)) = absurd (n p e)
Prefixes-one scope p q (inr (e, n)) (inl h) = absurd (n q h)
Prefixes-one scope p q (inr (e, n)) (inr (h, m)) = sym e ∙ h

may_write_iff : (c : IngestCredential) (key : Codes) → (may_write c key ≡ true) ↔ Covers c.scope key
unfolding may_write
may_write_iff c key = elim (Bool-cases (same_text c.scope (star ∷ []))) [
  | inl starred ↦ (
    λ h. ([], key, inl ((same_text_iff c.scope (star ∷ [])).0 starred), refl),
    λ h. rw starred refl,
  )
  | inr plain ↦
      let (to, from) = starts_with_iff key (prefix_of c.scope) in
      (
        λ h.
            let (rest, e) = to (rw plain at h) in
            (prefix_of c.scope, rest, prefix_of-Prefixes c.scope, e),
        λ h.
            let (p, rest, pre, e) = h in
            let same =
              Prefixes-one c.scope p (prefix_of c.scope) pre (prefix_of-Prefixes c.scope) in
            rw plain (from (rest, e ∙ ap (λ q. q ++ rest) same)),
      )
]

-- A credential is authorised for a scope exactly if the key of that scope begins with the prefix
-- that the credential's scope stands for; otherwise the answer is the scope error.
pub authorize_scope_iff :
    (c : IngestCredential) (key : Codes)
    → ((authorize_scope c key ≡ granted c) ↔ Covers c.scope key)
      × ((authorize_scope c key ≡ scope_error) ↔ (¬ Covers c.scope key))
unfolding authorize_scope
authorize_scope_iff c key =
    let (to, from) = may_write_iff c key in
    elim (Bool-cases (may_write c key)) [
      | inl may ↦ rw may ((λ h. to may, λ h. refl), (λ h. cc, λ no. absurd (no (to may))))
      | inr may_not ↦
          let no = λ (h : Covers c.scope key). false≢true (sym may_not ∙ from h) in
          rw may_not ((λ h. cc, λ h. absurd (no h)), (λ h. no, λ h. refl))
    ]
