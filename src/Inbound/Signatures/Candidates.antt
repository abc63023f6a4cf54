-- ===== src/Inbound/Signatures/Candidates.antt =====
-- The candidates of a PagerDuty header in inbound/signatures.py, and the tests of texts there.
use mathlib.Core.Bool.{false≢true}
use vh26_pixel_perfect.Prelude.{
  ℕ, ◌≡◌, ◌≢◌, ◌≤◌, ◌↔◌, ◌⊎◌, refl, ◌∙◌, sym, ap, true, false, some, List, [], ◌∷◌, ◌++◌, drop, All,
  Any, ltb, Bool-cases, inl, inr, arith,
}
use vh26_pixel_perfect.Prelude.Text.{codes}
use vh26_pixel_perfect.Prelude.Codes.{
  Codes, is_blank, is_ascii, same_text, starts_with, strip, lstrip, rstrip, split,
}
use vh26_pixel_perfect.Prelude.Codes.Laws.{same_text_iff, starts_with_iff}
use vh26_pixel_perfect.Prelude.Result.{ok}
use vh26_pixel_perfect.Inbound.Signatures.{Signed, parse_int, compared, match_candidates}

pub not_blank : (s : Codes) → s ≢ [] → is_blank s ≡ false
not_blank [] n = absurd (n refl)
not_blank (c ∷ s) n = refl

pub not_before : (a b : ℕ) → b ≤ a → ltb a b ≡ false
not_before a b h = ground arith

pub blank-parse_int : (s : Codes) (t : Signed) → parse_int s ≡ some t → is_blank s ≡ false
unfolding parse_int strip lstrip rstrip
blank-parse_int [] t h = cc
blank-parse_int (c ∷ s) t h = refl

pub compared-ascii :
    (s t : Codes) → is_ascii s ≡ true → is_ascii t ≡ true → compared s t ≡ ok (same_text s t)
compared-ascii s t h k = rw (h, k) refl

pub blank-split :
    (expected header : Codes)
    → Any (λ c. strip c ≡ codes "v1=" ++ expected) (split b',' header)
    → is_blank header ≡ false
unfolding split strip lstrip rstrip
blank-split expected [] (inl e) = cc
blank-split expected [] (inr h) = absurd h
blank-split expected (c ∷ s) h = refl

no_candidates : (expected : Codes) → match_candidates expected [] ≡ ok tt → ⊥
unfolding match_candidates
no_candidates expected e = cc

drop-version : (t expected : Codes) → t ≡ codes "v1=" ++ expected → drop 3 t ≡ expected
drop-version t expected e = ap (drop 3) e

-- A candidate decides the loop, or is passed over.
candidate_step :
    (expected c : Codes) (cs : List Codes)
    → is_ascii expected ≡ true
    → is_ascii (drop 3 (strip c)) ≡ true
    → ((match_candidates expected (c ∷ cs) ≡ ok tt) × (strip c ≡ codes "v1=" ++ expected))
      ⊎ ((match_candidates expected (c ∷ cs) ≡ match_candidates expected cs)
          × (strip c ≢ codes "v1=" ++ expected))
unfolding match_candidates
candidate_step expected c cs a first = elim (Bool-cases (starts_with (strip c) (codes "v1="))) [
  | inr other ↦ inr (
    rw other refl,
    λ e. false≢true (sym other ∙ (starts_with_iff (strip c) (codes "v1=")).1 (expected, e)),
  )
  | inl version ↦
      let (rest, e) = (starts_with_iff (strip c) (codes "v1=")).0 version in
      let equal = compared-ascii (drop 3 (strip c)) expected first a in
      elim (Bool-cases (same_text (drop 3 (strip c)) expected)) [
        | inl same ↦ inl (
          rw version (rw equal (rw same refl)),
          e
              ∙ ap (λ x. codes "v1=" ++ x)
                  (sym (drop-version (strip c) rest e)
                    ∙ (same_text_iff (drop 3 (strip c)) expected).0 same),
        )
        | inr differs ↦ inr (
          rw version (rw equal (rw differs refl)),
          λ k. false≢true (
              sym differs
              ∙ (same_text_iff (drop 3 (strip c)) expected).1 (drop-version (strip c) expected k)),
        )
      ]
]

pub match_candidates_iff :
    (expected : Codes) (candidates : List Codes)
    → is_ascii expected ≡ true
    → All (λ c. is_ascii (drop 3 (strip c)) ≡ true) candidates
    → (match_candidates expected candidates ≡ ok tt)
      ↔ Any (λ c. strip c ≡ codes "v1=" ++ expected) candidates
match_candidates_iff expected [] a h = (λ e. no_candidates expected e, λ e. absurd e)
match_candidates_iff expected (c ∷ cs) a (first, h) =
    let (to, from) = match_candidates_iff expected cs a h in
    elim (candidate_step expected c cs a first) [
      | inl (accepted, equal) ↦ (λ _. inl equal, λ _. accepted)
      | inr (passed_over, other) ↦ (
        λ e. inr (to (sym passed_over ∙ e)),
        λ (s : Any (λ c. strip c ≡ codes "v1=" ++ expected) (c ∷ cs)).
            passed_over ∙ later s other from,
      )
    ]
  where
    later : {P Q R : Type 0} → P ⊎ Q → (P → ⊥) → (Q → R) → R
    later (inl p) n f = absurd (n p)
    later (inr q) n f = f q
