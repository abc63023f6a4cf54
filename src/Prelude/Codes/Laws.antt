-- ===== src/Prelude/Codes/Laws.antt =====
-- When the comparisons of texts succeed.
use mathlib.Core.Bool.{false≢true}
use mathlib.Core.Path.{◌≡◌, refl}
use mathlib.Core.Logic.{◌↔◌}
use mathlib.Core.Bool.{true}
use mathlib.Core.List.{[], ◌∷◌, ◌++◌}
use Prim.Native.Nat.{ℕ}
use native.Mathlib.Omega.{arith}
use vh26_pixel_perfect.Prelude.Tests.{Keyed}
use vh26_pixel_perfect.Prelude.Codes.{Codes, same_text, starts_with}

pub same_text_iff : (s t : Codes) → (same_text s t ≡ true) ↔ (s ≡ t)
unfolding same_text
same_text_iff [] [] = ground arith
same_text_iff [] (b ∷ t) = ground arith
same_text_iff (a ∷ s) [] = ground arith
same_text_iff (a ∷ s) (b ∷ t) = ground (arith, same_text_iff s t)

pub same_self : (s : Codes) → same_text s s ≡ true
same_self s = (same_text_iff s s).1 refl

instance abbrev pub text_eq : Keyed Codes
text_eq = record { same = same_text; same_iff = same_text_iff }

pub consed : {a b : ℕ} {s t : Codes} → a ≡ b → s ≡ t → a ∷ s ≡ b ∷ t
consed h k = cc

pub starts_with_iff :
    (key prefix : Codes)
    → (starts_with key prefix ≡ true) ↔ ((rest : Codes) × (key ≡ prefix ++ rest))
unfolding starts_with
starts_with_iff key [] = (λ h. (key, refl), λ h. refl)
starts_with_iff [] (b ∷ prefix) = (λ h. absurd (false≢true h), λ h. let e = h.1 in cc)
starts_with_iff (a ∷ key) (b ∷ prefix) =
    let (to, from) = starts_with_iff key prefix in
    (
      λ h.
          let (rest, e) = to (ground arith) in
          let same : a ≡ b = ground arith in (rest, consed same e),
      λ h.
          let e = h.1 in
          let same : a ≡ b = cc in
          let tail : key ≡ prefix ++ h.0 = cc in let found = from (h.0, tail) in ground arith,
    )
