-- ===== src/Inbound/Signatures/Numerals.antt =====
-- How a timestamp of inbound/signatures.py writes an integer, and how far it is from now.
use mathlib.Core.Path.{subst}
use vh26_pixel_perfect.Prelude.{
  ℕ, ◌+◌, ◌*◌, ◌-◌, ◌≤◌, ◌≡◌, refl, sym, ap, ◌∙◌, Bool, true, false, none, some, [], ◌∷◌, nat_beq,
  nat_beq_iff, Bool-cases, Option-cases, inl, inr, if◌then◌else◌, arith,
}
use vh26_pixel_perfect.Prelude.Codes.{Codes, is_blank, strip}
use vh26_pixel_perfect.Inbound.Signatures.{
  Signed, replay_window, is_digit, digits_from, unsigned, signed, parse_int, distance,
}

-- The text of digits, with a single underscore allowed between two of them, behind the number that was
-- read, and the number that it makes of that.
pub data Digits : ℕ → Codes → ℕ → Type 0 where
  last : (n d : ℕ) → d ≤ 9 → Digits n ((b'0' + d) ∷ []) (n * 10 + d)
  next : (n d m : ℕ) (s : Codes) → d ≤ 9 → Digits (n * 10 + d) s m → Digits n ((b'0' + d) ∷ s) m
  group :
      (n d m : ℕ) (s : Codes) → d ≤ 9 → Digits (n * 10 + d) s m → Digits n ((b'0' + d) ∷ b'_' ∷ s) m

-- An integer in decimal, with a sign or without.
pub data Denotes : Codes → Signed → Type 0 where
  plain : (s : Codes) (n : ℕ) → Digits 0 s n → Denotes s (false, n)
  plus : (s : Codes) (n : ℕ) → Digits 0 s n → Denotes (b'+' ∷ s) (false, n)
  minus : (s : Codes) (n : ℕ) → Digits 0 s n → Denotes (b'-' ∷ s) (true, n)

-- Both times differ at most by the window.
abbrev pub IsWithin : ℕ → ℕ → Signed → Type 0
IsWithin window now (true, n) = now + n * 1000 ≤ window
IsWithin window now (false, n) = (now ≤ n * 1000 + window) × (n * 1000 ≤ now + window)

pub distance-IsWithin :
    (now : ℕ) (t : Signed) → distance now t ≤ replay_window → IsWithin 300000 now t
distance-IsWithin now (true, n) h = h
distance-IsWithin now (false, n) h = (omega arith, omega arith)

pub IsWithin-distance :
    (now : ℕ) (t : Signed) → IsWithin 300000 now t → distance now t ≤ replay_window
IsWithin-distance now (true, n) h = h
IsWithin-distance now (false, n) (a, b) = omega arith

-- A code that is a digit.
digit_value : (c : ℕ) → is_digit c ≡ true → (d : ℕ) × (d ≤ 9) × (c ≡ b'0' + d)
digit_value c h = (c - b'0', ground arith, ground arith)

digit-is_digit : (d : ℕ) → d ≤ 9 → is_digit (b'0' + d) ≡ true
digit-is_digit d h = ground arith

digit_back : (n d : ℕ) → n * 10 + (b'0' + d - b'0') ≡ n * 10 + d
digit_back n d = omega arith

from_last : (n d : ℕ) → d ≤ 9 → digits_from n ((b'0' + d) ∷ []) ≡ some (n * 10 + d)
unfolding digits_from
from_last n d h = rw (digit-is_digit d h) (ap some (digit_back n d))

from_next :
    (n d x : ℕ) (s : Codes)
    → d ≤ 9
    → is_digit x ≡ true
    → digits_from n ((b'0' + d) ∷ x ∷ s) ≡ digits_from (n * 10 + d) (x ∷ s)
unfolding digits_from
from_next n d x s h k =
    let other : nat_beq x b'_' ≡ false = ground arith in
    reads n (b'0' + d) x s (digit-is_digit d h) other
    ∙ ap (λ v. digits_from v (x ∷ s)) (digit_back n d)
  where
    reads :
        (n c x : ℕ) (s : Codes)
        → is_digit c ≡ true
        → nat_beq x b'_' ≡ false
        → digits_from n (c ∷ x ∷ s) ≡ digits_from (n * 10 + (c - b'0')) (x ∷ s)
    reads n c x s h k = rw (h, k) refl

from_group :
    (n d : ℕ) (s : Codes)
    → d ≤ 9
    → is_blank s ≡ false
    → digits_from n ((b'0' + d) ∷ b'_' ∷ s) ≡ digits_from (n * 10 + d) s
unfolding digits_from
from_group n d s h k =
    reads n (b'0' + d) s (digit-is_digit d h) k ∙ ap (λ v. digits_from v s) (digit_back n d)
  where
    reads :
        (n c : ℕ) (s : Codes)
        → is_digit c ≡ true
        → is_blank s ≡ false
        → digits_from n (c ∷ b'_' ∷ s) ≡ digits_from (n * 10 + (c - b'0')) s
    reads n c s h k = rw (h, k) refl

-- The text of digits begins with one.
Digits-first :
    (n m : ℕ) (s : Codes)
    → Digits n s m
    → (x : ℕ) × (rest : Codes) × (s ≡ x ∷ rest) × (is_digit x ≡ true)
Digits-first n m s (last k d h) = (b'0' + d, [], refl, digit-is_digit d h)
Digits-first n m s (next k d v rest h t) = (b'0' + d, rest, refl, digit-is_digit d h)
Digits-first n m s (group k d v rest h t) = (b'0' + d, b'_' ∷ rest, refl, digit-is_digit d h)

Digits-digits_from : (n m : ℕ) (s : Codes) → Digits n s m → digits_from n s ≡ some m
Digits-digits_from n m s (last k d h) = from_last k d h
Digits-digits_from n m s (next k d v rest h t) =
    let (x, more, e, digit) = Digits-first (k * 10 + d) v rest t in
    ap (λ r. digits_from k ((b'0' + d) ∷ r)) e
    ∙ from_next k d x more h digit
    ∙ ap (digits_from (k * 10 + d)) (sym e)
    ∙ Digits-digits_from (k * 10 + d) v rest t
Digits-digits_from n m s (group k d v rest h t) =
    let (x, more, e, digit) = Digits-first (k * 10 + d) v rest t in
    from_group k d rest h (ap is_blank e) ∙ Digits-digits_from (k * 10 + d) v rest t

digits_from-Digits :
    (n m : ℕ) (s : Codes) → is_blank s ≡ false → digits_from n s ≡ some m → Digits n s m
unfolding digits_from
digits_from-Digits n m [] k h = cc
digits_from-Digits n m (c ∷ []) k h = elim (Bool-cases (is_digit c)) [
  | inr other ↦
      let clash = sym (ap (λ b. if b then some (n * 10 + (c - b'0')) else none) other) ∙ h in cc
  | inl digit ↦
      let (d, small, e) = digit_value c digit in
      let value : m ≡ n * 10 + d = ground arith in
      subst (λ v. Digits n (c ∷ []) v) (sym value)
        (subst (λ x. Digits n (x ∷ []) (n * 10 + d)) (sym e) (last n d small))
]
digits_from-Digits n m (c ∷ x ∷ s) k h = elim (Bool-cases (is_digit c)) [
  | inr other ↦
      let stop : digits_from n (c ∷ x ∷ s) ≡ none = rw other refl in let clash = sym stop ∙ h in cc
  | inl digit ↦
      let (d, small, e) = digit_value c digit in
      let back : n * 10 + (c - b'0') ≡ n * 10 + d = omega (arith, e) in
      elim (Bool-cases (nat_beq x b'_')) [
        | inl underscore ↦
            let same : x ≡ b'_' = (nat_beq_iff x b'_').0 underscore in
            elim (Bool-cases (is_blank s)) [
              | inl ends ↦
                  let stop : digits_from n (c ∷ x ∷ s) ≡ none = rw (digit, underscore, ends) refl in
                  let clash = sym stop ∙ h in cc
              | inr more ↦
                  let on : digits_from n (c ∷ x ∷ s) ≡ digits_from (n * 10 + (c - b'0')) s =
                    rw (digit, underscore, more) refl in
                  let tail = digits_from-Digits (n * 10 + (c - b'0')) m s more (sym on ∙ h) in
                  subst (λ p. Digits n (p.0 ∷ p.1 ∷ s) m) (pair (sym e) (sym same))
                    (group n d m s small (subst (λ v. Digits v s m) back tail))
            ]
        | inr direct ↦
            let on : digits_from n (c ∷ x ∷ s) ≡ digits_from (n * 10 + (c - b'0')) (x ∷ s) =
              rw (digit, direct) refl in
            let tail = digits_from-Digits (n * 10 + (c - b'0')) m (x ∷ s) refl (sym on ∙ h) in
            subst (λ a. Digits n (a ∷ x ∷ s) m) (sym e)
              (next n d m (x ∷ s) small (subst (λ v. Digits v (x ∷ s) m) back tail))
      ]
]
  where
    pair : {a b v w : ℕ} → a ≡ b → v ≡ w → ◌≡◌ {A = ℕ × ℕ} (a, v) (b, w)
    pair p q = cc

some-signed :
    (negative : Bool) (s : Codes) (n : ℕ) → Digits 0 s n → unsigned negative s ≡ some (negative, n)
some-signed negative s n digits =
    let (x, rest, e, digit) = Digits-first 0 n s digits in
    ap (unsigned negative) e
    ∙ rw (ap (digits_from 0) (sym e) ∙ Digits-digits_from 0 n s digits, unsigned) refl

signed-some :
    (negative : Bool) (s : Codes) (t : Signed)
    → unsigned negative s ≡ some t
    → (n : ℕ) × (t ≡ (negative, n)) × Digits 0 s n
signed-some negative [] t h = cc
signed-some negative (c ∷ s) t h = elim (Option-cases (digits_from 0 (c ∷ s))) [
  | inl malformed ↦
      let stop : unsigned negative (c ∷ s) ≡ none = rw (malformed, unsigned) refl in
      let clash = sym stop ∙ h in cc
  | inr (n, read) ↦
      let on : unsigned negative (c ∷ s) ≡ some (negative, n) = rw (read, unsigned) refl in
      let same : t ≡ (negative, n) = let eq = sym on ∙ h in cc in
      (n, same, digits_from-Digits 0 n (c ∷ s) refl read)
]

Denotes-signed : (s : Codes) (t : Signed) → Denotes s t → signed s ≡ some t
Denotes-signed s t (plain r n digits) =
    let (x, rest, e, digit) = Digits-first 0 n r digits in
    let no_minus : nat_beq x b'-' ≡ false = ground arith in
    let no_plus : nat_beq x b'+' ≡ false = ground arith in
    ap signed e
    ∙ rw (no_minus, no_plus) (ap (unsigned false) (sym e) ∙ some-signed false r n digits)
Denotes-signed s t (plus r n digits) = some-signed false r n digits
Denotes-signed s t (minus r n digits) = some-signed true r n digits

signed-Denotes : (s : Codes) (t : Signed) → signed s ≡ some t → Denotes s t
signed-Denotes [] t h = cc
signed-Denotes (c ∷ s) t h = elim (Bool-cases (nat_beq c b'-')) [
  | inl is_minus ↦
      let on : signed (c ∷ s) ≡ unsigned true s = rw is_minus refl in
      let (n, same, digits) = signed-some true s t (sym on ∙ h) in
      subst (λ p. Denotes (p.0 ∷ s) p.1) (both (sym ((nat_beq_iff c b'-').0 is_minus)) (sym same))
        (minus s n digits)
  | inr no_minus ↦ elim (Bool-cases (nat_beq c b'+')) [
    | inl is_plus ↦
        let on : signed (c ∷ s) ≡ unsigned false s = rw (no_minus, is_plus) refl in
        let (n, same, digits) = signed-some false s t (sym on ∙ h) in
        subst (λ p. Denotes (p.0 ∷ s) p.1) (both (sym ((nat_beq_iff c b'+').0 is_plus)) (sym same))
          (plus s n digits)
    | inr no_plus ↦
        let on : signed (c ∷ s) ≡ unsigned false (c ∷ s) = rw (no_minus, no_plus) refl in
        let (n, same, digits) = signed-some false (c ∷ s) t (sym on ∙ h) in
        subst (Denotes (c ∷ s)) (sym same) (plain (c ∷ s) n digits)
  ]
]
  where
    both : {a b : ℕ} {t u : Signed} → a ≡ b → t ≡ u → ◌≡◌ {A = ℕ × Signed} (a, t) (b, u)
    both p q = cc

pub parse_int-Denotes :
    (text : Codes) (t : Signed) → parse_int text ≡ some t → Denotes (strip text) t
unfolding parse_int
parse_int-Denotes text t h = signed-Denotes (strip text) t h

pub Denotes-parse_int :
    (text : Codes) (t : Signed) → Denotes (strip text) t → parse_int text ≡ some t
unfolding parse_int
Denotes-parse_int text t h = Denotes-signed (strip text) t h
