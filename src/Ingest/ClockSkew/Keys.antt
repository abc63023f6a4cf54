-- ===== src/Ingest/ClockSkew/Keys.antt =====
-- Pairs of texts as keys of a map.
use vh26_pixel_perfect.Prelude.{
  Bool, true, ◌&&◌, ◌≡◌, ◌↔◌, String, string_eq, ◌==◌, Keyed, arith, ap,
}

abbrev pub same_pair : String × String → String × String → Bool
same_pair (a, b) (c, d) = a == c && b == d

pub same_pair_iff : (p q : String × String) → (same_pair p q ≡ true) ↔ (p ≡ q)
same_pair_iff (a, b) (c, d) = (
  λ h.
      let e : a ≡ c = (string_eq.same_iff a c).0 (ground arith) in
      let k : b ≡ d = (string_eq.same_iff b d).0 (ground arith) in cc,
  λ h.
      let e = (string_eq.same_iff a c).1 (ap (λ p. p.0) h) in
      let k = (string_eq.same_iff b d).1 (ap (λ p. p.1) h) in ground arith,
)

instance abbrev pub pair_eq : Keyed (String × String)
pair_eq = record { same = same_pair; same_iff = same_pair_iff }
