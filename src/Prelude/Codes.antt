-- ===== src/Prelude/Codes.antt =====
-- Texts as lists of code points, with the operations of Python's `str` that take texts apart. Only
-- ASCII letters are lowered, and only ASCII white space is stripped.
pub mod Laws
use mathlib.Core.List.{List, [], ◌∷◌, reverse}
use mathlib.Core.Bool.{Bool, true, false, ◌&&◌, ◌||◌, not}
use Prim.Native.Nat.{ℕ, ◌+◌, ◌-◌}
use vh26_pixel_perfect.Prelude.Tests.{nat_beq, leb, if◌then◌else◌}

abbrev pub Codes : Type 0
Codes = List ℕ

abbrev pub is_blank : Codes → Bool
is_blank [] = true
is_blank (_ ∷ _) = false

abbrev pub is_ascii : Codes → Bool
is_ascii [] = true
is_ascii (c ∷ s) = leb c 127 && is_ascii s

unfoldable pub same_text : Codes → Codes → Bool
same_text [] [] = true
same_text [] (_ ∷ _) = false
same_text (_ ∷ _) [] = false
same_text (a ∷ s) (b ∷ t) = nat_beq a b && same_text s t

-- key.startswith(prefix)
unfoldable pub starts_with : Codes → Codes → Bool
starts_with key [] = true
starts_with [] (_ ∷ _) = false
starts_with (a ∷ key) (b ∷ prefix) = nat_beq a b && starts_with key prefix

unfoldable pub is_space : ℕ → Bool
is_space c = nat_beq c 32 || leb 9 c && leb c 13 || leb 28 c && leb c 31

unfoldable pub lstrip : Codes → Codes
unfolding is_space
lstrip [] = []
lstrip (c ∷ s) = elim (is_space c) [ true ↦ lstrip s | false ↦ c ∷ s ]

-- The trailing white space goes when nothing but white space follows.
unfoldable pub rstrip : Codes → Codes
unfolding is_space
rstrip [] = []
rstrip (c ∷ s) = let rest = rstrip s in if is_space c && is_blank rest then [] else c ∷ rest

-- s.strip()
unfoldable pub strip : Codes → Codes
unfolding lstrip rstrip
strip s = lstrip (rstrip s)

abbrev pub onto_first : ℕ → List Codes → List Codes
onto_first c [] = (c ∷ []) ∷ []
onto_first c (part ∷ parts) = (c ∷ part) ∷ parts

-- s.split(sep), for one code point
unfoldable pub split : ℕ → Codes → List Codes
split sep [] = [] ∷ []
split sep (c ∷ s) =
    let parts = split sep s in if nat_beq c sep then [] ∷ parts else onto_first c parts

-- s.partition(sep), without the separator
unfoldable pub partition : ℕ → Codes → Codes × Codes
partition sep [] = ([], [])
partition sep (c ∷ s) =
    let (before, after) = partition sep s in if nat_beq c sep then ([], s) else (c ∷ before, after)

-- key.endswith(suffix)
unfoldable pub ends_with : Codes → Codes → Bool
unfolding starts_with
ends_with key suffix = starts_with (reverse key) (reverse suffix)

abbrev pub has : ℕ → Codes → Bool
has c [] = false
has c (d ∷ s) = nat_beq c d || has c s

abbrev pub upper_code : ℕ → ℕ
upper_code c = if leb b'a' c && leb c b'z' then c - 32 else c

-- len(s.encode("utf-8")), for a text that can be encoded
abbrev pub utf8_width : ℕ → ℕ
utf8_width c = if leb c 0x7F then 1 else if leb c 0x7FF then 2 else if leb c 0xFFFF then 3 else 4

abbrev pub utf8_length : Codes → ℕ
utf8_length [] = 0
utf8_length (c ∷ s) = utf8_width c + utf8_length s

-- Surrogates have no encoding.
abbrev pub can_encode : Codes → Bool
can_encode [] = true
can_encode (c ∷ s) = not (leb 0xD800 c && leb c 0xDFFF) && can_encode s
