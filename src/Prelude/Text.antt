-- ===== src/Prelude/Text.antt =====
-- Text: `str.lower()` against a key, and the code points of a text. Letters outside ASCII are left as
-- they are; every key of the program is ASCII.
use Prim.Native.Char.{code}
use Prim.Native.String.{String, compare}
use Prim.Native.Nat.{ℕ, ◌+◌, Ordering}
use mathlib.Core.Bool.{Bool, true, false, ◌&&◌}
use mathlib.Core.List.{List, [], ◌∷◌, map}
use vh26_pixel_perfect.Prelude.Tests.{nat_beq, leb, if◌then◌else◌}

abbrev pub codes : String → List ℕ
codes String.[] = []
codes (String.◌∷◌ c s) = code c ∷ codes s

unfoldable pub lower_code : ℕ → ℕ
lower_code c = if leb b'A' c && leb c b'Z' then c + 32 else c

unfoldable pub same_codes : List ℕ → List ℕ → Bool
same_codes [] [] = true
same_codes (a ∷ as') (b ∷ bs) = nat_beq a b && same_codes as' bs
same_codes _ _ = false

-- s.lower() == key
unfoldable pub lowers_to : String → String → Bool
unfolding lower_code same_codes
lowers_to s key = same_codes (map lower_code (codes s)) (codes key)

-- sorted(texts)
unfoldable pub insert_text : String → List String → List String
insert_text s [] = s ∷ []
insert_text s (t ∷ ts) = elim (compare s t) [ Ordering.gt ↦ t ∷ insert_text s ts | _ ↦ s ∷ t ∷ ts ]

unfoldable pub sorted : List String → List String
unfolding insert_text
sorted [] = []
sorted (s ∷ ss) = insert_text s (sorted ss)
