-- ===== src/Github/Paths.antt =====
-- github_integration/workspace.py: the checks of a path and of the other texts of a proposal. A text
-- is the list of its code points; `int(text, 16)` reads ASCII digits only.
pub mod Containment
use vh26_pixel_perfect.Prelude.{
  ℕ, ◌-◌, Bool, true, false, ◌&&◌, ◌||◌, not, Option, none, some, List, [], ◌∷◌, map, any, length,
  take, leb, ltb, nat_beq, if◌then◌else◌,
}
use vh26_pixel_perfect.Prelude.Text.{codes, lower_code}
use vh26_pixel_perfect.Prelude.Codes.{
  Codes, is_blank, same_text, starts_with, ends_with, has, split, partition, strip, rstrip,
  upper_code, can_encode, utf8_length,
}
use vh26_pixel_perfect.Prelude.Result.{Result, ok, err, ◌>>=◌, ◌>>◌, raise_if}

-- The exception classes of the workspace.
pub data PatchError : Type 0 where
  patch_workspace_error patch_validation_error patch_conflict_error workspace_closed : PatchError

abbrev pub slash : ℕ
slash = b'/'

unfoldable pub is_dots : Codes → Bool
is_dots part = is_blank part || same_text part (codes ".") || same_text part (codes "..")

-- part.rstrip(". ")
unfoldable pub rstrip_dots : Codes → Codes
rstrip_dots [] = []
rstrip_dots (c ∷ s) =
    let rest = rstrip_dots s in
    if (nat_beq c b'.' || nat_beq c b' ') && is_blank rest then [] else c ∷ rest

abbrev pub device_names : List Codes
device_names = codes "CON" ∷ codes "PRN" ∷ codes "AUX" ∷ codes "NUL" ∷ codes "CLOCK$" ∷ []

-- COM1 to COM9 and LPT1 to LPT9
abbrev pub is_numbered_device : Codes → Bool
is_numbered_device (a ∷ b ∷ c ∷ d ∷ []) =
    (same_text (a ∷ b ∷ c ∷ []) (codes "COM") || same_text (a ∷ b ∷ c ∷ []) (codes "LPT"))
    && leb b'1' d
    && leb d b'9'
is_numbered_device _ = false

unfoldable pub is_windows_reserved_name : Codes → Bool
unfolding rstrip_dots
is_windows_reserved_name part =
    let name = map upper_code (partition b'.' (rstrip_dots part)).0 in
    any (same_text name) device_names || is_numbered_device name

-- A drive with a root.
abbrev pub is_drive_rooted : Codes → Bool
is_drive_rooted (_ ∷ b ∷ c ∷ _) = nat_beq b b':' && nat_beq c slash
is_drive_rooted _ = false

unfoldable pub ends_badly : Codes → Bool
ends_badly part = ends_with part (codes ".") || ends_with part (codes " ")

-- The text of the path is refused.
unfoldable pub is_bad_text : ℕ → Codes → Bool
is_bad_text max_path_length path =
    (is_blank path || ltb max_path_length (length path))
    || not (can_encode path)
    || ltb max_path_length (utf8_length path)
    || (has 0 path || has b'\\' path)
    || any (λ c. ltb c 32) path
    || (starts_with path (codes "/") || is_drive_rooted path)

-- The parts between its slashes are refused.
unfoldable pub has_bad_part : List Codes → Bool
has_bad_part parts =
    any is_dots parts
    || any ends_badly parts
    || any (has b':') parts
    || any is_windows_reserved_name parts

-- Every refusal is the same exception.
unfoldable pub validate_path : ℕ → Codes → Result PatchError Codes
unfolding is_bad_text has_bad_part
validate_path max_path_length path = do
  raise_if (is_bad_text max_path_length path) patch_validation_error
  raise_if (has_bad_part (split slash path)) patch_validation_error
  ok path

abbrev pub is_unsafe_control : ℕ → Bool
is_unsafe_control c = ltb c 32 && not (nat_beq c 10 || nat_beq c 13 || nat_beq c 9)

unfoldable pub validate_metadata_text : ℕ → Codes → Result PatchError (Unit {0})
validate_metadata_text maximum value = do
  raise_if (is_blank (strip value) || ltb maximum (length value)) patch_validation_error
  raise_if (any is_unsafe_control value) patch_validation_error

-- The check of a text that may be absent.
abbrev pub validate_optional : ℕ → Option Codes → Result PatchError (Unit {0})
validate_optional maximum none = ok tt
validate_optional maximum (some value) = validate_metadata_text maximum value

abbrev pub is_hex_digit : ℕ → Bool
is_hex_digit c = leb b'0' c && leb c b'9' || leb b'a' c && leb c b'f' || leb b'A' c && leb c b'F'

-- Digits, with single underscores between them.
unfoldable pub are_hex_digits : Codes → Bool
are_hex_digits [] = false
are_hex_digits (c ∷ []) = is_hex_digit c
are_hex_digits (c ∷ d ∷ s) =
    let rest = are_hex_digits s in
    let next = are_hex_digits (d ∷ s) in is_hex_digit c && (if nat_beq d b'_' then rest else next)

abbrev pub drop_sign : Codes → Codes
drop_sign [] = []
drop_sign (c ∷ s) = if nat_beq c b'+' || nat_beq c b'-' then s else c ∷ s

-- `0x` and an underscore behind it
abbrev pub drop_prefix : Codes → Codes
drop_prefix (z ∷ x ∷ u ∷ s) =
    if nat_beq z b'0' && nat_beq (lower_code x) b'x'
    then (if nat_beq u b'_' then s else u ∷ s)
    else z ∷ x ∷ u ∷ s
drop_prefix s = s

-- int(value, 16) succeeds
unfoldable pub is_base_16 : Codes → Bool
unfolding are_hex_digits
is_base_16 value = are_hex_digits (drop_prefix (drop_sign (strip value)))

unfoldable pub normalize_sha256 : Option Codes → Result PatchError (Option Codes)
unfolding is_base_16
normalize_sha256 none = ok none
normalize_sha256 (some value) = do
  raise_if (not (nat_beq (length value) 64)) patch_validation_error
  raise_if (not (is_base_16 value)) patch_validation_error
  ok (some (map lower_code value))
