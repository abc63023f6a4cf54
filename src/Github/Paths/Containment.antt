-- ===== src/Github/Paths/Containment.antt =====
-- Where a path that github_integration/workspace.py accepts can lead.
use vh26_pixel_perfect.Prelude.{
  ℕ, ◌≤◌, ◌≡◌, refl, false, ◌||◌, List, [], ◌∷◌, any, if◌then◌else◌, arith,
}
use vh26_pixel_perfect.Prelude.Text.{codes}
use vh26_pixel_perfect.Prelude.Codes.{Codes, is_blank, same_text, has, split, utf8_length}
use vh26_pixel_perfect.Prelude.Result.{ok, passed}
use vh26_pixel_perfect.Github.Paths.{
  patch_validation_error, validate_path, is_bad_text, has_bad_part, is_dots, slash,
}

-- What an operating system makes of one part of a path, in a directory that is given by the names
-- above it, the innermost first.
abbrev pub enter : List Codes → Codes → List Codes
enter here part =
    if is_blank part || same_text part (codes ".")
    then here
    else if same_text part (codes "..")
    then parent here
    else part ∷ here
  where
    parent : List Codes → List Codes
    parent [] = []
    parent (_ ∷ above) = above

abbrev pub resolve_parts : List Codes → List Codes → List Codes
resolve_parts here [] = here
resolve_parts here (part ∷ parts) = resolve_parts (enter here part) parts

-- The directory below `here` that the parts name one after another.
abbrev pub below : List Codes → List Codes → List Codes
below here [] = here
below here (part ∷ parts) = below (part ∷ here) parts

enter-plain :
    (here : List Codes) (part : Codes) → is_dots part ≡ false → enter here part ≡ part ∷ here
unfolding is_dots
enter-plain here part h = ground arith

pub resolve_parts-below :
    (parts here : List Codes)
    → any is_dots parts ≡ false
    → resolve_parts here parts ≡ below here parts
resolve_parts-below [] here h = refl
resolve_parts-below (part ∷ parts) here h =
    let plain : is_dots part ≡ false = ground arith in
    let rest : any is_dots parts ≡ false = ground arith in
    rw (enter-plain here part plain) (resolve_parts-below parts (part ∷ here) rest)

-- An accepted path is returned as it is, its encoding within the limit; it has no backslash, and from
-- whatever directory it is resolved, it leads to what its parts name one below the other: no part of
-- it stays, goes up or starts at the root.
pub validate_path-contained :
    (limit : ℕ) (path accepted : Codes) (here : List Codes)
    → validate_path limit path ≡ ok accepted
    → (accepted ≡ path)
      × (utf8_length path ≤ limit)
      × (has b'\\' path ≡ false)
      × (resolve_parts here (split slash path) ≡ below here (split slash path))
unfolding validate_path
validate_path-contained limit path accepted here h =
    let (good_text, h1) = passed (is_bad_text limit path) patch_validation_error _ h in
    let (good_parts, h2) = passed (has_bad_part (split slash path)) patch_validation_error _ h1 in
    let no_dots : any is_dots (split slash path) ≡ false = ground arith in
    (ground arith, ground arith, ground arith, resolve_parts-below (split slash path) here no_dots)
