-- ===== src/Github/Directory/Shapes.antt =====
-- Which files github_integration/workspace.py deletes before it writes a result, which after.
use mathlib.Core.Bool.{false≢true}
use vh26_pixel_perfect.Prelude.{
  ◌≡◌, refl, sym, ap, ◌∙◌, ◌≢◌, Bool, true, false, ◌&&◌, not, Option, none, some, [], ◌∷◌, ◌++◌,
  any, Option-cases, inl, inr, if◌then◌else◌, arith,
}
use vh26_pixel_perfect.Prelude.Dict
use vh26_pixel_perfect.Prelude.Codes.{Codes, same_text, starts_with}
use vh26_pixel_perfect.Prelude.Codes.Laws.{text_eq, same_text_iff, starts_with_iff}
use vh26_pixel_perfect.Github.Paths.{slash}
use vh26_pixel_perfect.Github.Workspace.{Files, is_file, is_some, ancestors}
use vh26_pixel_perfect.Github.Workspace.Limits.{none-passes, any-ancestors}
use vh26_pixel_perfect.Github.Directory.Listing.{
  mem, Distinct, mem-keep_if, Distinct-keep_if, mem-names, Distinct-names, mem-sort_paths,
}
use vh26_pixel_perfect.Github.Directory.Result.{
  names, sort_paths, is_required, is_blocker, obsolete_files, shape_blockers, other_obsolete_files,
}

is_file-is_some :
    (files : Files) (path : Codes) → is_file files path ≡ is_some (Dict.get path files)
unfolding is_file
is_file-is_some files path = elim (Option-cases (Dict.get path files)) [
  | inl absent ↦ rw (absent, is_file) refl
  | inr (content, there) ↦ rw (there, is_file) refl
]

abbrev pub is_obsolete : Option Codes → Option Codes → Bool
is_obsolete old new = is_some old && not (is_some new)

module _ (comes_first : Codes → Codes → Bool) (current result : Files) (path : Codes) where
  mem-obsolete_files :
      mem path (obsolete_files current result)
      ≡ is_obsolete (Dict.get path current) (Dict.get path result)
  unfolding obsolete_files
  mem-obsolete_files =
      mem-keep_if (λ p. not (is_file result p)) path (names current)
      ∙ rw (mem-names current path, is_file-is_some current path, is_file-is_some result path) refl

  pub mem-shape_blockers :
      mem path (sort_paths comes_first (shape_blockers current result))
      ≡ (is_obsolete (Dict.get path current) (Dict.get path result) && is_blocker result path)
  unfolding shape_blockers
  mem-shape_blockers =
      mem-sort_paths comes_first path (shape_blockers current result)
      ∙ mem-keep_if (is_blocker result) path (obsolete_files current result)
      ∙ ap (λ b. b && is_blocker result path) mem-obsolete_files

  pub mem-other_obsolete_files :
      mem path (sort_paths comes_first (other_obsolete_files current result))
      ≡ (is_obsolete (Dict.get path current) (Dict.get path result) && not (is_blocker result path))
  unfolding other_obsolete_files
  mem-other_obsolete_files =
      mem-sort_paths comes_first path (other_obsolete_files current result)
      ∙ mem-keep_if (λ p. not (is_blocker result p)) path (obsolete_files current result)
      ∙ ap (λ b. b && not (is_blocker result path)) mem-obsolete_files

  pub sort_paths-names :
      mem path (sort_paths comes_first (names result)) ≡ is_some (Dict.get path result)
  sort_paths-names =
      mem-sort_paths comes_first path (names result)
      ∙ mem-names result path
      ∙ is_file-is_some result path

pub Distinct-shape_blockers : (current result : Files) → Distinct (shape_blockers current result)
unfolding shape_blockers obsolete_files
Distinct-shape_blockers current result =
    Distinct-keep_if (is_blocker result) (obsolete_files current result)
      (Distinct-keep_if (λ p. not (is_file result p)) (names current) (Distinct-names current))

pub Distinct-other_obsolete_files :
    (current result : Files) → Distinct (other_obsolete_files current result)
unfolding other_obsolete_files obsolete_files
Distinct-other_obsolete_files current result =
    Distinct-keep_if (λ p. not (is_blocker result p)) (obsolete_files current result)
      (Distinct-keep_if (λ p. not (is_file result p)) (names current) (Distinct-names current))

-- A path that blocks nothing is neither above nor below a path of the result.
pub no_blocker :
    (result : Files) (path other content rest : Codes)
    → is_blocker result other ≡ false
    → Dict.get path result ≡ some content
    → (path ≢ other ++ slash ∷ rest) × (other ≢ path ++ slash ∷ rest)
unfolding is_blocker is_required
no_blocker result path other content rest h there =
    let not_required : any (λ e. any (same_text other) (ancestors e.0)) result ≡ false =
      ground arith in
    let not_below : any (λ e. starts_with other (e.0 ++ slash ∷ [])) result ≡ false =
      ground arith in
    (
      λ eq. false≢true (
          sym (
            none-passes (λ p. any (same_text other) (ancestors p)) result path content not_required
              there)
          ∙ ap (λ p. any (same_text other) (ancestors p)) eq
          ∙ any-ancestors (same_text other) other rest ((same_text_iff other other).1 refl)),
      λ eq. false≢true (
          sym (
            none-passes (λ p. starts_with other (p ++ slash ∷ [])) result path content not_below
              there)
          ∙ (starts_with_iff other (path ++ slash ∷ [])).1 (rest, eq ∙ one_by_one path rest)),
    )
  where
    one_by_one : (s t : Codes) → s ++ slash ∷ t ≡ (s ++ slash ∷ []) ++ t
    one_by_one [] t = refl
    one_by_one (c ∷ s) t = ap (λ r. c ∷ r) (one_by_one s t)

-- What a path contains in the end.
pub outcome :
    (old new : Option Codes) (blocks : Bool)
    → (if is_obsolete old new && not blocks
        then none
        else if is_some new
        then new
        else if is_obsolete old new && blocks
        then none
        else old)
      ≡ new
outcome none none blocks = refl
outcome none (some new) blocks = refl
outcome (some old) none true = refl
outcome (some old) none false = refl
outcome (some old) (some new) blocks = refl
