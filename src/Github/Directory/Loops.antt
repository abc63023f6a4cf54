-- ===== src/Github/Directory/Loops.antt =====
-- The loops of github_integration/workspace.py that delete and write files, one after another.
use mathlib.Core.Path.{subst}
use vh26_pixel_perfect.Prelude.{
  ◌≡◌, refl, sym, ap, ◌∙◌, ◌⊎◌, true, false, Option, none, some, List, [], ◌∷◌, ◌==◌, Bool-cases,
  inl, inr, if◌then◌else◌, arith, if-true, if-false,
}
use vh26_pixel_perfect.Prelude.Dict
use vh26_pixel_perfect.Prelude.Codes.{Codes, can_encode}
use vh26_pixel_perfect.Prelude.Codes.Laws.{text_eq, same_text_iff}
use vh26_pixel_perfect.Prelude.Result.{ok}
use vh26_pixel_perfect.Github.Paths.{validate_path}
use vh26_pixel_perfect.Github.Workspace.{Files, WorkspaceLimits}
use vh26_pixel_perfect.Github.Directory.{Entries, dir, contents}
use vh26_pixel_perfect.Github.Directory.Tree.{Full}
use vh26_pixel_perfect.Github.Directory.Remove.{Unlinked, remove}
use vh26_pixel_perfect.Github.Directory.Parts.{split_nonempty}
use vh26_pixel_perfect.Github.Directory.Listing.{mem, Distinct}
use vh26_pixel_perfect.Github.Directory.Result.{delete_existing, delete_all}
use vh26_pixel_perfect.Github.Directory.Views.{
  View, Holds, Holds-same, changed, Holds-unlinked, IsClear,
}

-- The view without the paths.
abbrev pub dropped : List Codes → View → View
dropped paths view path = if mem path paths then none else view path

-- The content of the result, or what was there.
abbrev pub over : Option Codes → Option Codes → Option Codes
over none old = old
over (some content) old = some content

abbrev pub updated : Files → List Codes → View → View
updated result paths view path =
    if mem path paths then over (Dict.get path result) (view path) else view path

module _ (limits : WorkspaceLimits) where
  abbrev pub AreValid : View → Type 0
  AreValid view =
      (path content : Codes)
      → view path ≡ some content
      → (validate_path limits.max_path_length path ≡ ok path) × (can_encode content ≡ true)

  pub delete_step :
      (path content : Codes) (e : Entries) (view : View)
      → AreValid view
      → Holds e view
      → view path ≡ some content
      → (after : Entries) × (delete_existing limits path (dir e) ≡ ok (dir after))
        × Holds after (changed path none view)
  unfolding delete_existing
  delete_step path content e view valid holds there =
      let (part, parts, eq) = split_nonempty path in
      let at = ap (λ ps. contents ps (dir e)) (sym eq) ∙ holds.found path content there in
      let u = subst (λ ps. Unlinked ps e) (sym eq) (remove part content parts e at) in
      (u.after, rw (valid path content there).0 u.unlinked, Holds-unlinked path e view u holds)

  changed-dropped :
      (path : Codes) (paths : List Codes) (view : View) (other : Codes)
      → dropped paths (changed path none view) other ≡ dropped (path ∷ paths) view other
  changed-dropped path paths view other = elim (Bool-cases (path == other)) [
    | inl same ↦ rw same (ground arith)
    | inr differs ↦ rw differs refl
  ]

  -- Distinct files that are there are deleted, one after another.
  pub delete_all-Holds :
      (paths : List Codes) (e : Entries) (view : View)
      → AreValid view
      → Holds e view
      → Distinct paths
      → ((path : Codes) → mem path paths ≡ true → (content : Codes) × (view path ≡ some content))
      → (after : Entries) × (delete_all limits paths (dir e) ≡ ok (dir after))
        × Holds after (dropped paths view)
  unfolding delete_all
  delete_all-Holds [] e view valid holds distinct there = (e, refl, holds)
  delete_all-Holds (path ∷ paths) e view valid holds (fresh, distinct) there =
      let self = (same_text_iff path path).1 refl in
      let (content, here) = there path (rw self refl) in
      let (e1, deleted, holds1) = delete_step path content e view valid holds here in
      let kept : (other : Codes) → mem other paths ≡ true → (path == other) ≡ false =
        λ other among. unlike path other paths fresh among in
      let (after, rest, holds2) =
        delete_all-Holds paths e1 (changed path none view)
          (λ other c h. valid other c (present path other c view h)) holds1 distinct
          (λ other among.
            let (c, at) = there other (ground arith) in
            (c, if-false (path == other) none (view other) (kept other among) ∙ at)) in
      (
        after,
        rw deleted rest,
        Holds-same after (dropped paths (changed path none view)) (dropped (path ∷ paths) view)
            (changed-dropped path paths view) holds2,
      )
    where
      unlike :
          (path other : Codes) (paths : List Codes)
          → mem path paths ≡ false
          → mem other paths ≡ true
          → (path == other) ≡ false
      unlike path other paths fresh among = elim (Bool-cases (path == other)) [
        | inl same ↦
            let eq = (same_text_iff path other).0 same in
            let clash = sym fresh ∙ ap (λ p. mem p paths) eq ∙ among in cc
        | inr differs ↦ differs
      ]

      present :
          (path other c : Codes) (view : View)
          → changed path none view other ≡ some c
          → view other ≡ some c
      present path other c view h = elim (Bool-cases (path == other)) [
        | inl same ↦ let clash = sym (if-true (path == other) none (view other) same) ∙ h in cc
        | inr differs ↦ sym (if-false (path == other) none (view other) differs) ∙ h
      ]

  -- What the loop over the result relies on, at each of its steps.
  pub record Ready (current result : Files) (e : Entries) (view : View) : Type 0 where
    pub holds : Holds e view
    pub full : Full (dir e)
    pub clear : (path content : Codes) → Dict.get path result ≡ some content → IsClear view path
    pub agrees :
        (path content : Codes)
        → Dict.get path result ≡ some content
        → (view path ≡ Dict.get path current) ⊎ (view path ≡ some content)
