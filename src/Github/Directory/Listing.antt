-- ===== src/Github/Directory/Listing.antt =====
-- The lists of paths that github_integration/workspace.py sorts and works through.
use vh26_pixel_perfect.Prelude.{
  ◌≡◌, refl, ap, ◌∙◌, Bool, true, false, ◌&&◌, ◌||◌, not, List, [], ◌∷◌, any, keep_if, ◌==◌,
  Bool-cases, inl, inr, arith, and_true,
}
use vh26_pixel_perfect.Prelude.Dict
use vh26_pixel_perfect.Prelude.Codes.{Codes}
use vh26_pixel_perfect.Prelude.Codes.Laws.{text_eq, same_text_iff}
use vh26_pixel_perfect.Github.Workspace.{Files, is_file}
use vh26_pixel_perfect.Github.Directory.Result.{names, insert_path, sort_paths}

abbrev pub mem : Codes → List Codes → Bool
mem path paths = any (λ other. other == path) paths

abbrev pub Distinct : List Codes → Type 0
Distinct [] = Unit
Distinct (path ∷ paths) = (mem path paths ≡ false) × Distinct paths

pub mem-keep_if :
    (f : Codes → Bool) (path : Codes) (paths : List Codes)
    → mem path (keep_if f paths) ≡ (mem path paths && f path)
mem-keep_if f path [] = refl
mem-keep_if f path (p ∷ paths) = elim (Bool-cases (p == path)) [
  | inl same ↦
      let eq : f p ≡ f path = ap f ((same_text_iff p path).0 same) in
      ground (arith, mem-keep_if f path paths)
  | inr differs ↦ ground (arith, mem-keep_if f path paths)
]

pub Distinct-keep_if :
    (f : Codes → Bool) (paths : List Codes) → Distinct paths → Distinct (keep_if f paths)
Distinct-keep_if f [] d = tt
Distinct-keep_if f (path ∷ paths) (fresh, d) = elim (Bool-cases (f path)) [
  | inl kept ↦
      rw kept ((mem-keep_if f path paths ∙ ap (λ b. b && f path) fresh), Distinct-keep_if f paths d)
  | inr dropped ↦ rw dropped (Distinct-keep_if f paths d)
]

pub mem-names : (files : Files) (path : Codes) → mem path (names files) ≡ is_file files path
unfolding names is_file Dict.get
mem-names [] path = refl
mem-names ((p, content) ∷ files) path = elim (Bool-cases (p == path)) [
  | inl same ↦ rw (same, is_file) refl
  | inr differs ↦
      let kept = mem-keep_if (λ other. not (other == p)) path (names files) in
      let rest = mem-names files path in
      let unlike : (path == p) ≡ false =
        ground (arith, same_text_iff p path, same_text_iff path p) in
      rw (differs, is_file)
        (kept ∙ ap (λ b. mem path (names files) && not b) unlike ∙ and_true _ ∙ rest)
]

pub Distinct-names : (files : Files) → Distinct (names files)
unfolding names
Distinct-names [] = tt
Distinct-names ((path, content) ∷ files) =
    let same : (path == path) ≡ true = (same_text_iff path path).1 refl in
    (
      mem-keep_if (λ other. not (other == path)) path (names files) ∙ rw same (ground arith),
      Distinct-keep_if (λ other. not (other == path)) (names files) (Distinct-names files),
    )

module _ (comes_first : Codes → Codes → Bool) where
  mem-insert_path :
      (q path : Codes) (paths : List Codes)
      → mem q (insert_path comes_first path paths) ≡ ((path == q) || mem q paths)
  unfolding insert_path
  mem-insert_path q path [] = refl
  mem-insert_path q path (p ∷ paths) = ground (arith, mem-insert_path q path paths)

  pub mem-sort_paths :
      (q : Codes) (paths : List Codes) → mem q (sort_paths comes_first paths) ≡ mem q paths
  unfolding sort_paths
  mem-sort_paths q [] = refl
  mem-sort_paths q (path ∷ paths) =
      mem-insert_path q path (sort_paths comes_first paths)
      ∙ ap (λ b. (path == q) || b) (mem-sort_paths q paths)

  Distinct-insert_path :
      (path : Codes) (paths : List Codes)
      → mem path paths ≡ false
      → Distinct paths
      → Distinct (insert_path comes_first path paths)
  unfolding insert_path
  Distinct-insert_path path [] fresh d = (refl, tt)
  Distinct-insert_path path (p ∷ paths) fresh (new, d) = elim (Bool-cases (comes_first p path)) [
    | inl first ↦
        let unlike : (path == p) ≡ false =
          ground (arith, same_text_iff p path, same_text_iff path p) in
        rw first (
          mem-insert_path p path paths ∙ rw unlike new,
          Distinct-insert_path path paths (ground arith) d,
        )
    | inr later ↦ rw later (fresh, (new, d))
  ]

  pub Distinct-sort_paths :
      (paths : List Codes) → Distinct paths → Distinct (sort_paths comes_first paths)
  unfolding sort_paths
  Distinct-sort_paths [] d = tt
  Distinct-sort_paths (path ∷ paths) (fresh, d) =
      Distinct-insert_path path (sort_paths comes_first paths) (mem-sort_paths path paths ∙ fresh)
        (Distinct-sort_paths paths d)
