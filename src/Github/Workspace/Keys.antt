-- ===== src/Github/Workspace/Keys.antt =====
-- Sets of files of github_integration/workspace.py that store each path once, and what they weigh.
use mathlib.Core.Path.{subst}
use vh26_pixel_perfect.Prelude.{
  ℕ, ◌+◌, ◌≤◌, ◌≡◌, refl, sym, ap, ◌∙◌, Bool, true, false, Option, none, some, [], ◌∷◌, All, length,
  ◌==◌, Bool-cases, inl, inr, if◌then◌else◌, arith,
}
use vh26_pixel_perfect.Prelude.Tests.{nat_eq}
use vh26_pixel_perfect.Prelude.Dict
use vh26_pixel_perfect.Prelude.Dict.{get-remove}
use vh26_pixel_perfect.Prelude.Codes.{Codes, utf8_length}
use vh26_pixel_perfect.Prelude.Codes.Laws.{text_eq, same_text_iff}
use vh26_pixel_perfect.Github.Workspace.{Files}
use vh26_pixel_perfect.Github.Workspace.Limits.{total_bytes}

-- Each path is stored once.
abbrev pub NodupKeys : Files → Type 0
NodupKeys [] = Unit
NodupKeys ((path, content) ∷ files) = (Dict.get path files ≡ none) × NodupKeys files

remove-none :
    (k j : Codes) (files : Files)
    → Dict.get j files ≡ none
    → Dict.get j (Dict.remove k files) ≡ none
remove-none k j files h = get-remove k j files ∙ both (k == j) h
  where
    both : (b : Bool) {o : Option Codes} → o ≡ none → (if b then none else o) ≡ none
    both true h = refl
    both false h = h

remove-NodupKeys : (k : Codes) (files : Files) → NodupKeys files → NodupKeys (Dict.remove k files)
unfolding Dict.remove
remove-NodupKeys k [] u = tt
remove-NodupKeys k ((p, c) ∷ files) (fresh, u) = elim (Bool-cases (p == k)) [
  | inl same ↦ rw same (remove-NodupKeys k files u)
  | inr differs ↦ rw differs (remove-none k p files fresh, remove-NodupKeys k files u)
]

pub put-NodupKeys :
    (path content : Codes) (files : Files)
    → NodupKeys files
    → NodupKeys (Dict.put path content files)
unfolding Dict.put
put-NodupKeys path content files u =
    let same : (path == path) ≡ true = (same_text_iff path path).1 refl in
    (
      get-remove path path files ∙ ap (λ b. if b then none else Dict.get path files) same,
      remove-NodupKeys path files u,
    )

-- What is stored under the paths of a set is what its entries say.
pub All-stored :
    (P : Codes × Codes → Type 0) (files : Files)
    → NodupKeys files
    → ((path content : Codes) → Dict.get path files ≡ some content → P (path, content))
    → All P files
unfolding Dict.get
All-stored P [] u h = tt
All-stored P ((p, c) ∷ files) (fresh, u) h =
    let same : (p == p) ≡ true = (same_text_iff p p).1 refl in
    (
      h p c (ap (λ b. if b then some c else Dict.get p files) same),
      All-stored P files u (λ path content at. elim (Bool-cases (p == path)) [
        | inl equal ↦
            let eq = (same_text_iff p path).0 equal in
            let clash = sym fresh ∙ ap (λ q. Dict.get q files) eq ∙ at in cc
        | inr differs ↦
            h path content (ap (λ b. if b then some c else Dict.get path files) differs ∙ at)
      ]),
    )

-- Something is stored at each path only as the entries say.
pub stored-All :
    (P : Codes × Codes → Type 0) (files : Files) (path content : Codes)
    → All P files
    → Dict.get path files ≡ some content
    → P (path, content)
unfolding Dict.get
stored-All P [] path content all h = cc
stored-All P ((p, c) ∷ files) path content (first, all) h = elim (Bool-cases (p == path)) [
  | inl same ↦
      let at = sym (ap (λ b. if b then some c else Dict.get path files) same) ∙ h in
      let eq : (p, c) ≡ (path, content) = let e = (same_text_iff p path).0 same in cc in
      subst P eq first
  | inr differs ↦
      stored-All P files path content all
        (sym (ap (λ b. if b then some c else Dict.get path files) differs) ∙ h)
]

-- The sum of a measure of the entries.
abbrev weight : (Codes × Codes → ℕ) → Files → ℕ
weight f [] = 0
weight f (e ∷ files) = f e + weight f files

weight-remove-le :
    (f : Codes × Codes → ℕ) (k : Codes) (files : Files)
    → weight f (Dict.remove k files) ≤ weight f files
unfolding Dict.remove
weight-remove-le f k [] = omega arith
weight-remove-le f k ((p, c) ∷ files) = ground (arith, weight-remove-le f k files)

weight-remove :
    (f : Codes × Codes → ℕ) (k content : Codes) (files : Files)
    → Dict.get k files ≡ some content
    → f (k, content) + weight f (Dict.remove k files) ≤ weight f files
unfolding Dict.remove Dict.get
weight-remove f k content [] h = cc
weight-remove f k content ((p, c) ∷ files) h = elim (Bool-cases (p == k)) [
  | inl same ↦
      let at = sym (ap (λ b. if b then some c else Dict.get k files) same) ∙ h in
      let eq : f (p, c) ≡ f (k, content) = let e = (same_text_iff p k).0 same in cc in
      rw same (omega (arith, eq, weight-remove-le f k files))
  | inr differs ↦
      let at = sym (ap (λ b. if b then some c else Dict.get k files) differs) ∙ h in
      rw differs (omega (arith, weight-remove f k content files at))
]

-- A set that stores nothing but what another does weighs no more.
pub weight-le :
    (f : Codes × Codes → ℕ) (part whole : Files)
    → NodupKeys part
    → ((path content : Codes)
        → Dict.get path part ≡ some content
        → Dict.get path whole ≡ some content)
    → weight f part ≤ weight f whole
unfolding Dict.get
weight-le f [] whole u h = omega arith
weight-le f ((p, c) ∷ part) whole (fresh, u) h =
    let same : (p == p) ≡ true = (same_text_iff p p).1 refl in
    let here : Dict.get p whole ≡ some c =
      h p c (ap (λ b. if b then some c else Dict.get p part) same) in
    let rest = weight-le f part (Dict.remove p whole) u (λ path content at.
      elim (Bool-cases (p == path)) [
        | inl equal ↦
            let eq = (same_text_iff p path).0 equal in
            let clash = sym fresh ∙ ap (λ q. Dict.get q part) eq ∙ at in cc
        | inr differs ↦
            get-remove p path whole
            ∙ ap (λ b. if b then none else Dict.get path whole) differs
            ∙ h path content (ap (λ b. if b then some c else Dict.get path part) differs ∙ at)
      ]) in
    omega (arith, rest, weight-remove f p c whole here)

pub weight-length : (files : Files) → weight (λ _. 1) files ≡ length files
weight-length [] = refl
weight-length (e ∷ files) = omega (arith, weight-length files)

pub weight-bytes :
    (files : Files) → weight (λ (_, content). utf8_length content) files ≡ total_bytes files
weight-bytes [] = refl
weight-bytes ((p, c) ∷ files) = omega (arith, weight-bytes files)
