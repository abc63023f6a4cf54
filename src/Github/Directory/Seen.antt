-- ===== src/Github/Directory/Seen.antt =====
-- Which files a walk of github_integration/workspace.py comes across below some parts.
use vh26_pixel_perfect.Prelude.{
  ◌≡◌, refl, sym, ap, ◌∙◌, true, Option, none, some, List, [], ◌∷◌, ◌++◌, ◌==◌, Bool-cases,
  Option-cases, inl, inr, if◌then◌else◌, arith, if-true, if-false,
}
use vh26_pixel_perfect.Prelude.Codes.{Codes, split}
use vh26_pixel_perfect.Prelude.Codes.Laws.{same_self, text_eq, same_text_iff}
use vh26_pixel_perfect.Prelude.Result.{ok}
use vh26_pixel_perfect.Github.Paths.{slash, validate_path}
use vh26_pixel_perfect.Github.Workspace.{WorkspaceLimits}
use vh26_pixel_perfect.Github.Directory.{Node, file, dir, Entries, entry, contents, find}
use vh26_pixel_perfect.Github.Directory.Tree.{contents-missing}
use vh26_pixel_perfect.Github.Directory.Parts.{join, join-split}
use vh26_pixel_perfect.Github.Directory.Views.{View}
use vh26_pixel_perfect.Github.Directory.Loops.{over}

-- What follows the parts.
abbrev pub cut : List Codes → List Codes → Option (List Codes)
cut [] path = some path
cut (part ∷ parts) [] = none
cut (part ∷ parts) (name ∷ path) = if part == name then cut parts path else none

abbrev pub at_rest : Node → Option (List Codes) → Option Codes
at_rest node none = none
at_rest node (some rest) = contents rest node

-- What a walk below the parts finds at a path.
abbrev pub seen : List Codes → Node → View
seen parts node path = at_rest node (cut parts (split slash path))

-- The files below the node stand at valid paths.
abbrev pub AreNamed : WorkspaceLimits → List Codes → Node → Type 0
AreNamed limits parts node =
    (rest : List Codes) (content : Codes)
    → contents rest node ≡ some content
    → (split slash (join (parts ++ rest)) ≡ parts ++ rest)
      × (validate_path limits.max_path_length (join (parts ++ rest)) ≡ ok (join (parts ++ rest)))

pub append_nil : (parts : List Codes) → parts ++ [] ≡ parts
append_nil [] = refl
append_nil (part ∷ parts) = ap (λ ps. part ∷ ps) (append_nil parts)

pub append_one :
    (parts : List Codes) (name : Codes) (rest : List Codes)
    → (parts ++ name ∷ []) ++ rest ≡ parts ++ name ∷ rest
append_one [] name rest = refl
append_one (part ∷ parts) name rest = ap (λ ps. part ∷ ps) (append_one parts name rest)

cut_self : (parts : List Codes) → cut parts parts ≡ some []
cut_self [] = refl
cut_self (part ∷ parts) = rw (same_self part) (cut_self parts)

cut-some : (parts path rest : List Codes) → cut parts path ≡ some rest → path ≡ parts ++ rest
cut-some [] path rest h = cc
cut-some (part ∷ parts) [] rest h = cc
cut-some (part ∷ parts) (name ∷ path) rest h = elim (Bool-cases (part == name)) [
  | inl same ↦
      let eq = (same_text_iff part name).0 same in
      let tail =
        cut-some parts path rest (sym (ap (λ b. if b then cut parts path else none) same) ∙ h) in
      cc
  | inr differs ↦ let clash = sym (ap (λ b. if b then cut parts path else none) differs) ∙ h in cc
]

-- A walk that goes one name down.
abbrev drop_name : Codes → Option (List Codes) → Option (List Codes)
drop_name name none = none
drop_name name (some []) = none
drop_name name (some (q ∷ rest)) = if name == q then some rest else none

pub cut-append :
    (parts : List Codes) (name : Codes) (path : List Codes)
    → cut (parts ++ name ∷ []) path ≡ drop_name name (cut parts path)
cut-append [] name [] = refl
cut-append [] name (q ∷ path) = refl
cut-append (part ∷ parts) name [] = refl
cut-append (part ∷ parts) name (q ∷ path) = elim (Bool-cases (part == q)) [
  | inl same ↦ rw same (cut-append parts name path)
  | inr differs ↦ rw differs refl
]

pub contents-entry :
    (name : Codes) (node : Node) (rest : Entries) (q : Codes) (parts : List Codes)
    → contents (q ∷ parts) (dir (entry name node rest))
      ≡ (if name == q then contents parts node else contents (q ∷ parts) (dir rest))
unfolding contents find
contents-entry name node rest q parts = ground arith

-- The first entry and the others give together what the directory gives.
pub seen-entry :
    (name : Codes) (node : Node) (rest : Entries) (walked : Option (List Codes))
    (old : Option Codes)
    → find name rest ≡ none
    → over (at_rest (dir rest) walked) (over (at_rest node (drop_name name walked)) old)
      ≡ over (at_rest (dir (entry name node rest)) walked) old
unfolding contents
seen-entry name node rest none old fresh = refl
seen-entry name node rest (some []) old fresh = refl
seen-entry name node rest (some (q ∷ parts)) old fresh = elim (Bool-cases (name == q)) [
  | inl same ↦
      let missing : contents (q ∷ parts) (dir rest) ≡ none =
        contents-missing q parts rest
          (ap (λ n. find n rest) (sym ((same_text_iff name q).0 same)) ∙ fresh) in
      ap (λ v. over v (over (at_rest node (drop_name name (some (q ∷ parts)))) old)) missing
      ∙ ap (λ b. over (at_rest node (if b then some parts else none)) old) same
      ∙ ap (λ v. over v old)
          (sym (
            contents-entry name node rest q parts
            ∙ if-true (name == q) (contents parts node) (contents (q ∷ parts) (dir rest)) same))
  | inr differs ↦
      ap
        (λ b.
          over (contents (q ∷ parts) (dir rest))
            (over (at_rest node (if b then some parts else none)) old))
        differs
      ∙ ap (λ v. over v old)
          (sym (
            contents-entry name node rest q parts
            ∙ if-false (name == q) (contents parts node) (contents (q ∷ parts) (dir rest)) differs))
]

pub seen-file :
    (parts : List Codes) (content path : Codes) (old : Option Codes)
    → split slash (join parts) ≡ parts
    → (if join parts == path then some content else old) ≡ over (seen parts (file content) path) old
unfolding contents
seen-file parts content path old named = elim (Option-cases (cut parts (split slash path))) [
  | inl missing ↦ elim (Bool-cases (join parts == path)) [
    | inl same ↦
        let eq = (same_text_iff (join parts) path).0 same in
        let found : cut parts (split slash path) ≡ some [] =
          ap (λ p. cut parts (split slash p)) (sym eq) ∙ ap (cut parts) named ∙ cut_self parts in
        let clash = sym missing ∙ found in cc
    | inr differs ↦ rw (differs, missing) refl
  ]
  | inr ([], found) ↦
      let eq : split slash path ≡ parts =
        cut-some parts (split slash path) [] found ∙ append_nil parts in
      let same : (join parts == path) ≡ true =
        (same_text_iff (join parts) path).1 (ap join (sym eq) ∙ join-split path) in
      rw (same, found) refl
  | inr (q ∷ rest, found) ↦ elim (Bool-cases (join parts == path)) [
    | inl same ↦
        let eq = (same_text_iff (join parts) path).0 same in
        let at : cut parts (split slash path) ≡ some [] =
          ap (λ p. cut parts (split slash p)) (sym eq) ∙ ap (cut parts) named ∙ cut_self parts in
        let clash = sym found ∙ at in cc
    | inr differs ↦ rw (differs, found) refl
  ]
]
