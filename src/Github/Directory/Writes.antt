-- ===== src/Github/Directory/Writes.antt =====
-- What github_integration/workspace.py does to the directory of a workspace when it writes or deletes
-- one file.
use mathlib.Core.Path.{subst}
use vh26_pixel_perfect.Prelude.{
  ◌≡◌, refl, sym, ap, ◌∙◌, ◌≢◌, true, Option, none, some, List, [], ◌∷◌, ◌==◌, Bool-cases,
  Option-cases, inl, inr, if-true, if-false,
}
use vh26_pixel_perfect.Prelude.Codes.{Codes}
use vh26_pixel_perfect.Prelude.Codes.Laws.{same_self, text_eq, same_text_iff}
use vh26_pixel_perfect.Github.Directory.{
  Node, file, dir, Entries, find, place, contents, inside, not_directory,
}
use vh26_pixel_perfect.Github.Directory.Tree.{
  node_at, HasFile, Full, UniqueNames, Free, contents-place, contents-found, node_at-place,
}

-- A tree with one file more, or with other contents of it.
pub record Written (parts : List Codes) (content : Codes) (e e2 : Entries) : Type 0 where
  pub here : contents parts (dir e2) ≡ some content
  pub others :
      (other : List Codes) → other ≢ parts → contents other (dir e2) ≡ contents other (dir e)
  pub full : Full (dir e) → Full (dir e2)
  pub unique : UniqueNames e → UniqueNames e2

cons_ne :
    (part q : Codes) (parts rest : List Codes) → part ≡ q → q ∷ rest ≢ part ∷ parts → rest ≢ parts
cons_ne part q parts rest same differs eq = let all : q ∷ rest ≡ part ∷ parts = cc in differs all

-- What a place below a directory gives of its other paths.
pub place-others :
    (part : Codes) (parts : List Codes) (node : Node) (e : Entries)
    → ((rest : List Codes) → rest ≢ parts → contents rest node ≡ contents (part ∷ rest) (dir e))
    → (other : List Codes) → other ≢ part ∷ parts
    → contents other (dir (place part node e)) ≡ contents other (dir e)
unfolding contents
place-others part parts node e same [] differs = refl
place-others part parts node e same (q ∷ rest) differs = elim (Bool-cases (part == q)) [
  | inl equal ↦
      let eq = (same_text_iff part q).0 equal in
      contents-place part q rest node e
      ∙ if-true (part == q) (contents rest node) (contents (q ∷ rest) (dir e)) equal
      ∙ same rest (cons_ne part q parts rest eq differs)
      ∙ ap (λ name. contents (name ∷ rest) (dir e)) eq
  | inr unequal ↦
      contents-place part q rest node e
      ∙ if-false (part == q) (contents rest node) (contents (q ∷ rest) (dir e)) unequal
]

pub place-Full :
    (part : Codes) (node : Node) (e : Entries)
    → HasFile node
    → Full node
    → Full (dir e)
    → Full (dir (place part node e))
place-Full part node e has full_node full p ps n at = elim (Bool-cases (part == p)) [
  | inl equal ↦
      let inner : node_at ps node ≡ some n =
        sym (if-true (part == p) (node_at ps node) (node_at (p ∷ ps) (dir e)) equal)
        ∙ sym (node_at-place part p ps node e)
        ∙ at in
      at_node ps inner
  | inr unequal ↦ full p ps n (
      sym (if-false (part == p) (node_at ps node) (node_at (p ∷ ps) (dir e)) unequal)
      ∙ sym (node_at-place part p ps node e)
      ∙ at)
]
  where
    at_node : (ps : List Codes) → node_at ps node ≡ some n → HasFile n
    at_node [] h = let eq : node ≡ n = cc in subst HasFile eq has
    at_node (q ∷ qs) h = full_node q qs n h

pub contents-place_here :
    (part : Codes) (parts : List Codes) (node : Node) (e : Entries)
    → contents (part ∷ parts) (dir (place part node e)) ≡ contents parts node
contents-place_here part parts node e =
    contents-place part part parts node e
    ∙ if-true (part == part) (contents parts node) (contents (part ∷ parts) (dir e))
        (same_self part)

pub file-others :
    (part : Codes) (content : Codes) (e : Entries)
    → not_directory (find part e) ≡ true
    → (rest : List Codes) → rest ≢ []
    → contents rest (file content) ≡ contents (part ∷ rest) (dir e)
unfolding contents
file-others part content e h [] differs = absurd (differs refl)
file-others part content e h (q ∷ qs) differs = in_place (find part e) h
  where
    in_place :
        (there : Option Node)
        → not_directory there ≡ true
        → contents (q ∷ qs) (file content) ≡ inside (contents (q ∷ qs)) there
    in_place none h = refl
    in_place (some (file old)) h = refl
    in_place (some (dir entries)) h = cc

pub Full-file : (content : Codes) → Full (file content)
Full-file content p ps n h = cc

-- Nothing below a free path is a directory.
pub Free-not_directory :
    (part : Codes) (e : Entries)
    → Full (dir e)
    → Free (part ∷ []) (dir e)
    → not_directory (find part e) ≡ true
unfolding contents
Free-not_directory part e full free = elim (Option-cases (find part e)) [
  | inl missing ↦ rw missing refl
  | inr (file old, there) ↦ rw there refl
  | inr (dir entries, there) ↦
      let at : node_at (part ∷ []) (dir e) ≡ some (dir entries) = rw there refl in
      no_file entries there (full part [] (dir entries) at)
]
  where
    no_file :
        (entries : Entries)
        → find part e ≡ some (dir entries)
        → HasFile (dir entries)
        → not_directory (find part e) ≡ true
    no_file entries there ([], content, h) = cc
    no_file entries there (q ∷ qs, content, h) =
        let clear = free.below q qs in
        let found = contents-found part (q ∷ qs) e (dir entries) there in cc
