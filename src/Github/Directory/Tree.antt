-- ===== src/Github/Directory/Tree.antt =====
-- What github_integration/workspace.py leaves to read in the directory of a workspace, one file at a
-- time.
use mathlib.Core.Path.{subst}
use vh26_pixel_perfect.Prelude.{
  ◌≡◌, refl, sym, ap, ◌∙◌, Bool, true, false, Option, none, some, List, [], ◌∷◌, ◌++◌, ◌==◌,
  Bool-cases, inl, inr, if◌then◌else◌, arith,
}
use vh26_pixel_perfect.Prelude.Codes.{Codes}
use vh26_pixel_perfect.Prelude.Codes.Laws.{same_self, text_eq, same_text_iff}
use vh26_pixel_perfect.Github.Directory.{
  Node, file, dir, Entries, end, entry, find, without, place, contents, inside,
}

-- The node that the parts lead to.
abbrev pub node_at : List Codes → Node → Option Node
node_at [] node = some node
node_at (part ∷ parts) (file content) = none
node_at (part ∷ parts) (dir entries) = inside (node_at parts) (find part entries)

abbrev pub HasFile : Node → Type 0
HasFile node = (parts : List Codes) × (content : Codes) × (contents parts node ≡ some content)

-- Below every directory but the root stands a file.
abbrev pub Full : Node → Type 0
Full tree =
    (part : Codes) (parts : List Codes) (node : Node)
    → node_at (part ∷ parts) tree ≡ some node
    → HasFile node

-- No name stands twice in a directory.
abbrev mutual
  pub Unique : Node → Type 0
  Unique (file content) = Unit
  Unique (dir entries) = UniqueNames entries

  pub UniqueNames : Entries → Type 0
  UniqueNames end = Unit
  UniqueNames (entry name node rest) = (find name rest ≡ none) × Unique node × UniqueNames rest

pub find-without :
    (k j : Codes) (e : Entries) → find j (without k e) ≡ (if k == j then none else find j e)
unfolding find without
find-without k j end = ground arith
find-without k j (entry i node e) =
    ground (arith, find-without k j e, same_text_iff i k, same_text_iff i j, same_text_iff k j)

pub find-place :
    (k j : Codes) (node : Node) (e : Entries)
    → find j (place k node e) ≡ (if k == j then some node else find j e)
unfolding find place
find-place k j node e = ground (arith, find-without k j e, same_text_iff k j)

pub without-UniqueNames : (k : Codes) (e : Entries) → UniqueNames e → UniqueNames (without k e)
unfolding without
without-UniqueNames k end u = tt
without-UniqueNames k (entry name node e) (fresh, one, u) = elim (Bool-cases (name == k)) [
  | inl same ↦ rw same (without-UniqueNames k e u)
  | inr differs ↦
      rw differs (
        find-without k name e ∙ left (k == name) (find name e) fresh,
        one,
        without-UniqueNames k e u,
      )
]
  where
    left : (b : Bool) (old : Option Node) → old ≡ none → (if b then none else old) ≡ none
    left true old h = refl
    left false old h = h

pub place-UniqueNames :
    (k : Codes) (node : Node) (e : Entries)
    → Unique node
    → UniqueNames e
    → UniqueNames (place k node e)
unfolding place
place-UniqueNames k node e one u = (
  find-without k k e ∙ ap (λ b. if b then none else find k e) (same_self k),
  one,
  without-UniqueNames k e u,
)

pub find-Unique :
    (k : Codes) (e : Entries) (node : Node) → find k e ≡ some node → UniqueNames e → Unique node
unfolding find
find-Unique k end node h u = cc
find-Unique k (entry name first e) node h (fresh, one, u) = elim (Bool-cases (name == k)) [
  | inl same ↦
      let eq : first ≡ node =
        let at = sym (ap (λ b. if b then some first else find k e) same) ∙ h in cc in
      subst Unique eq one
  | inr differs ↦
      find-Unique k e node (sym (ap (λ b. if b then some first else find k e) differs) ∙ h) u
]

without-without : (k : Codes) (e : Entries) → without k (without k e) ≡ without k e
unfolding without
without-without k end = refl
without-without k (entry i node e) = ground (arith, without-without k e)

pub place-place :
    (k : Codes) (new old : Node) (e : Entries) → place k new (place k old e) ≡ place k new e
unfolding place without
place-place k new old e = rw (same_self k) (ap (λ rest. entry k new rest) (without-without k e))

pub contents-place :
    (k part : Codes) (parts : List Codes) (node : Node) (e : Entries)
    → contents (part ∷ parts) (dir (place k node e))
      ≡ (if k == part then contents parts node else contents (part ∷ parts) (dir e))
unfolding contents
contents-place k part parts node e = rw (find-place k part node e) (ground arith)

pub contents-without :
    (k part : Codes) (parts : List Codes) (e : Entries)
    → contents (part ∷ parts) (dir (without k e))
      ≡ (if k == part then none else contents (part ∷ parts) (dir e))
unfolding contents
contents-without k part parts e = rw (find-without k part e) (ground arith)

pub node_at-place :
    (k part : Codes) (parts : List Codes) (node : Node) (e : Entries)
    → node_at (part ∷ parts) (dir (place k node e))
      ≡ (if k == part then node_at parts node else node_at (part ∷ parts) (dir e))
node_at-place k part parts node e = rw (find-place k part node e) (ground arith)

-- No file stands at the place of a directory above the path, and none below the path.
pub record Free (parts : List Codes) (tree : Node) : Type 0 where
  pub above :
      (upper : List Codes) (next : Codes) (lower : List Codes)
      → parts ≡ upper ++ next ∷ lower
      → contents upper tree ≡ none
  pub below : (next : Codes) (lower : List Codes) → contents (parts ++ next ∷ lower) tree ≡ none

pub contents-end : (parts : List Codes) → contents parts (dir end) ≡ none
unfolding contents find
contents-end [] = refl
contents-end (part ∷ parts) = refl

pub Free-end : (parts : List Codes) → Free parts (dir end)
Free-end parts = record {
  above = λ upper next lower h. contents-end upper;
  below = λ next lower. contents-end (parts ++ next ∷ lower);
}

pub Full-end : Full (dir end)
unfolding find
Full-end part parts node h = cc

pub contents-found :
    (part : Codes) (parts : List Codes) (e : Entries) (node : Node)
    → find part e ≡ some node
    → contents (part ∷ parts) (dir e) ≡ contents parts node
unfolding contents
contents-found part parts e node h = rw h refl

pub contents-missing :
    (part : Codes) (parts : List Codes) (e : Entries)
    → find part e ≡ none
    → contents (part ∷ parts) (dir e) ≡ none
unfolding contents
contents-missing part parts e h = rw h refl

pub Free-found :
    (part : Codes) (parts : List Codes) (e : Entries) (node : Node)
    → find part e ≡ some node
    → Free (part ∷ parts) (dir e)
    → Free parts node
Free-found part parts e node h free = record {
  above = λ upper next lower eq.
      sym (contents-found part upper e node h)
      ∙ free.above (part ∷ upper) next lower (ap (λ rest. part ∷ rest) eq);
  below = λ next lower.
      sym (contents-found part (parts ++ next ∷ lower) e node h) ∙ free.below next lower;
}

pub Full-found :
    (part : Codes) (e : Entries) (node : Node) → find part e ≡ some node → Full (dir e) → Full node
Full-found part e node h full p ps n at = full part (p ∷ ps) n (rw h at)
