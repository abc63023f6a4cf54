-- ===== src/Github/Directory/Prune.antt =====
-- The removal of empty directories in github_integration/workspace.py.
use mathlib.Core.Path.{subst}
use vh26_pixel_perfect.Prelude.{
  ◌≡◌, refl, sym, ap, ◌∙◌, true, false, Option, none, some, List, [], ◌∷◌, ◌==◌, Bool-cases,
  Option-cases, inl, inr, if◌then◌else◌, arith,
}
use vh26_pixel_perfect.Prelude.Codes.{Codes}
use vh26_pixel_perfect.Prelude.Codes.Laws.{same_self, text_eq}
use vh26_pixel_perfect.Github.Directory.{
  Node, file, dir, Entries, end, entry, find, contents, inside, is_empty_directory, prune,
  prune_entries,
}
use vh26_pixel_perfect.Github.Directory.Tree.{
  node_at, HasFile, Full, Unique, UniqueNames, without-UniqueNames, contents-found, contents-end,
  find-without,
}

-- What is left of what stands under a name.
abbrev pruned : Option Node → Option Node
pruned none = none
pruned (some node) = let child = prune node in if is_empty_directory child then none else some child

find-prune : (name : Codes) (e : Entries) → find name (prune_entries e) ≡ pruned (find name e)
unfolding prune find
find-prune name end = refl
find-prune name (entry n node e) = elim (Bool-cases (is_empty_directory (prune node))) [
  | inl empty ↦ rw empty (
      find-without n name (prune_entries e) ∙ (elim (Bool-cases (n == name)) [
        | inl same ↦ rw (same, empty) refl
        | inr differs ↦ rw differs (find-prune name e)
      ]))
  | inr kept ↦ rw kept (elim (Bool-cases (n == name)) [
    | inl same ↦ rw (same, kept) refl
    | inr differs ↦ rw differs (find-prune name e)
  ])
]

empty_directory : (node : Node) → is_empty_directory node ≡ true → node ≡ dir end
empty_directory (file content) h = cc
empty_directory (dir end) h = refl
empty_directory (dir (entry name node e)) h = cc

inside-pruned :
    (parts : List Codes)
    → ((node : Node) → contents parts (prune node) ≡ contents parts node)
    → (there : Option Node) → inside (contents parts) (pruned there) ≡ inside (contents parts) there
inside-pruned parts same none = refl
inside-pruned parts same (some node) = elim (Bool-cases (is_empty_directory (prune node))) [
  | inl empty ↦ rw empty (
      sym (contents-end parts)
      ∙ ap (contents parts) (sym (empty_directory (prune node) empty))
      ∙ same node)
  | inr kept ↦ rw kept (same node)
]

mutual
  unfolding prune

  prune-Unique : (node : Node) → Unique node → Unique (prune node)
  prune-Unique (file content) u = tt
  prune-Unique (dir e) u = prune_entries-UniqueNames e u

  pub prune_entries-UniqueNames : (e : Entries) → UniqueNames e → UniqueNames (prune_entries e)
  prune_entries-UniqueNames end u = tt
  prune_entries-UniqueNames (entry name node e) (fresh, one, u) =
      let rest = prune_entries-UniqueNames e u in
      elim (Bool-cases (is_empty_directory (prune node))) [
        | inl empty ↦ rw empty (without-UniqueNames name (prune_entries e) rest)
        | inr kept ↦ rw kept (find-prune name e ∙ ap pruned fresh, prune-Unique node one, rest)
      ]

-- The files stay.
pub contents-prune :
    (parts : List Codes) (tree : Node) → contents parts (prune tree) ≡ contents parts tree
unfolding contents prune
contents-prune [] (file content) = refl
contents-prune [] (dir e) = refl
contents-prune (part ∷ parts) (file content) = refl
contents-prune (part ∷ parts) (dir e) =
    ap (inside (contents parts)) (find-prune part e)
    ∙ inside-pruned parts (contents-prune parts) (find part e)

first :
    (e : Entries)
    → is_empty_directory (dir e) ≡ false
    → ((name : Codes) (node : Node) → find name e ≡ some node → HasFile node)
    → HasFile (dir e)
unfolding find contents
first end h has = cc
first (entry name node e) h has =
    let found : find name (entry name node e) ≡ some node = rw (same_self name) refl in
    let (parts, content, there) = has name node found in
    (name ∷ parts, content, contents-found name parts (entry name node e) node found ∙ there)

-- What is kept has a file.
mutual
  unfolding prune find contents

  has_node : (node : Node) → is_empty_directory (prune node) ≡ false → HasFile (prune node)
  has_node (file content) h = ([], content, refl)
  has_node (dir e) h = first (prune_entries e) h (has_entries e)

  has_entries :
      (e : Entries) (name : Codes) (node : Node)
      → find name (prune_entries e) ≡ some node
      → HasFile node
  has_entries end name node h = cc
  has_entries (entry n child e) name node h = elim (Bool-cases (is_empty_directory (prune child))) [
    | inl empty ↦ has_entries e name node (ground (arith, find-without n name (prune_entries e)))
    | inr kept ↦ elim (Bool-cases (n == name)) [
      | inl same ↦
          let eq : prune child ≡ node = ground arith in subst HasFile eq (has_node child kept)
      | inr differs ↦ has_entries e name node (ground arith)
    ]
  ]

pruned-some :
    (there : Option Node) (node : Node)
    → pruned there ≡ some node
    → (old : Node) × (node ≡ prune old)
pruned-some none node h = cc
pruned-some (some old) node h = (old, ground arith)

-- Below every directory that is left stands a file.
pub prune-Full : (tree : Node) → Full (prune tree)
unfolding prune
prune-Full (file content) part parts node h = cc
prune-Full (dir e) part [] node h = elim (Option-cases (find part (prune_entries e))) [
  | inl missing ↦ let at = sym (ap (inside (node_at [])) missing) ∙ h in cc
  | inr (child, found) ↦
      let at : some child ≡ some node = sym (ap (inside (node_at [])) found) ∙ h in
      let same : child ≡ node = cc in subst HasFile same (has_entries e part child found)
]
prune-Full (dir e) part (p ∷ ps) node h = elim (Option-cases (find part (prune_entries e))) [
  | inl missing ↦ let at = sym (ap (inside (node_at (p ∷ ps))) missing) ∙ h in cc
  | inr (child, found) ↦
      let at : node_at (p ∷ ps) child ≡ some node =
        sym (ap (inside (node_at (p ∷ ps))) found) ∙ h in
      let (old, eq) = pruned-some (find part e) child (sym (find-prune part e) ∙ found) in
      prune-Full old p ps node (sym (ap (node_at (p ∷ ps)) eq) ∙ at)
]
