-- ===== src/Github/Directory/Views.antt =====
-- Which files the directory of a workspace holds, by the texts of their paths.
use vh26_pixel_perfect.Prelude.{
  ◌≡◌, refl, sym, ap, ◌∙◌, ◌≢◌, ◌⊎◌, false, Option, none, some, List, [], ◌∷◌, ◌++◌, ◌==◌,
  Bool-cases, Option-cases, inl, inr, if◌then◌else◌, arith, if-true, if-false,
}
use vh26_pixel_perfect.Prelude.Dict
use vh26_pixel_perfect.Github.Workspace.{Files}
use vh26_pixel_perfect.Prelude.Codes.{Codes, split}
use vh26_pixel_perfect.Prelude.Codes.Laws.{text_eq, same_text_iff}
use vh26_pixel_perfect.Github.Paths.{slash}
use vh26_pixel_perfect.Github.Directory.{Entries, dir, contents, prune, prune_entries}
use vh26_pixel_perfect.Github.Directory.Tree.{Free, UniqueNames}
use vh26_pixel_perfect.Github.Directory.Writes.{Written}
use vh26_pixel_perfect.Github.Directory.Remove.{Unlinked}
use vh26_pixel_perfect.Github.Directory.Prune.{contents-prune, prune_entries-UniqueNames}
use vh26_pixel_perfect.Github.Directory.Parts.{split_inj, split-continues, join}

-- What a path contains.
abbrev pub View : Type 0
View = Codes → Option Codes

abbrev pub stored : Files → View
stored files path = Dict.get path files

-- The directory holds the files of the view and no other, and no name twice.
pub record Holds (e : Entries) (view : View) : Type 0 where
  pub unique : UniqueNames e
  pub found :
      (path content : Codes)
      → view path ≡ some content
      → contents (split slash path) (dir e) ≡ some content
  pub only :
      (parts : List Codes) (content : Codes)
      → contents parts (dir e) ≡ some content
      → (path : Codes) × (split slash path ≡ parts) × (view path ≡ some content)

pub Holds-same :
    (e : Entries) (view view2 : View)
    → ((path : Codes) → view path ≡ view2 path)
    → Holds e view
    → Holds e view2
Holds-same e view view2 same holds = record {
  unique = holds.unique;
  found = λ path content h. holds.found path content (same path ∙ h);
  only = λ parts content h.
      let (path, eq, there) = holds.only parts content h in (path, eq, sym (same path) ∙ there);
}

pub Holds-prune : (e : Entries) (view : View) → Holds e view → Holds (prune_entries e) view
unfolding prune
Holds-prune e view holds = record {
  unique = prune_entries-UniqueNames e holds.unique;
  found = λ path content h. contents-prune (split slash path) (dir e) ∙ holds.found path content h;
  only = λ parts content h. holds.only parts content (sym (contents-prune parts (dir e)) ∙ h);
}

parts_cases : (s t : List Codes) → (s ≡ t) ⊎ (s ≢ t)
parts_cases [] [] = inl refl
parts_cases [] (q ∷ t) = inr (λ h. cc)
parts_cases (p ∷ s) [] = inr (λ h. cc)
parts_cases (p ∷ s) (q ∷ t) = elim (Bool-cases (p == q)) [
  | inl same ↦
      let eq = (same_text_iff p q).0 same in
      elim (parts_cases s t) [ inl rest ↦ inl cc | inr rest ↦ inr (λ h. rest cc) ]
  | inr differs ↦ inr (λ h. let eq : p ≡ q = cc in ground (arith, same_text_iff p q))
]

-- One path changed, to a content or to nothing.
abbrev pub changed : Codes → Option Codes → View → View
changed path content view other = if path == other then content else view other

Holds-changed :
    (path : Codes) (content : Option Codes) (e e2 : Entries) (view : View)
    → contents (split slash path) (dir e2) ≡ content
    → ((other : List Codes)
        → other ≢ split slash path
        → contents other (dir e2) ≡ contents other (dir e))
    → (UniqueNames e → UniqueNames e2)
    → Holds e view
    → Holds e2 (changed path content view)
Holds-changed path content e e2 view here others names holds = record {
  unique = names holds.unique;
  found = λ other c h. elim (Bool-cases (path == other)) [
    | inl same ↦
        ap (λ p. contents (split slash p) (dir e2)) (sym ((same_text_iff path other).0 same))
        ∙ here
        ∙ sym (if-true (path == other) content (view other) same)
        ∙ h
    | inr differs ↦
        let unlike : split slash other ≢ split slash path =
          λ eq. let same = split_inj other path eq in ground (arith, same_text_iff path other) in
        others (split slash other) unlike
        ∙ holds.found other c (sym (if-false (path == other) content (view other) differs) ∙ h)
  ];
  only = λ parts c h. elim (parts_cases parts (split slash path)) [
    | inl same ↦
        let at : content ≡ some c = sym here ∙ ap (λ ps. contents ps (dir e2)) (sym same) ∙ h in
        (
          path,
          sym same,
          if-true (path == path) content (view path) ((same_text_iff path path).1 refl) ∙ at,
        )
    | inr differs ↦
        let (other, eq, there) = holds.only parts c (sym (others parts differs) ∙ h) in
        let unlike : (path == other) ≡ false = elim (Bool-cases (path == other)) [
          | inl same ↦
              absurd (differs (sym eq ∙ ap (split slash) (sym ((same_text_iff path other).0 same))))
          | inr differ ↦ differ
        ] in
        (other, eq, if-false (path == other) content (view other) unlike ∙ there)
  ];
}

pub Holds-unlinked :
    (path : Codes) (e : Entries) (view : View) (u : Unlinked (split slash path) e)
    → Holds e view
    → Holds u.after (changed path none view)
Holds-unlinked path e view u holds =
    Holds-changed path none e u.after view u.gone u.others u.unique holds

pub Holds-written :
    (path content : Codes) (e e2 : Entries) (view : View)
    → Written (split slash path) content e e2
    → Holds e view
    → Holds e2 (changed path (some content) view)
Holds-written path content e e2 view w holds =
    Holds-changed path (some content) e e2 view w.here w.others w.unique holds

-- No file of the view is at the place of a directory above the path, or below the path.
abbrev pub IsClear : View → Codes → Type 0
IsClear view path =
    (other content rest : Codes)
    → view other ≡ some content
    → (path ≢ other ++ slash ∷ rest) × (other ≢ path ++ slash ∷ rest)

pub Holds-Free :
    (path : Codes) (e : Entries) (view : View)
    → IsClear view path
    → Holds e view
    → Free (split slash path) (dir e)
Holds-Free path e view clear holds = record {
  above = λ upper next lower h. elim (Option-cases (contents upper (dir e))) [
    | inl absent ↦ absent
    | inr (content, there) ↦
        let (other, eq, at) = holds.only upper content there in
        absurd (
          (clear other content (join (next ∷ lower)) at).0
            (split-continues path other next lower (h ∙ ap (λ ps. ps ++ next ∷ lower) (sym eq))))
  ];
  below = λ next lower. elim (Option-cases (contents (split slash path ++ next ∷ lower) (dir e))) [
    | inl absent ↦ absent
    | inr (content, there) ↦
        let (other, eq, at) = holds.only (split slash path ++ next ∷ lower) content there in
        absurd (
          (clear other content (join (next ∷ lower)) at).1
            (split-continues other path next lower eq))
  ];
}
