-- ===== src/Github/Directory/Remove.antt =====
-- The deletion of one file in github_integration/workspace.py.
use vh26_pixel_perfect.Prelude.{
  ◌≡◌, refl, sym, ap, ◌∙◌, ◌≢◌, none, some, List, [], ◌∷◌, ◌==◌, Bool-cases, Option-cases, inl, inr,
  if-true, if-false,
}
use vh26_pixel_perfect.Prelude.Codes.{Codes}
use vh26_pixel_perfect.Prelude.Codes.Laws.{same_self, text_eq, same_text_iff}
use vh26_pixel_perfect.Prelude.Result.{ok}
use vh26_pixel_perfect.Github.Directory.{file, dir, Entries, find, place, without, contents, unlink}
use vh26_pixel_perfect.Github.Directory.Tree.{
  UniqueNames, without-UniqueNames, place-UniqueNames, find-Unique, contents-found,
  contents-missing, contents-without,
}
use vh26_pixel_perfect.Github.Directory.Writes.{place-others, contents-place_here}

pub record Unlinked (parts : List Codes) (e : Entries) : Type 0 where
  pub after : Entries
  pub unlinked : unlink parts (dir e) ≡ ok (dir after)
  pub gone : contents parts (dir after) ≡ none
  pub others :
      (other : List Codes) → other ≢ parts → contents other (dir after) ≡ contents other (dir e)
  pub unique : UniqueNames e → UniqueNames after

without-others :
    (name content : Codes) (e : Entries)
    → find name e ≡ some (file content)
    → (other : List Codes) → other ≢ name ∷ []
    → contents other (dir (without name e)) ≡ contents other (dir e)
unfolding contents
without-others name content e there [] differs = refl
without-others name content e there (q ∷ rest) differs = elim (Bool-cases (name == q)) [
  | inl equal ↦
      contents-without name q rest e
      ∙ if-true (name == q) none (contents (q ∷ rest) (dir e)) equal
      ∙ at_name rest ((same_text_iff name q).0 equal) differs
  | inr unequal ↦
      contents-without name q rest e
      ∙ if-false (name == q) none (contents (q ∷ rest) (dir e)) unequal
]
  where
    at_name :
        (rest : List Codes) → name ≡ q → q ∷ rest ≢ name ∷ [] → none ≡ contents (q ∷ rest) (dir e)
    at_name [] same differs = let eq : q ∷ [] ≡ name ∷ [] = cc in absurd (differs eq)
    at_name (r ∷ rest) same differs =
        sym (contents-found name (r ∷ rest) e (file content) there)
        ∙ ap (λ n. contents (n ∷ r ∷ rest) (dir e)) same

-- A file that is there can be deleted.
pub remove :
    (part content : Codes) (parts : List Codes) (e : Entries)
    → contents (part ∷ parts) (dir e) ≡ some content
    → Unlinked (part ∷ parts) e
unfolding unlink contents
remove part content [] e there = elim (Option-cases (find part e)) [
  | inl missing ↦ let none_there = contents-missing part [] e missing in cc
  | inr (dir child, found) ↦ let no_file = contents-found part [] e (dir child) found in cc
  | inr (file old, found) ↦ record {
    after = without part e;
    unlinked = rw found refl;
    gone =
        contents-without part part [] e
        ∙ if-true (part == part) none (contents (part ∷ []) (dir e)) (same_self part);
    others = without-others part old e found;
    unique = without-UniqueNames part e;
  }
]
remove part content (next ∷ parts) e there = elim (Option-cases (find part e)) [
  | inl missing ↦ let none_there = contents-missing part (next ∷ parts) e missing in cc
  | inr (file old, found) ↦
      let no_file = contents-found part (next ∷ parts) e (file old) found in cc
  | inr (dir child, found) ↦
      let inner =
        remove next content parts child
          (sym (contents-found part (next ∷ parts) e (dir child) found) ∙ there) in
      record {
        after = place part (dir inner.after) e;
        unlinked = rw (found, inner.unlinked) refl;
        gone = contents-place_here part (next ∷ parts) (dir inner.after) e ∙ inner.gone;
        others = place-others part (next ∷ parts) (dir inner.after) e (λ rest differs.
            inner.others rest differs ∙ sym (contents-found part rest e (dir child) found));
        unique = λ u.
            place-UniqueNames part (dir inner.after) e
              (inner.unique (find-Unique part e (dir child) found u)) u;
      }
]
