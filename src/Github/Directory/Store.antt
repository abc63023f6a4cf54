-- ===== src/Github/Directory/Store.antt =====
-- The write of one file in github_integration/workspace.py: the directories above it, then the file.
use vh26_pixel_perfect.Prelude.{
  ◌≡◌, refl, sym, ap, ◌∙◌, some, List, [], ◌∷◌, ◌==◌, Option-cases, inl, inr, if-true,
}
use vh26_pixel_perfect.Prelude.Codes.{Codes}
use vh26_pixel_perfect.Prelude.Codes.Laws.{same_self, text_eq}
use vh26_pixel_perfect.Prelude.Result.{ok}
use vh26_pixel_perfect.Github.Directory.{
  Node, file, dir, Entries, end, find, place, contents, or_new, materialize, replace,
}
use vh26_pixel_perfect.Github.Directory.Tree.{
  Full, UniqueNames, place-UniqueNames, find-Unique, Free, Free-end, Free-found, Full-end,
  Full-found, contents-end, contents-found, contents-missing, find-place, place-place,
}
use vh26_pixel_perfect.Github.Directory.Writes.{
  Written, place-others, place-Full, contents-place_here, file-others, Full-file,
  Free-not_directory,
}

-- A write that succeeds, with the directories that it makes first.
pub record Stored (parts : List Codes) (content : Codes) (e : Entries) : Type 0 where
  pub made : Entries
  pub after : Entries
  pub materialized : materialize parts (dir e) ≡ ok (dir made)
  pub replaced : replace parts content (dir made) ≡ ok (dir after)
  pub written : Written parts content e after

find-place_here :
    (part : Codes) (node : Node) (e : Entries) → find part (place part node e) ≡ some node
find-place_here part node e =
    find-place part part node e ∙ if-true (part == part) (some node) (find part e) (same_self part)

-- The write in the directory itself.
store_last :
    (name content : Codes) (e : Entries)
    → Full (dir e)
    → Free (name ∷ []) (dir e)
    → Stored (name ∷ []) content e
unfolding materialize replace contents
store_last name content e full free =
    let open_place = Free-not_directory name e full free in
    record {
      made = e;
      after = place name (file content) e;
      materialized = rw open_place refl;
      replaced = rw open_place refl;
      written = record {
        here = contents-place_here name [] (file content) e;
        others = place-others name [] (file content) e (file-others name content e open_place);
        full = place-Full name (file content) e ([], content, refl) (Full-file content);
        unique = place-UniqueNames name (file content) e tt;
      };
    }

-- A write below a directory, from the one in it.
store_nested :
    (part next content : Codes) (parts : List Codes) (e child : Entries)
    → or_new (find part e) ≡ dir child
    → ((rest : List Codes) → contents rest (dir child) ≡ contents (part ∷ rest) (dir e))
    → Full (dir child)
    → (UniqueNames e → UniqueNames child)
    → Stored (next ∷ parts) content child
    → Stored (part ∷ next ∷ parts) content e
unfolding materialize replace
store_nested part next content parts e child opened same full names stored =
    let w = stored.written in
    record {
      made = place part (dir stored.made) e;
      after = place part (dir stored.after) e;
      materialized = rw (opened, stored.materialized) refl;
      replaced =
          rw (find-place_here part (dir stored.made) e, stored.replaced)
            (ap (λ es. ok (dir es)) (place-place part (dir stored.after) (dir stored.made) e));
      written = record {
        here = contents-place_here part (next ∷ parts) (dir stored.after) e ∙ w.here;
        others =
            place-others part (next ∷ parts) (dir stored.after) e
              (λ rest differs. w.others rest differs ∙ same rest);
        full = place-Full part (dir stored.after) e (next ∷ parts, content, w.here) (w.full full);
        unique = λ u. place-UniqueNames part (dir stored.after) e (w.unique (names u)) u;
      };
    }

-- Where no file is in the way, the write succeeds.
pub store :
    (part content : Codes) (parts : List Codes) (e : Entries)
    → Full (dir e)
    → Free (part ∷ parts) (dir e)
    → Stored (part ∷ parts) content e
unfolding contents
store part content [] e full free = store_last part content e full free
store part content (next ∷ parts) e full free = elim (Option-cases (find part e)) [
  | inl missing ↦
      store_nested part next content parts e end (rw missing refl)
        (λ rest. contents-end rest ∙ sym (contents-missing part rest e missing)) Full-end (λ u. tt)
        (store next content parts end Full-end (Free-end (next ∷ parts)))
  | inr (file old, there) ↦
      let clear = free.above (part ∷ []) next parts refl in
      let found = contents-found part [] e (file old) there in let clash : ⊥ = cc in absurd clash
  | inr (dir child, there) ↦
      let below = Full-found part e (dir child) there full in
      store_nested part next content parts e child (rw there refl)
        (λ rest. sym (contents-found part rest e (dir child) there)) below
        (find-Unique part e (dir child) there)
        (store next content parts child below
          (Free-found part (next ∷ parts) e (dir child) there free))
]
