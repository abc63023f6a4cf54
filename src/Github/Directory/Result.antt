-- ===== src/Github/Directory/Result.antt =====
-- github_integration/workspace.py: the files of a result, written into the directory of a workspace.
use vh26_pixel_perfect.Prelude.{
  ℕ, Bool, true, false, ◌&&◌, ◌||◌, not, Option, none, some, List, [], ◌∷◌, ◌++◌, any, keep_if,
  count_if, ltb, nat_beq, ◌==◌, if◌then◌else◌,
}
use vh26_pixel_perfect.Prelude.Dict
use vh26_pixel_perfect.Prelude.Codes.{Codes, same_text, starts_with, split, can_encode}
use vh26_pixel_perfect.Prelude.Codes.Laws.{text_eq}
use vh26_pixel_perfect.Prelude.Result.{ok, ◌>>=◌, ◌>>◌, raise_if}
use vh26_pixel_perfect.Github.Paths.{patch_validation_error, slash, validate_path}
use vh26_pixel_perfect.Github.Workspace.{Files, Checked, WorkspaceLimits, is_file, ancestors}
use vh26_pixel_perfect.Github.Directory.{Node, materialize, replace, unlink, prune}

-- The keys of a dict, each once.
unfoldable pub names : Files → List Codes
names [] = []
names ((path, content) ∷ files) = path ∷ keep_if (λ other. not (other == path)) (names files)

unfoldable pub text_ltb : Codes → Codes → Bool
text_ltb s [] = false
text_ltb [] (d ∷ t) = true
text_ltb (c ∷ s) (d ∷ t) = ltb c d || nat_beq c d && text_ltb s t

-- sorted(paths), for paths of which no two are the same
module _ (comes_first : Codes → Codes → Bool) where
  unfoldable pub insert_path : Codes → List Codes → List Codes
  insert_path path [] = path ∷ []
  insert_path path (other ∷ rest) =
      let later = insert_path path rest in
      if comes_first other path then other ∷ later else path ∷ other ∷ rest

  unfoldable pub sort_paths : List Codes → List Codes
  unfolding insert_path
  sort_paths [] = []
  sort_paths (path ∷ rest) = insert_path path (sort_paths rest)

abbrev pub depth : Codes → ℕ
depth path = count_if (nat_beq slash) path

-- The order of (value.count("/"), value), reversed.
unfoldable pub is_deeper : Codes → Codes → Bool
unfolding text_ltb
is_deeper path other =
    ltb (depth other) (depth path) || nat_beq (depth other) (depth path) && text_ltb other path

abbrev pub is_later : Codes → Codes → Bool
is_later path other = text_ltb other path

-- The directories that the result needs.
unfoldable pub is_required : Files → Codes → Bool
unfolding ancestors
is_required result path = any (λ e. any (same_text path) (ancestors e.0)) result

unfoldable pub is_blocker : Files → Codes → Bool
unfolding is_required
is_blocker result path =
    is_required result path || any (λ e. starts_with path (e.0 ++ slash ∷ [])) result

unfoldable pub obsolete_files : Files → Files → List Codes
unfolding names is_file
obsolete_files current result = keep_if (λ path. not (is_file result path)) (names current)

unfoldable pub shape_blockers : Files → Files → List Codes
unfolding obsolete_files is_blocker
shape_blockers current result = keep_if (is_blocker result) (obsolete_files current result)

unfoldable pub other_obsolete_files : Files → Files → List Codes
unfolding obsolete_files is_blocker
other_obsolete_files current result =
    keep_if (λ path. not (is_blocker result path)) (obsolete_files current result)

abbrev pub no_paths : List Codes → Bool
no_paths [] = true
no_paths (_ ∷ _) = false

-- current_files.get(path) == content
abbrev pub contains_text : Option Codes → Codes → Bool
contains_text none content = false
contains_text (some old) content = old == content

module _ (limits : WorkspaceLimits) where
  unfoldable pub materialize_target : Codes → Node → Checked Node
  unfolding materialize
  materialize_target path tree = do
    _ ← validate_path limits.max_path_length path
    materialize (split slash path) tree

  unfoldable pub atomic_write_text : Codes → Codes → Node → Checked Node
  unfolding replace
  atomic_write_text path content tree = do
    raise_if (not (can_encode content)) patch_validation_error
    replace (split slash path) content tree

  -- `target.unlink()` for an existing target.
  unfoldable pub delete_existing : Codes → Node → Checked Node
  unfolding unlink
  delete_existing path tree = do
    _ ← validate_path limits.max_path_length path
    unlink (split slash path) tree

  unfoldable pub delete_all : List Codes → Node → Checked Node
  unfolding delete_existing
  delete_all [] tree = ok tree
  delete_all (path ∷ paths) tree = delete_existing path tree >>= delete_all paths

  -- The content of the result under one of its paths.
  unfoldable pub write_path : Files → Codes → Option Codes → Node → Checked Node
  unfolding materialize_target atomic_write_text
  write_path current path none tree = ok tree
  write_path current path (some content) tree =
      if contains_text (Dict.get path current) content
      then ok tree
      else materialize_target path tree >>= atomic_write_text path content

  unfoldable pub write_changed : Files → Files → List Codes → Node → Checked Node
  unfolding write_path
  write_changed current result [] tree = ok tree
  write_changed current result (path ∷ paths) tree =
      write_path current path (Dict.get path result) tree >>= write_changed current result paths

  unfoldable pub write_result_files : Files → Files → Node → Checked Node
  unfolding sort_paths is_deeper shape_blockers delete_all prune write_changed names
      other_obsolete_files
  write_result_files current result tree = do
    let blockers = shape_blockers current result
    cleared ← delete_all (sort_paths is_deeper blockers) tree
    let shaped = if no_paths blockers then cleared else prune cleared
    written ← write_changed current result (sort_paths text_ltb (names result)) shaped
    left ← delete_all (sort_paths is_later (other_obsolete_files current result)) written
    ok (prune left)
