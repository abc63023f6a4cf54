-- ===== src/Github/Directory.antt =====
-- github_integration/workspace.py: the directory of a patch workspace, and what writes and reads it. A
-- name stands once in a directory: the first entry of a name counts. No entry is a link, and an
-- operation that the system refuses is one that the shape of the directories forbids.
pub mod Tree
pub mod Result
pub mod Listing
pub mod Views
pub mod Loops
pub mod Changes
pub mod Shapes
pub mod Phases
pub mod Outcome
pub mod Reading
pub mod Seen
pub mod Walk
pub mod Parts
pub mod Writes
pub mod Store
pub mod Remove
pub mod Prune
use vh26_pixel_perfect.Prelude.{
  ℕ, Bool, true, false, ◌&&◌, ◌||◌, not, Option, none, some, List, [], ◌∷◌, ◌++◌, map, any, ltb,
  ◌==◌, if◌then◌else◌,
}
use vh26_pixel_perfect.Prelude.Tests.{nat_eq}
use vh26_pixel_perfect.Prelude.Codes.{Codes}
use vh26_pixel_perfect.Prelude.Codes.Laws.{text_eq}
use vh26_pixel_perfect.Prelude.Result.{ok, err, ◌>>=◌}
use vh26_pixel_perfect.Github.Paths.{patch_workspace_error}
use vh26_pixel_perfect.Github.Workspace.{Checked}

mutual
  pub data Node : Type 0 where
    file : Codes → Node
    dir : Entries → Node

  pub data Entries : Type 0 where
    end : Entries
    entry : Codes → Node → Entries → Entries

unfoldable pub find : Codes → Entries → Option Node
find name end = none
find name (entry n node rest) = if n == name then some node else find name rest

unfoldable pub without : Codes → Entries → Entries
without name end = end
without name (entry n node rest) =
    let others = without name rest in if n == name then others else entry n node others

unfoldable pub place : Codes → Node → Entries → Entries
unfolding without
place name node entries = entry name node (without name entries)

-- what a directory contains under a name, looked at
abbrev pub inside {ℓ} : {A : Type ℓ} → (Node → Option A) → Option Node → Option A
inside look none = none
inside look (some node) = look node

-- `root.joinpath(*parts).read_bytes()`, where it is a file
unfoldable pub contents : List Codes → Node → Option Codes
contents [] (file content) = some content
contents [] (dir entries) = none
contents (part ∷ parts) (file content) = none
contents (part ∷ parts) (dir entries) = inside (contents parts) (find part entries)

-- target.mkdir(), if nothing is there
abbrev pub or_new : Option Node → Node
or_new none = dir end
or_new (some node) = node

abbrev pub expected : Option Node → Checked Node
expected none = err patch_workspace_error
expected (some node) = ok node

abbrev pub not_directory : Option Node → Bool
not_directory (some (dir _)) = false
not_directory _ = true

abbrev pub is_regular : Option Node → Bool
is_regular (some (file _)) = true
is_regular _ = false

-- The loop over the parts, in the directory that the parts before lead to.
unfoldable pub materialize : List Codes → Node → Checked Node
unfolding find place
materialize _ (file content) = err patch_workspace_error
materialize [] (dir entries) = err patch_workspace_error
materialize (name ∷ []) (dir entries) =
    if not_directory (find name entries) then ok (dir entries) else err patch_workspace_error
materialize (part ∷ next ∷ parts) (dir entries) = do
  below ← materialize (next ∷ parts) (or_new (find part entries))
  ok (dir (place part below entries))

-- os.replace(temp_file, target)
unfoldable pub replace : List Codes → Codes → Node → Checked Node
unfolding find place
replace _ content (file old) = err patch_workspace_error
replace [] content (dir entries) = err patch_workspace_error
replace (name ∷ []) content (dir entries) =
    if not_directory (find name entries)
    then ok (dir (place name (file content) entries))
    else err patch_workspace_error
replace (part ∷ next ∷ parts) content (dir entries) = do
  child ← expected (find part entries)
  below ← replace (next ∷ parts) content child
  ok (dir (place part below entries))

-- target.unlink(), where the target is a file
unfoldable pub unlink : List Codes → Node → Checked Node
unfolding find without place
unlink _ (file old) = err patch_workspace_error
unlink [] (dir entries) = err patch_workspace_error
unlink (name ∷ []) (dir entries) =
    if is_regular (find name entries)
    then ok (dir (without name entries))
    else err patch_workspace_error
unlink (part ∷ next ∷ parts) (dir entries) = do
  child ← expected (find part entries)
  below ← unlink (next ∷ parts) child
  ok (dir (place part below entries))

-- `rmdir` succeeds
abbrev pub is_empty_directory : Node → Bool
is_empty_directory (dir end) = true
is_empty_directory _ = false

-- The walk from the bottom up.
unfoldable mutual
  unfolding without

  pub prune : Node → Node
  prune (file content) = file content
  prune (dir entries) = dir (prune_entries entries)

  pub prune_entries : Entries → Entries
  prune_entries end = end
  prune_entries (entry name node entries) =
      let child = prune node in
      let rest = prune_entries entries in
      if is_empty_directory child then without name rest else entry name child rest
