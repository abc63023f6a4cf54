-- ===== src/Github/Directory/Reading.antt =====
-- github_integration/workspace.py: the walk that reads the files of a workspace. A file is kept as its
-- text, so what it contains decodes.
use vh26_pixel_perfect.Prelude.{List, [], ◌∷◌, ◌++◌}
use vh26_pixel_perfect.Prelude.Dict
use vh26_pixel_perfect.Prelude.Codes.{Codes}
use vh26_pixel_perfect.Prelude.Codes.Laws.{text_eq}
use vh26_pixel_perfect.Prelude.Result.{ok, ◌>>=◌, ◌>>◌}
use vh26_pixel_perfect.Github.Paths.{validate_path}
use vh26_pixel_perfect.Github.Workspace.{Files, Checked, WorkspaceLimits, validate_file_set}
use vh26_pixel_perfect.Github.Directory.{Node, file, dir, Entries, end, entry}
use vh26_pixel_perfect.Github.Directory.Parts.{join}

module _ (limits : WorkspaceLimits) where
  -- The walk below the parts, onto the files that were read.
  unfoldable mutual
    pub collect : List Codes → Node → Files → Checked Files
    collect parts (file content) files = do
      path ← validate_path limits.max_path_length (join parts)
      ok (Dict.put path content files)
    collect parts (dir entries) files = collect_entries parts entries files

    pub collect_entries : List Codes → Entries → Files → Checked Files
    collect_entries parts end files = ok files
    collect_entries parts (entry name node rest) files = do
      more ← collect (parts ++ name ∷ []) node files
      collect_entries parts rest more

  unfoldable pub read_workspace_files : Node → Checked Files
  unfolding collect
  read_workspace_files tree = do
    files ← collect [] tree []
    validate_file_set limits files
    ok files
