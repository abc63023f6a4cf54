-- ===== src/Github/Directory/Outcome.antt =====
-- What github_integration/workspace.py leaves in the directory of a workspace.
use mathlib.Core.Path.{subst}
use vh26_pixel_perfect.Prelude.{
  ◌≤◌, ◌≡◌, refl, sym, ap, ◌∙◌, true, List, [], ◌∷◌, All, Option-cases, inl, inr, if◌then◌else◌,
}
use vh26_pixel_perfect.Prelude.Dict
use vh26_pixel_perfect.Prelude.Codes.{Codes, can_encode, utf8_length}
use vh26_pixel_perfect.Prelude.Codes.Laws.{text_eq}
use vh26_pixel_perfect.Prelude.Result.{ok}
use vh26_pixel_perfect.Github.Paths.{validate_path}
use vh26_pixel_perfect.Github.Workspace.{Files, WorkspaceLimits, is_some}
use vh26_pixel_perfect.Github.Workspace.Limits.{IsBounded}
use vh26_pixel_perfect.Github.Workspace.Keys.{stored-All}
use vh26_pixel_perfect.Github.Directory.{Entries, Node, dir, prune, prune_entries}
use vh26_pixel_perfect.Github.Directory.Tree.{Full}
use vh26_pixel_perfect.Github.Directory.Prune.{prune-Full}
use vh26_pixel_perfect.Github.Directory.Listing.{Distinct-sort_paths}
use vh26_pixel_perfect.Github.Directory.Result.{
  names, text_ltb, sort_paths, is_deeper, is_later, is_blocker, shape_blockers,
  other_obsolete_files, no_paths, delete_all, write_result_files,
}
use vh26_pixel_perfect.Github.Directory.Views.{View, stored, Holds, Holds-same, Holds-prune}
use vh26_pixel_perfect.Github.Directory.Loops.{dropped, AreValid, delete_all-Holds, Ready}
use vh26_pixel_perfect.Github.Directory.Changes.{write_changed-Ready}
use vh26_pixel_perfect.Github.Directory.Shapes.{
  mem-shape_blockers, Distinct-shape_blockers, Distinct-other_obsolete_files,
}
use vh26_pixel_perfect.Github.Directory.Phases.{
  cleared, written, written-eq, final-eq, cleared-some, cleared-IsClear, cleared-kept,
  obsolete_there, written-there,
}

module _ (limits : WorkspaceLimits) where
  pub All-valid :
      (files : Files)
      → All
          (λ (path, content).
            (validate_path limits.max_path_length path ≡ ok path)
            × (can_encode content ≡ true)
            × (utf8_length content ≤ limits.max_file_bytes))
          files
      → AreValid limits (stored files)
  All-valid files each path content h =
      let (valid, encoded, small) = stored-All _ files path content each h in (valid, encoded)

  -- The directories after the first deletions.
  abbrev reshaped : List Codes → Entries → Node
  reshaped blockers e = if no_paths blockers then dir e else prune (dir e)

  reshape :
      (blockers : List Codes) (e e1 : Entries) (view : View)
      → delete_all limits (sort_paths is_deeper blockers) (dir e) ≡ ok (dir e1)
      → Full (dir e)
      → Holds e1 view
      → (e2 : Entries) × (reshaped blockers e1 ≡ dir e2) × Full (dir e2) × Holds e2 view
  unfolding delete_all sort_paths prune
  reshape [] e e1 view deleted full holds =
      let same : dir e ≡ dir e1 = cc in (e1, refl, subst Full same full, holds)
  reshape (path ∷ paths) e e1 view deleted full holds =
      (prune_entries e1, refl, prune-Full (dir e1), Holds-prune e1 view holds)

  module _ (current result : Files) (kept : IsBounded limits current)
      (wanted : IsBounded limits result) where
    written-AreValid : AreValid limits (written current result)
    written-AreValid path content h = elim (Option-cases (Dict.get path result)) [
      | inr (c, at) ↦ All-valid result wanted.each path content (
          at
          ∙ sym (ap (λ n. if is_some n then n else cleared current result path) at)
          ∙ sym (written-eq current result path)
          ∙ h)
      | inl absent ↦
          All-valid current kept.each path content
            (cleared-some current result path content (
              sym (ap (λ n. if is_some n then n else cleared current result path) absent)
              ∙ sym (written-eq current result path)
              ∙ h)).0
    ]

    cleared-Ready :
        (e : Entries)
        → Full (dir e)
        → Holds e (cleared current result)
        → Ready limits current result e (cleared current result)
    cleared-Ready e full holds = record {
      holds = holds;
      full = full;
      clear = cleared-IsClear current result wanted.apart;
      agrees = λ path content at. inl (cleared-kept current result path content at);
    }

    -- Writing a result never fails on a directory that holds the current files and has a file below
    -- each of its directories, if both sets of files are within the limits. Afterwards the directory
    -- holds the files of the result and no other, and again has a file below each of its directories.
    pub write_result_files-Holds :
        (e : Entries)
        → Full (dir e)
        → Holds e (stored current)
        → (after : Entries) × (write_result_files limits current result (dir e) ≡ ok (dir after))
          × Holds after (stored result)
          × Full (dir after)
    unfolding write_result_files cleared written prune
    write_result_files-Holds e full holds =
        let blockers = shape_blockers current result in
        let (e1, deleted, holds1) =
          delete_all-Holds limits (sort_paths is_deeper blockers) e (stored current)
            (All-valid current kept.each) holds
            (Distinct-sort_paths is_deeper blockers (Distinct-shape_blockers current result))
            (λ path among.
              (obsolete_there current result (Dict.get path current) (Dict.get path result)
                (is_blocker result path)
                (sym (mem-shape_blockers is_deeper current result path) ∙ among)).0) in
        let (e2, shaped, full2, holds2) =
          reshape blockers e e1 (cleared current result) deleted full holds1 in
        let (e3, changes, full3, holds3) =
          write_changed-Ready limits current result (All-valid result wanted.each) wanted.apart
            (sort_paths text_ltb (names result)) e2 (cleared current result)
            (cleared-Ready e2 full2 holds2) in
        let others = other_obsolete_files current result in
        let (e4, gone, holds4) =
          delete_all-Holds limits (sort_paths is_later others) e3 (written current result)
            written-AreValid holds3
            (Distinct-sort_paths is_later others (Distinct-other_obsolete_files current result))
            (written-there current result) in
        (
          prune_entries e4,
          rw (deleted, shaped, changes, gone) refl,
          Holds-prune e4 (stored result) (
              Holds-same e4 (dropped (sort_paths is_later others) (written current result))
                (stored result) (final-eq current result) holds4),
          prune-Full (dir e4),
        )
