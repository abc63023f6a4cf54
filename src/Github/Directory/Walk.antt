-- ===== src/Github/Directory/Walk.antt =====
-- What the walk of github_integration/workspace.py reads from a directory.
use mathlib.Core.Path.{subst}
use vh26_pixel_perfect.Prelude.{
  ◌≡◌, refl, sym, ap, ◌∙◌, Option, none, some, List, [], ◌∷◌, ◌++◌, ◌==◌, Bool-cases, Option-cases,
  inl, inr, if-true, if-false,
}
use vh26_pixel_perfect.Prelude.Dict
use vh26_pixel_perfect.Prelude.Codes.{Codes, split}
use vh26_pixel_perfect.Prelude.Codes.Laws.{same_self, text_eq, same_text_iff}
use vh26_pixel_perfect.Github.Paths.{slash, validate_path}
use vh26_pixel_perfect.Github.Workspace.{Files, WorkspaceLimits}
use vh26_pixel_perfect.Github.Directory.{Node, file, dir, Entries, end, entry, contents, find}
use vh26_pixel_perfect.Github.Directory.Tree.{Unique, UniqueNames, contents-missing, contents-end}
use vh26_pixel_perfect.Github.Directory.Parts.{join, join-split, split_inj}
use vh26_pixel_perfect.Github.Directory.Views.{View, stored, Holds}
use vh26_pixel_perfect.Github.Directory.Loops.{over}
use vh26_pixel_perfect.Github.Workspace.Limits.{IsBounded}
use vh26_pixel_perfect.Github.Workspace.Keys.{NodupKeys, put-NodupKeys, stored-All}
use vh26_pixel_perfect.Github.Workspace.Accepted.{validate_file_set_accepted}
use vh26_pixel_perfect.Prelude.Result.{ok, >>=-eq-ok, ok_inj}
use vh26_pixel_perfect.Github.Directory.Reading.{collect, collect_entries, read_workspace_files}
use vh26_pixel_perfect.Github.Directory.Seen.{
  cut, at_rest, seen, AreNamed, append_nil, append_one, cut-append, contents-entry, seen-entry,
  seen-file,
}

first-AreNamed :
    (limits : WorkspaceLimits) (parts : List Codes) (name : Codes) (node : Node) (e : Entries)
    → AreNamed limits parts (dir (entry name node e))
    → AreNamed limits (parts ++ name ∷ []) node
first-AreNamed limits parts name node e named rest content h =
    subst
      (λ ps.
        (split slash (join ps) ≡ ps)
        × (validate_path limits.max_path_length (join ps) ≡ ok (join ps)))
      (sym (append_one parts name rest))
      (named (name ∷ rest) content (
        contents-entry name node e name rest
        ∙ if-true (name == name) (contents rest node) (contents (name ∷ rest) (dir e))
            (same_self name)
        ∙ h))

others-AreNamed :
    (limits : WorkspaceLimits) (parts : List Codes) (name : Codes) (node : Node) (e : Entries)
    → find name e ≡ none
    → AreNamed limits parts (dir (entry name node e))
    → AreNamed limits parts (dir e)
unfolding contents
others-AreNamed limits parts name node e fresh named [] content h = cc
others-AreNamed limits parts name node e fresh named (q ∷ rest) content h =
    elim (Bool-cases (name == q)) [
      | inl same ↦
          let missing =
            contents-missing q rest e
              (ap (λ n. find n e) (sym ((same_text_iff name q).0 same)) ∙ fresh) in
          let clash = sym missing ∙ h in cc
      | inr differs ↦ named (q ∷ rest) content (
          contents-entry name node e q rest
          ∙ if-false (name == q) (contents rest node) (contents (q ∷ rest) (dir e)) differs
          ∙ h)
    ]

nothing :
    (walked : Option (List Codes)) (old : Option Codes) → over (at_rest (dir end) walked) old ≡ old
nothing none old = refl
nothing (some rest) old = ap (λ v. over v old) (contents-end rest)

over-none : (content : Option Codes) → over content none ≡ content
over-none none = refl
over-none (some content) = refl

module _ (limits : WorkspaceLimits) where
  mutual
    unfolding collect contents

    -- The walk reads exactly what is there, onto what was read before.
    collect-seen :
        (parts : List Codes) (node : Node) (files : Files)
        → Unique node
        → AreNamed limits parts node
        → (result : Files) × (collect limits parts node files ≡ ok result)
          × ((path : Codes)
              → Dict.get path result ≡ over (seen parts node path) (Dict.get path files))
    collect-seen parts (file content) files u named =
        let (own, valid) =
          subst
            (λ ps.
              (split slash (join ps) ≡ ps)
              × (validate_path limits.max_path_length (join ps) ≡ ok (join ps)))
            (append_nil parts) (named [] content refl) in
        (
          Dict.put (join parts) content files,
          rw valid refl,
          λ path.
              Dict.get-put (join parts) path content files
              ∙ seen-file parts content path (Dict.get path files) own,
        )
    collect-seen parts (dir e) files u named = collect_entries-seen parts e files u named

    collect_entries-seen :
        (parts : List Codes) (e : Entries) (files : Files)
        → UniqueNames e
        → AreNamed limits parts (dir e)
        → (result : Files) × (collect_entries limits parts e files ≡ ok result)
          × ((path : Codes)
              → Dict.get path result ≡ over (seen parts (dir e) path) (Dict.get path files))
    collect_entries-seen parts end files u named =
        (files, refl, λ path. sym (nothing (cut parts (split slash path)) (Dict.get path files)))
    collect_entries-seen parts (entry name node e) files (fresh, one, u) named =
        let (more, first, at_first) =
          collect-seen (parts ++ name ∷ []) node files one
            (first-AreNamed limits parts name node e named) in
        let (result, others, at_others) =
          collect_entries-seen parts e more u
            (others-AreNamed limits parts name node e fresh named) in
        (
          result,
          rw first others,
          λ path.
              at_others path
              ∙ ap (over (seen parts (dir e) path)) (
                  at_first path
                  ∙ ap (λ walked. over (at_rest node walked) (Dict.get path files))
                      (cut-append parts name (split slash path)))
              ∙ seen-entry name node e (cut parts (split slash path)) (Dict.get path files) fresh,
        )

  -- The walk from the root of a directory that holds some files, at valid paths, reads those files.
  pub collect-Holds :
      (e : Entries) (view : View)
      → Holds e view
      → ((path content : Codes)
          → view path ≡ some content
          → validate_path limits.max_path_length path ≡ ok path)
      → (files : Files) × (collect limits [] (dir e) [] ≡ ok files)
        × ((path : Codes) → Dict.get path files ≡ view path)
  unfolding Dict.get
  collect-Holds e view holds valid =
      let (files, read, at) = collect-seen [] (dir e) [] holds.unique (λ rest content h.
        let (path, eq, there) = holds.only rest content h in
        let same : path ≡ join rest = sym (join-split path) ∙ ap join eq in
        (
          ap (split slash) (sym same) ∙ eq,
          subst (λ p. validate_path limits.max_path_length p ≡ ok p) same
              (valid path content there),
        )) in
      (
        files,
        read,
        λ path. at path ∙ over-none (contents (split slash path) (dir e)) ∙ holds_at path,
      )
    where
      holds_at : (path : Codes) → contents (split slash path) (dir e) ≡ view path
      holds_at path = elim (Option-cases (view path)) [
        | inr (content, there) ↦ holds.found path content there ∙ sym there
        | inl absent ↦ elim (Option-cases (contents (split slash path) (dir e))) [
          | inl missing ↦ missing ∙ sym absent
          | inr (content, there) ↦
              let (other, eq, at) = holds.only (split slash path) content there in
              let clash = sym absent ∙ ap view (sym (split_inj other path eq)) ∙ at in cc
        ]
      ]

module _ (limits : WorkspaceLimits) where
  mutual
    unfolding collect

    -- A walk stores each path once.
    collect-NodupKeys :
        (parts : List Codes) (node : Node) (files result : Files)
        → collect limits parts node files ≡ ok result
        → NodupKeys files
        → NodupKeys result
    collect-NodupKeys parts (file content) files result h u =
        let (path, valid, h1) = >>=-eq-ok (validate_path limits.max_path_length (join parts)) _ h in
        subst NodupKeys (ok_inj h1) (put-NodupKeys path content files u)
    collect-NodupKeys parts (dir e) files result h u =
        collect_entries-NodupKeys parts e files result h u

    collect_entries-NodupKeys :
        (parts : List Codes) (e : Entries) (files result : Files)
        → collect_entries limits parts e files ≡ ok result
        → NodupKeys files
        → NodupKeys result
    collect_entries-NodupKeys parts end files result h u = subst NodupKeys (ok_inj h) u
    collect_entries-NodupKeys parts (entry name node e) files result h u =
        let (more, first, h1) = >>=-eq-ok (collect limits (parts ++ name ∷ []) node files) _ h in
        collect_entries-NodupKeys parts e more result h1
          (collect-NodupKeys (parts ++ name ∷ []) node files more first u)

  -- A directory that holds files within the limits is read, as these files.
  pub read_workspace_files-Holds :
      (e : Entries) (files : Files)
      → IsBounded limits files
      → Holds e (stored files)
      → (read : Files) × (read_workspace_files limits (dir e) ≡ ok read)
        × ((path : Codes) → Dict.get path read ≡ Dict.get path files)
  unfolding read_workspace_files
  read_workspace_files-Holds e files bounded holds =
      let (read, walked, at) =
        collect-Holds limits e (stored files) holds
          (λ path content there. (stored-All _ files path content bounded.each there).0) in
      let accepted =
        validate_file_set_accepted limits read files
          (collect-NodupKeys [] (dir e) [] read walked tt)
          (λ path content there. sym (at path) ∙ there) bounded in
      (read, rw (walked, accepted) refl, at)
