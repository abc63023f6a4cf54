-- ===== src/Github/Session/Outcome.antt =====
-- What github_integration/workspace.py leaves of a workspace that applies proposals.
use mathlib.Core.Path.{subst}
use vh26_pixel_perfect.Prelude.{
  inl, inr, ◌≡◌, ◌↔◌, ◌⊎◌, refl, sym, ap, ◌∙◌, false, not, List, [], ltb, arith,
}
use vh26_pixel_perfect.Prelude.Dict
use vh26_pixel_perfect.Prelude.Codes.{Codes, can_encode, utf8_length}
use vh26_pixel_perfect.Prelude.Codes.Laws.{text_eq}
use vh26_pixel_perfect.Prelude.Result.{
  Result-cases, >>=-raised, err, ok, >>=-eq-ok, passed, checked, ok_inj,
}
use vh26_pixel_perfect.Github.Paths.{PatchError, patch_validation_error, workspace_closed}
use vh26_pixel_perfect.Github.Workspace.{
  WorkspaceLimits, ProposedPatch, PlannedChange, Files, validate_file_set, plan_changes,
}
use vh26_pixel_perfect.Github.Workspace.Keys.{NodupKeys}
use vh26_pixel_perfect.Github.Session.Bases.{
  normalize_base_files-IsBounded, normalize_base_files_taken,
}
use vh26_pixel_perfect.Github.Workspace.Plan.{Plans}
use vh26_pixel_perfect.Github.Workspace.Limits.{
  IsBounded, validate_file_set-IsBounded, plan_changes-Plans,
}
use vh26_pixel_perfect.Github.Directory.{Node, Entries, dir, end}
use vh26_pixel_perfect.Github.Directory.Tree.{Full, Full-end, contents-end}
use vh26_pixel_perfect.Github.Directory.Result.{write_result_files}
use vh26_pixel_perfect.Github.Directory.Reading.{collect, read_workspace_files}
use vh26_pixel_perfect.Github.Directory.Views.{stored, Holds, Holds-same}
use vh26_pixel_perfect.Github.Directory.Outcome.{write_result_files-Holds}
use vh26_pixel_perfect.Github.Directory.Walk.{read_workspace_files-Holds}
use vh26_pixel_perfect.Github.Session.{
  LocalPatchWorkspace, normalize_from, normalize_base_files, new_workspace, build_unified_diff,
  review, prepare, apply,
}

-- An open workspace: its directory holds files within the limits and no other, and a file stands below
-- each of its directories.
pub record IsOpen (workspace : LocalPatchWorkspace) (files : Files) : Type 0 where
  pub is_open : workspace.is_closed ≡ false
  pub entries : Entries
  pub is_directory : workspace.root ≡ dir entries
  pub bounded : IsBounded workspace.limits files
  pub holds : Holds entries (stored files)
  pub full : Full (dir entries)

-- A directory that was read, with the files that it holds.
read-Holds :
    (limits : WorkspaceLimits) (e : Entries) (files current : Files)
    → IsBounded limits files
    → Holds e (stored files)
    → read_workspace_files limits (dir e) ≡ ok current
    → IsBounded limits current × ((path : Codes) → Dict.get path files ≡ Dict.get path current)
unfolding read_workspace_files
read-Holds limits e files current bounded holds h =
    let (walked, read, h1) = >>=-eq-ok (collect limits [] (dir e) []) _ h in
    let (valid, h2) = checked (validate_file_set limits walked) _ h1 in
    let (again, read2, at) = read_workspace_files-Holds limits e files bounded holds in
    let same : again ≡ current = ok_inj (sym read2 ∙ h) in
    (
      subst (IsBounded limits) (ok_inj h2) (validate_file_set-IsBounded limits walked valid),
      λ path. sym (at path) ∙ ap (Dict.get path) same,
    )

module _ (sha256 : Codes → Codes)
    (unified_diff : List Codes → List Codes → Codes → Codes → List Codes) where
  -- What stands before the writes of an application.
  prepare_lem :
      (workspace : LocalPatchWorkspace) (proposal : ProposedPatch) (files current result : Files)
      (planned : List PlannedChange)
      → IsOpen workspace files
      → prepare sha256 unified_diff workspace proposal ≡ ok (current, planned, result)
      → IsBounded workspace.limits current
        × ((path : Codes) → Dict.get path files ≡ Dict.get path current)
        × (plan_changes sha256 workspace.limits proposal current ≡ ok (planned, result))
  unfolding prepare
  prepare_lem workspace proposal files current result planned opened h =
      let limits = workspace.limits in
      let (_, h1) = passed workspace.is_closed workspace_closed _ h in
      let (read, walked, h2) = >>=-eq-ok (read_workspace_files limits workspace.root) _ h1 in
      let (plan, accepted, h3) = >>=-eq-ok (plan_changes sha256 limits proposal read) _ h2 in
      let diff = build_unified_diff unified_diff plan.0 in
      let (_, h4) = passed (not (can_encode diff)) patch_validation_error _ h3 in
      let (_, h5) =
        passed (ltb limits.max_diff_bytes (utf8_length diff)) patch_validation_error _ h4 in
      let same : (read, plan.0, plan.1) ≡ (current, planned, result) = ok_inj h5 in
      let same_read : read ≡ current = ap (λ t. t.0) same in
      let same_plan : plan ≡ (planned, result) = ap (λ t. (t.1, t.2)) same in
      let (bounded, at) =
        read-Holds limits opened.entries files read opened.bounded opened.holds
          (ap (read_workspace_files limits) (sym opened.is_directory) ∙ walked) in
      (
        subst (IsBounded limits) same_read bounded,
        λ path. at path ∙ ap (Dict.get path) same_read,
        ap (plan_changes sha256 limits proposal) (sym same_read) ∙ accepted ∙ ap ok same_plan,
      )

  -- An application that is not refused before its first write succeeds: whatever the files of an open
  -- workspace and the proposal, if the reading, the plan and the limit on the difference refuse
  -- nothing, the workspace is open again afterwards with exactly the files of the result, each change
  -- of the proposal is carried out in order, and the review lists what the plan did.
  pub apply-Carries :
      (workspace : LocalPatchWorkspace) (proposal : ProposedPatch) (files current result : Files)
      (planned : List PlannedChange)
      → IsOpen workspace files
      → prepare sha256 unified_diff workspace proposal ≡ ok (current, planned, result)
      → (after : LocalPatchWorkspace) × (apply sha256 unified_diff workspace proposal
          ≡ ok (review sha256 proposal planned (build_unified_diff unified_diff planned), after))
        × IsOpen after result
        × Plans sha256 workspace.limits proposal.changes current planned result
        × ((path : Codes) → Dict.get path current ≡ Dict.get path files)
  unfolding apply
  apply-Carries workspace proposal files current result planned opened h =
      let limits = workspace.limits in
      let (bounded, at, accepted) =
        prepare_lem workspace proposal files current result planned opened h in
      let (plans, wanted) =
        plan_changes-Plans limits sha256 proposal current result planned accepted in
      let (e2, wrote, holds, full) =
        write_result_files-Holds limits current result bounded wanted opened.entries opened.full
          (Holds-same opened.entries (stored files) (stored current) at opened.holds) in
      (
        record workspace { root = dir e2 },
        rw (h, opened.is_directory, wrote) refl,
        record {
          is_open = opened.is_open;
          entries = e2;
          is_directory = refl;
          bounded = wanted;
          holds = holds;
          full = full;
        },
        plans,
        λ path. sym (at path),
      )

  -- Nothing is written for a proposal that is refused: an open workspace refuses a proposal, and with
  -- which exception, exactly if it does before the first write.
  pub apply-prepare_iff :
      (workspace : LocalPatchWorkspace) (proposal : ProposedPatch) (files : Files) (e : PatchError)
      → IsOpen workspace files
      → (apply sha256 unified_diff workspace proposal ≡ err e)
        ↔ (prepare sha256 unified_diff workspace proposal ≡ err e)
  unfolding apply
  apply-prepare_iff workspace proposal files e opened = (
    λ refused. elim (Result-cases (prepare sha256 unified_diff workspace proposal)) [
      | inl ((current, planned, result), ready) ↦
          let (after, applied, open_again, plans, at) =
            apply-Carries workspace proposal files current result planned opened ready in
          let clash = sym refused ∙ applied in cc
      | inr (raised, early) ↦
          let clash =
            sym (>>=-raised raised (prepare sha256 unified_diff workspace proposal) _ early)
            ∙ refused in
          let same : raised ≡ e = cc in early ∙ ap err same
    ],
    λ early. rw early refl,
  )

-- What is written is what is read: written over the files of an open workspace, a result within the
-- limits is read back without a refusal, the same at every path.
pub read_workspace_files-write_result_files :
    (workspace : LocalPatchWorkspace) (files result : Files)
    → IsOpen workspace files
    → IsBounded workspace.limits result
    → (after : Node) × (read : Files) × (write_result_files workspace.limits files result
          workspace.root
        ≡ ok after)
      × (read_workspace_files workspace.limits after ≡ ok read)
      × ((path : Codes) → Dict.get path read ≡ Dict.get path result)
read_workspace_files-write_result_files workspace files result opened wanted =
    let limits = workspace.limits in
    let (after, wrote, holds, full) =
      write_result_files-Holds limits files result opened.bounded wanted opened.entries opened.full
        opened.holds in
    let (read, again, at) = read_workspace_files-Holds limits after result wanted holds in
    (
      dir after,
      read,
      ap (write_result_files limits files result) opened.is_directory ∙ wrote,
      again,
      at,
    )

nothing-IsBounded : (limits : WorkspaceLimits) → IsBounded limits []
unfolding Dict.get
nothing-IsBounded limits = record {
  count = omega arith;
  total = omega arith;
  each = tt;
  apart = λ path rest content h. refl;
}

end-Holds : Holds end (stored [])
unfolding Dict.get
end-Holds = record {
  unique = tt;
  found = λ path content h. cc;
  only = λ parts content h. let clash = sym (contents-end parts) ∙ h in cc;
}

-- Base files that are taken are written into an empty directory.
taken-IsOpen :
    (limits : WorkspaceLimits) (base files : Files)
    → IsBounded limits base
    → ((path : Codes) → Dict.get path files ≡ Dict.get path base)
    → normalize_base_files limits base ≡ ok files
    → (workspace : LocalPatchWorkspace) × (new_workspace limits base ≡ ok workspace)
      × (workspace.limits ≡ limits)
      × IsOpen workspace base
unfolding new_workspace normalize_base_files
taken-IsOpen limits base files bounded at h =
    let (normalized, taken, h1) = >>=-eq-ok (normalize_from limits base []) _ h in
    let (valid, h2) = checked (validate_file_set limits normalized) _ h1 in
    let wanted =
      subst (IsBounded limits) (ok_inj h2) (validate_file_set-IsBounded limits normalized valid) in
    let (e, wrote, holds, full) =
      write_result_files-Holds limits [] files (nothing-IsBounded limits) wanted end Full-end
        end-Holds in
    (
      record { limits = limits; is_closed = false; root = dir e },
      rw (h, wrote) refl,
      refl,
      record {
        is_open = refl;
        entries = e;
        is_directory = refl;
        bounded = bounded;
        holds = Holds-same e (stored files) (stored base) at holds;
        full = full;
      },
    )

-- A new workspace either is open with the base files that it was given, each at its path with its
-- content and nothing else, under its limits and with no path given twice; or it is refused, and then
-- a path of the base files is given twice or the base files are not within the limits.
pub new_workspace-IsOpen :
    (limits : WorkspaceLimits) (base : Files)
    → ((workspace : LocalPatchWorkspace) × (new_workspace limits base ≡ ok workspace)
        × (workspace.limits ≡ limits)
        × IsOpen workspace base
        × NodupKeys base)
      ⊎ ((e : PatchError) × (new_workspace limits base ≡ err e)
          × ¬ (NodupKeys base × IsBounded limits base))
unfolding new_workspace
new_workspace-IsOpen limits base = elim (Result-cases (normalize_base_files limits base)) [
  | inl (files, taken) ↦
      let (once, bounded, at) = normalize_base_files-IsBounded limits base files taken in
      let (workspace, made, same, opened) = taken-IsOpen limits base files bounded at taken in
      inl (workspace, made, same, opened, once)
  | inr (e, refused) ↦ inr (
    e,
    rw refused refl,
    λ (once, bounded).
        let (files, taken) = normalize_base_files_taken limits base once bounded in
        let clash = sym refused ∙ taken in cc,
  )
]
