-- ===== src/Github/Directory/Phases.antt =====
-- The files of a workspace between the phases of a write in github_integration/workspace.py.
use vh26_pixel_perfect.Prelude.{
  ◌≡◌, refl, sym, ap, ◌∙◌, ◌≢◌, Bool, true, false, ◌&&◌, not, Option, none, some, ◌∷◌, ◌++◌,
  Option-cases, inl, inr, if◌then◌else◌, arith,
}
use vh26_pixel_perfect.Prelude.Dict
use vh26_pixel_perfect.Prelude.Codes.{Codes}
use vh26_pixel_perfect.Prelude.Codes.Laws.{text_eq}
use vh26_pixel_perfect.Github.Paths.{slash}
use vh26_pixel_perfect.Github.Workspace.{Files, is_some}
use vh26_pixel_perfect.Github.Directory.Listing.{mem}
use vh26_pixel_perfect.Github.Directory.Result.{
  names, text_ltb, sort_paths, is_deeper, is_later, is_blocker, shape_blockers,
  other_obsolete_files,
}
use vh26_pixel_perfect.Github.Directory.Views.{View, stored, IsClear}
use vh26_pixel_perfect.Github.Directory.Loops.{dropped, over, updated}
use vh26_pixel_perfect.Github.Directory.Shapes.{
  is_obsolete, mem-shape_blockers, mem-other_obsolete_files, sort_paths-names, no_blocker, outcome,
}

module _ (current result : Files) where
  -- After the first deletions.
  unfoldable pub cleared : View
  cleared = dropped (sort_paths is_deeper (shape_blockers current result)) (stored current)

  cleared-eq :
      (path : Codes)
      → cleared path ≡ (
          if is_obsolete (Dict.get path current) (Dict.get path result) && is_blocker result path
          then none
          else Dict.get path current)
  unfolding cleared
  cleared-eq path =
      ap (λ b. if b then none else Dict.get path current)
        (mem-shape_blockers is_deeper current result path)

  -- After the writes.
  unfoldable pub written : View
  written = updated result (sort_paths text_ltb (names result)) cleared

  pub written-eq :
      (path : Codes)
      → written path
        ≡ (if is_some (Dict.get path result) then Dict.get path result else cleared path)
  unfolding written
  written-eq path =
      ap (λ b. if b then over (Dict.get path result) (cleared path) else cleared path)
        (sort_paths-names text_ltb current result path)
      ∙ chosen (Dict.get path result) (cleared path)
    where
      chosen :
          (new old : Option Codes)
          → (if is_some new then over new old else old) ≡ (if is_some new then new else old)
      chosen none old = refl
      chosen (some content) old = refl

  pub final-eq :
      (path : Codes)
      → dropped (sort_paths is_later (other_obsolete_files current result)) written path
        ≡ stored result path
  final-eq path =
      ap (λ b. if b then none else written path)
        (mem-other_obsolete_files is_later current result path)
      ∙ ap
          (λ v.
            if is_obsolete (Dict.get path current) (Dict.get path result)
              && not (is_blocker result path)
            then none
            else v)
          (written-eq path
            ∙ ap (λ v. if is_some (Dict.get path result) then Dict.get path result else v)
                (cleared-eq path))
      ∙ outcome (Dict.get path current) (Dict.get path result) (is_blocker result path)

  pub cleared-some :
      (path content : Codes)
      → cleared path ≡ some content
      → (Dict.get path current ≡ some content)
        × ((is_obsolete (Dict.get path current) (Dict.get path result) && is_blocker result path)
            ≡ false)
  cleared-some path content h =
      left (is_obsolete (Dict.get path current) (Dict.get path result) && is_blocker result path)
        (Dict.get path current) (sym (cleared-eq path) ∙ h)
    where
      left :
          (b : Bool) (old : Option Codes)
          → (if b then none else old) ≡ some content
          → (old ≡ some content) × (b ≡ false)
      left true old h = cc
      left false old h = (h, refl)

  pub cleared-kept :
      (path content : Codes)
      → Dict.get path result ≡ some content
      → cleared path ≡ Dict.get path current
  cleared-kept path content at =
      cleared-eq path
      ∙ ap
          (λ n.
            if is_obsolete (Dict.get path current) n && is_blocker result path
            then none
            else Dict.get path current)
          at
      ∙ not_obsolete (Dict.get path current)
    where
      not_obsolete :
          (old : Option Codes)
          → (if is_obsolete old (some content) && is_blocker result path then none else old) ≡ old
      not_obsolete none = refl
      not_obsolete (some c) = refl

  -- A path of a list that is cut from the obsolete files.
  pub obsolete_there :
      (old new : Option Codes) (b : Bool)
      → (is_obsolete old new && b) ≡ true
      → ((content : Codes) × (old ≡ some content)) × (new ≡ none) × (b ≡ true)
  obsolete_there none new b h = cc
  obsolete_there (some content) (some c) b h = cc
  obsolete_there (some content) none b h = ((content, refl), refl, h)

  pub written-there :
      (path : Codes)
      → mem path (sort_paths is_later (other_obsolete_files current result)) ≡ true
      → (content : Codes) × (written path ≡ some content)
  written-there path among =
      let ((content, old), absent, no_block) =
        obsolete_there (Dict.get path current) (Dict.get path result) (not (is_blocker result path))
          (sym (mem-other_obsolete_files is_later current result path) ∙ among) in
      let stays : is_blocker result path ≡ false = ground arith in
      (
        content,
        written-eq path
            ∙ ap (λ n. if is_some n then n else cleared path) absent
            ∙ cleared-eq path
            ∙ ap
                (λ b.
                  if is_obsolete (Dict.get path current) (Dict.get path result) && b
                  then none
                  else Dict.get path current)
                stays
            ∙ never (is_obsolete (Dict.get path current) (Dict.get path result))
                (Dict.get path current)
            ∙ old,
      )
    where
      never : (b : Bool) (old : Option Codes) → (if b && false then none else old) ≡ old
      never true old = refl
      never false old = refl

  module _
      (apart : (path rest content : Codes)
        → Dict.get path result ≡ some content
        → Dict.get (path ++ slash ∷ rest) result ≡ none) where
    apart_both :
        (path other content d rest : Codes)
        → Dict.get path result ≡ some content
        → Dict.get other result ≡ some d
        → (path ≢ other ++ slash ∷ rest) × (other ≢ path ++ slash ∷ rest)
    apart_both path other content d rest at other_at = (
      λ eq. let clash = sym at ∙ ap (stored result) eq ∙ apart other rest d other_at in cc,
      λ eq. let clash = sym other_at ∙ ap (stored result) eq ∙ apart path rest content at in cc,
    )

    pub cleared-IsClear :
        (path content : Codes) → Dict.get path result ≡ some content → IsClear cleared path
    cleared-IsClear path content at other d rest h =
        let (old, kept_here) = cleared-some other d h in
        elim (Option-cases (Dict.get other result)) [
          | inr (e, other_at) ↦ apart_both path other content e rest at other_at
          | inl absent ↦
              let no_block : is_blocker result other ≡ false =
                sym (
                  ap (λ o. is_obsolete o (Dict.get other result) && is_blocker result other) old
                  ∙ ap (λ n. is_obsolete (some d) n && is_blocker result other) absent)
                ∙ kept_here in
              no_blocker result path other content rest no_block at
        ]
