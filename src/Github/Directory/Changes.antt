-- ===== src/Github/Directory/Changes.antt =====
-- The loop of github_integration/workspace.py that writes the changed files of a result.
use mathlib.Core.Path.{subst}
use vh26_pixel_perfect.Prelude.{
  ◌≡◌, refl, sym, ap, ◌∙◌, true, Option, none, some, List, [], ◌∷◌, ◌++◌, ◌==◌, Bool-cases,
  Option-cases, inl, inr, if◌then◌else◌, if-true, if-false,
}
use vh26_pixel_perfect.Prelude.Dict
use vh26_pixel_perfect.Prelude.Codes.{Codes, split, can_encode}
use vh26_pixel_perfect.Prelude.Codes.Laws.{text_eq, same_text_iff}
use vh26_pixel_perfect.Prelude.Result.{ok, ◌>>=◌}
use vh26_pixel_perfect.Github.Paths.{slash, validate_path}
use vh26_pixel_perfect.Github.Workspace.{Files, WorkspaceLimits}
use vh26_pixel_perfect.Github.Directory.{Entries, dir}
use vh26_pixel_perfect.Github.Directory.Tree.{Full, Free}
use vh26_pixel_perfect.Github.Directory.Writes.{Written}
use vh26_pixel_perfect.Github.Directory.Store.{Stored, store}
use vh26_pixel_perfect.Github.Directory.Parts.{split_nonempty}
use vh26_pixel_perfect.Github.Directory.Listing.{mem}
use vh26_pixel_perfect.Github.Directory.Result.{
  contains_text, materialize_target, atomic_write_text, write_path, write_changed,
}
use vh26_pixel_perfect.Github.Directory.Views.{
  View, Holds, Holds-same, changed, Holds-written, Holds-Free,
}
use vh26_pixel_perfect.Github.Directory.Loops.{AreValid, Ready, over, updated}

module _ (limits : WorkspaceLimits) (current result : Files)
    (valid : AreValid limits (λ path. Dict.get path result))
    (apart : (path rest content : Codes)
      → Dict.get path result ≡ some content
      → Dict.get (path ++ slash ∷ rest) result ≡ none) where
  -- A file is written where none is in its way.
  write_target :
      (path content : Codes) (e : Entries)
      → validate_path limits.max_path_length path ≡ ok path
      → can_encode content ≡ true
      → Full (dir e)
      → Free (split slash path) (dir e)
      → (after : Entries) × ((materialize_target limits path (dir e)
            >>= atomic_write_text limits path content)
          ≡ ok (dir after))
        × Written (split slash path) content e after
  unfolding materialize_target atomic_write_text
  write_target path content e good encoded full free =
      let (part, parts, eq) = split_nonempty path in
      let s =
        subst (λ ps. Stored ps content e) (sym eq)
          (store part content parts e full (subst (λ ps. Free ps (dir e)) eq free)) in
      (s.after, rw (good, s.materialized, encoded) s.replaced, s.written)

  same_result :
      (path other content : Codes)
      → (path == other) ≡ true
      → Dict.get path result ≡ some content
      → Dict.get other result ≡ some content
  same_result path other content same there =
      ap (λ p. Dict.get p result) (sym ((same_text_iff path other).0 same)) ∙ there

  changed-Ready :
      (path content : Codes) (e after : Entries) (view : View)
      → Dict.get path result ≡ some content
      → Written (split slash path) content e after
      → Ready limits current result e view
      → Ready limits current result after (changed path (some content) view)
  changed-Ready path content e after view there written ready = record {
    holds = Holds-written path content e after view written ready.holds;
    full = written.full ready.full;
    clear = λ p c at other d rest h. elim (Bool-cases (path == other)) [
      | inl same ↦
          let other_at = same_result path other content same there in
          (
            λ eq.
                let none_at = apart other rest content other_at in
                let clash = sym at ∙ ap (λ q. Dict.get q result) eq ∙ none_at in cc,
            λ eq.
                let none_at = apart p rest c at in
                let clash = sym other_at ∙ ap (λ q. Dict.get q result) eq ∙ none_at in cc,
          )
      | inr differs ↦
          ready.clear p c at other d rest
            (sym (if-false (path == other) (some content) (view other) differs) ∙ h)
    ];
    agrees = λ p c at. elim (Bool-cases (path == p)) [
      | inl same ↦ inr (
          if-true (path == p) (some content) (view p) same
          ∙ sym (same_result path p content same there)
          ∙ at)
      | inr differs ↦
          let kept = if-false (path == p) (some content) (view p) differs in
          elim (ready.agrees p c at) [ inl old ↦ inl (kept ∙ old) | inr new ↦ inr (kept ∙ new) ]
    ];
  }

  contains_text-some :
      (there : Option Codes) (content : Codes)
      → contains_text there content ≡ true
      → there ≡ some content
  contains_text-some none content h = cc
  contains_text-some (some old) content h = ap some ((same_text_iff old content).0 h)

  -- One path of the result is over what was there.
  abbrev pub Steps : Codes → View → View → Type 0
  Steps path view view2 =
      (other : Codes)
      → view2 other
        ≡ (if path == other then over (Dict.get other result) (view other) else view other)

  write_step :
      (path : Codes) (e : Entries) (view : View)
      → Ready limits current result e view
      → (after : Entries) × (view2 : View) × (write_path limits current path
            (Dict.get path result)
            (dir e)
          ≡ ok (dir after))
        × Steps path view view2
        × Ready limits current result after view2
  unfolding write_path
  write_step path e view ready = elim (Option-cases (Dict.get path result)) [
    | inl absent ↦ (
      e,
      view,
      rw absent refl,
      λ other. elim (Bool-cases (path == other)) [
        | inl same ↦
            let gone : Dict.get other result ≡ none =
              ap (λ p. Dict.get p result) (sym ((same_text_iff path other).0 same)) ∙ absent in
            rw (same, gone) refl
        | inr differs ↦ rw differs refl
      ],
      ready,
    )
    | inr (content, there) ↦ elim (Bool-cases (contains_text (Dict.get path current) content)) [
      | inl same_content ↦
          let old = contains_text-some (Dict.get path current) content same_content in
          let here : view path ≡ some content = elim (ready.agrees path content there) [
            | inl kept ↦ kept ∙ old
            | inr new ↦ new
          ] in
          (
            e,
            view,
            rw (there, same_content) refl,
            λ other. elim (Bool-cases (path == other)) [
              | inl same ↦
                  rw (same, same_result path other content same there)
                    (ap view (sym ((same_text_iff path other).0 same)) ∙ here)
              | inr differs ↦ rw differs refl
            ],
            ready,
          )
      | inr other_content ↦
          let (good, encoded) = valid path content there in
          let free = Holds-Free path e view (ready.clear path content there) ready.holds in
          let (after, done, written) = write_target path content e good encoded ready.full free in
          (
            after,
            changed path (some content) view,
            rw (there, other_content) done,
            λ other. elim (Bool-cases (path == other)) [
              | inl same ↦ rw (same, same_result path other content same there) refl
              | inr differs ↦ rw differs refl
            ],
            changed-Ready path content e after view there written ready,
          )
    ]
  ]

  over_twice : (new old : Option Codes) → over new (over new old) ≡ over new old
  over_twice none old = refl
  over_twice (some content) old = refl

  updated-Steps :
      (path : Codes) (paths : List Codes) (view view2 : View)
      → Steps path view view2
      → (other : Codes)
      → updated result paths view2 other ≡ updated result (path ∷ paths) view other
  updated-Steps path paths view view2 steps other = elim (Bool-cases (path == other)) [
    | inl same ↦
        let now : view2 other ≡ over (Dict.get other result) (view other) =
          steps other ∙ rw same refl in
        elim (Bool-cases (mem other paths)) [
          | inl later ↦ rw (later, same, now) (over_twice (Dict.get other result) (view other))
          | inr never ↦ rw (never, same) now
        ]
    | inr differs ↦
        let now : view2 other ≡ view other = steps other ∙ rw differs refl in rw (differs, now) refl
  ]

  -- The loop succeeds, and the paths that it takes contain what the result says.
  pub write_changed-Ready :
      (paths : List Codes) (e : Entries) (view : View)
      → Ready limits current result e view
      → (after : Entries) × (write_changed limits current result paths (dir e) ≡ ok (dir after))
        × Full (dir after)
        × Holds after (updated result paths view)
  unfolding write_changed
  write_changed-Ready [] e view ready = (e, refl, ready.full, ready.holds)
  write_changed-Ready (path ∷ paths) e view ready =
      let (e1, view2, written, steps, ready2) = write_step path e view ready in
      let (after, rest, full, holds) = write_changed-Ready paths e1 view2 ready2 in
      (
        after,
        rw written rest,
        full,
        Holds-same after (updated result paths view2) (updated result (path ∷ paths) view)
            (updated-Steps path paths view view2 steps) holds,
      )
