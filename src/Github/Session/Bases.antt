-- ===== src/Github/Session/Bases.antt =====
-- Which base files github_integration/workspace.py takes, and as what.
use mathlib.Core.Path.{subst}
use vh26_pixel_perfect.Prelude.{
  ◌≤◌, ◌≡◌, refl, sym, ap, ◌∙◌, true, false, not, Option, none, some, [], ◌∷◌, All, ◌==◌,
  Bool-cases, Option-cases, inl, inr, if◌then◌else◌, if-true, if-false,
}
use vh26_pixel_perfect.Prelude.Dict
use vh26_pixel_perfect.Prelude.Dict.{get-put}
use vh26_pixel_perfect.Prelude.Codes.{Codes, can_encode, utf8_length}
use vh26_pixel_perfect.Prelude.Codes.Laws.{text_eq, same_text_iff, same_self}
use vh26_pixel_perfect.Prelude.Result.{ok, >>=-eq-ok, passed, checked, ok_inj}
use vh26_pixel_perfect.Github.Paths.{patch_validation_error, validate_path}
use vh26_pixel_perfect.Github.Workspace.{WorkspaceLimits, Files, is_file, validate_file_set}
use vh26_pixel_perfect.Github.Workspace.Limits.{IsBounded, valid_same, validate_file_set-IsBounded}
use vh26_pixel_perfect.Github.Workspace.Keys.{NodupKeys, put-NodupKeys}
use vh26_pixel_perfect.Github.Workspace.Accepted.{validate_file_set_accepted, part-IsBounded}
use vh26_pixel_perfect.Github.Session.{normalize_from, normalize_base_files}

abbrev either : Option Codes → Option Codes → Option Codes
either none later = later
either (some content) later = some content

is_file-none :
    (files : Files) (path : Codes) → is_file files path ≡ false → Dict.get path files ≡ none
unfolding is_file
is_file-none files path h = elim (Option-cases (Dict.get path files)) [
  | inl absent ↦ absent
  | inr (content, there) ↦
      let stored : is_file files path ≡ true = rw (there, is_file) refl in
      let clash = sym h ∙ stored in cc
]

none-is_file :
    (files : Files) (path : Codes) → Dict.get path files ≡ none → is_file files path ≡ false
unfolding is_file
none-is_file files path h = rw (h, is_file) refl

-- What a loop that took its files has taken.
record Takes (base taken files : Files) : Type 0 where
  pub stored :
      (path : Codes) → Dict.get path files ≡ either (Dict.get path taken) (Dict.get path base)
  pub once : NodupKeys base
  pub new : (path content : Codes) → Dict.get path taken ≡ some content → Dict.get path base ≡ none
  pub kept : NodupKeys taken → NodupKeys files

Takes-cons :
    (path content : Codes) (base taken files : Files)
    → Dict.get path taken ≡ none
    → Takes base (Dict.put path content taken) files
    → Takes ((path, content) ∷ base) taken files
unfolding Dict.get
Takes-cons path content base taken files absent t =
    let put : (other : Codes)
        → Dict.get other (Dict.put path content taken)
          ≡ (if path == other then some content else Dict.get other taken) =
      λ other. get-put path other content taken in
    let here : Dict.get path (Dict.put path content taken) ≡ some content =
      put path ∙ if-true (path == path) (some content) (Dict.get path taken) (same_self path) in
    record {
      stored = λ other. elim (Bool-cases (path == other)) [
        | inl same ↦
            let eq = (same_text_iff path other).0 same in
            let gone : Dict.get other taken ≡ none = ap (λ p. Dict.get p taken) (sym eq) ∙ absent in
            t.stored other
            ∙ ap (λ o. either o (Dict.get other base))
                (put other ∙ if-true (path == other) (some content) (Dict.get other taken) same)
            ∙ sym (
                ap (λ o. either o (if path == other then some content else Dict.get other base))
                  gone
                ∙ if-true (path == other) (some content) (Dict.get other base) same)
        | inr differs ↦
            t.stored other
            ∙ ap (λ o. either o (Dict.get other base))
                (put other ∙ if-false (path == other) (some content) (Dict.get other taken) differs)
            ∙ ap (either (Dict.get other taken))
                (sym (if-false (path == other) (some content) (Dict.get other base) differs))
      ];
      once = (t.new path content here, t.once);
      new = λ other c there. elim (Bool-cases (path == other)) [
        | inl same ↦
            let eq = (same_text_iff path other).0 same in
            let clash = sym absent ∙ ap (λ p. Dict.get p taken) eq ∙ there in cc
        | inr differs ↦
            if-false (path == other) (some content) (Dict.get other base) differs
            ∙ t.new other c (
                put other
                ∙ if-false (path == other) (some content) (Dict.get other taken) differs
                ∙ there)
      ];
      kept = λ u. t.kept (put-NodupKeys path content taken u);
    }

module _ (limits : WorkspaceLimits) where
  normalize_from-Takes :
      (base taken files : Files)
      → normalize_from limits base taken ≡ ok files
      → Takes base taken files
  unfolding normalize_from Dict.get
  normalize_from-Takes [] taken files h =
      let same = ok_inj h in
      subst (Takes [] taken) same (record {
        stored = λ path. last (Dict.get path taken);
        once = tt;
        new = λ path content there. refl;
        kept = λ u. u;
      })
    where
      last : (o : Option Codes) → o ≡ either o none
      last none = refl
      last (some content) = refl
  normalize_from-Takes ((raw, content) ∷ base) taken files h =
      let (path, valid, h1) = >>=-eq-ok (validate_path limits.max_path_length raw) _ h in
      let same : raw ≡ path =
        ok_inj (sym (valid_same limits.max_path_length raw path valid) ∙ valid) in
      let (fresh, h2) = passed (is_file taken path) patch_validation_error _ h1 in
      let (encoded, h3) = passed (not (can_encode content)) patch_validation_error _ h2 in
      subst (λ p. Takes ((p, content) ∷ base) taken files) (sym same)
        (Takes-cons path content base taken files (is_file-none taken path fresh)
          (normalize_from-Takes base (Dict.put path content taken) files h3))

  -- The files that a workspace takes are the base files, each path once.
  pub normalize_base_files-IsBounded :
      (base files : Files)
      → normalize_base_files limits base ≡ ok files
      → NodupKeys base
        × IsBounded limits base
        × ((path : Codes) → Dict.get path files ≡ Dict.get path base)
  unfolding normalize_base_files Dict.get
  normalize_base_files-IsBounded base files h =
      let (normalized, taken, h1) = >>=-eq-ok (normalize_from limits base []) _ h in
      let (valid, h2) = checked (validate_file_set limits normalized) _ h1 in
      let t = normalize_from-Takes base [] normalized taken in
      let same = ok_inj h2 in
      (
        t.once,
        part-IsBounded limits base normalized t.once (λ path content there. t.stored path ∙ there)
            (validate_file_set-IsBounded limits normalized valid),
        λ path. ap (Dict.get path) (sym same) ∙ t.stored path,
      )

  normalize_from_taken :
      (base taken : Files)
      → NodupKeys base
      → All
          (λ (path, content).
            (validate_path limits.max_path_length path ≡ ok path)
            × (can_encode content ≡ true)
            × (utf8_length content ≤ limits.max_file_bytes))
          base
      → ((path content : Codes) → Dict.get path base ≡ some content → Dict.get path taken ≡ none)
      → (files : Files) × (normalize_from limits base taken ≡ ok files)
  unfolding normalize_from Dict.get
  normalize_from_taken [] taken u each apart = (taken, refl)
  normalize_from_taken ((path, content) ∷ base) taken (fresh, u) ((valid, encoded, small), each)
        apart =
      let here =
        apart path content
          (if-true (path == path) (some content) (Dict.get path base) (same_self path)) in
      let new : is_file taken path ≡ false = none-is_file taken path here in
      let (files, rest) =
        normalize_from_taken base (Dict.put path content taken) u each (λ other c there.
          elim (Bool-cases (path == other)) [
            | inl same ↦
                let eq = (same_text_iff path other).0 same in
                let clash = sym fresh ∙ ap (λ p. Dict.get p base) eq ∙ there in cc
            | inr differs ↦
                get-put path other content taken
                ∙ if-false (path == other) (some content) (Dict.get other taken) differs
                ∙ apart other c
                    (if-false (path == other) (some content) (Dict.get other base) differs ∙ there)
          ]) in
      (files, rw (valid, new, encoded) rest)

  -- Base files within the limits are taken.
  pub normalize_base_files_taken :
      (base : Files)
      → NodupKeys base
      → IsBounded limits base
      → (files : Files) × (normalize_base_files limits base ≡ ok files)
  unfolding normalize_base_files Dict.get
  normalize_base_files_taken base u bounded =
      let (files, taken) =
        normalize_from_taken base [] u bounded.each (λ path content there. refl) in
      let t = normalize_from-Takes base [] files taken in
      let accepted =
        validate_file_set_accepted limits files base (t.kept tt)
          (λ path content there. sym (t.stored path) ∙ there) bounded in
      (files, rw (taken, accepted) refl)
