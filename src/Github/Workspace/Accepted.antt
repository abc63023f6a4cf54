-- ===== src/Github/Workspace/Accepted.antt =====
-- Which sets of files github_integration/workspace.py accepts: all that are within its limits.
use vh26_pixel_perfect.Prelude.{
  ℕ, ◌+◌, ◌≤◌, ◌≡◌, refl, sym, ap, ◌∙◌, Bool, true, false, ◌||◌, none, some, [], ◌∷◌, ◌++◌, map,
  any, any-map, All, length, ltb, ◌==◌, Bool-cases, Option-cases, inl, inr, if◌then◌else◌, arith,
}
use vh26_pixel_perfect.Prelude.Tests.{nat_eq, nat_beq_iff}
use vh26_pixel_perfect.Prelude.Dict
use vh26_pixel_perfect.Prelude.Dict.{get-remove}
use vh26_pixel_perfect.Prelude.Codes.{Codes, can_encode, utf8_length}
use vh26_pixel_perfect.Prelude.Codes.Laws.{text_eq, consed}
use vh26_pixel_perfect.Prelude.Result.{ok}
use vh26_pixel_perfect.Github.Paths.{validate_path, slash}
use vh26_pixel_perfect.Github.Workspace.{
  WorkspaceLimits, Files, is_file, ancestors, byte_count, validate_files, validate_file_set,
  validate_no_file_directory_collisions,
}
use vh26_pixel_perfect.Github.Workspace.Limits.{IsBounded, total_bytes}
use vh26_pixel_perfect.Github.Workspace.Keys.{
  NodupKeys, All-stored, stored-All, weight-le, weight-length, weight-bytes,
}

-- What stands before a slash of a path.
ancestors_some :
    (f : Codes → Bool) (path : Codes)
    → any f (ancestors path) ≡ true
    → (upper : Codes) × (rest : Codes) × (path ≡ upper ++ slash ∷ rest) × (f upper ≡ true)
unfolding ancestors
ancestors_some f [] h = cc
ancestors_some f (c ∷ path) h =
    let deeper : any f (map (λ p. c ∷ p) (ancestors path)) ≡ true
        → (upper : Codes) × (rest : Codes) × (c ∷ path ≡ upper ++ slash ∷ rest) × (f upper ≡ true) =
      λ found.
        let (upper, rest, eq, at) =
          ancestors_some (λ p. f (c ∷ p)) path
            (sym (any-map f (λ p. c ∷ p) (ancestors path)) ∙ found) in
        (c ∷ upper, rest, consed refl eq, at) in
    elim (Bool-cases (c == slash)) [
      | inl same ↦ elim (Bool-cases (f [])) [
        | inl at ↦ ([], path, consed ((nat_beq_iff c slash).0 same) refl, at)
        | inr other ↦ deeper (
            sym (ap (λ b. b || any f (map (λ p. c ∷ p) (ancestors path))) other)
            ∙ sym (
                ap
                  (λ b. any f (
                    if b
                    then [] ∷ map (λ p. c ∷ p) (ancestors path)
                    else map (λ p. c ∷ p) (ancestors path)))
                  same)
            ∙ h)
      ]
      | inr differs ↦ deeper (
          sym (
            ap
              (λ b. any f (
                if b
                then [] ∷ map (λ p. c ∷ p) (ancestors path)
                else map (λ p. c ∷ p) (ancestors path)))
              differs)
          ∙ h)
    ]

any_none :
    (f : Codes × Codes → Bool) (files : Files) → All (λ e. f e ≡ false) files → any f files ≡ false
any_none f [] all = refl
any_none f (e ∷ files) (first, all) = rw first (any_none f files all)

is_file-some :
    (files : Files) (path : Codes)
    → is_file files path ≡ true
    → (content : Codes) × (Dict.get path files ≡ some content)
unfolding is_file
is_file-some files path h = elim (Option-cases (Dict.get path files)) [
  | inl absent ↦ let no_file : is_file files path ≡ false = rw (absent, is_file) refl in cc
  | inr there ↦ there
]

validate_no_file_directory_collisions_apart :
    (files : Files)
    → NodupKeys files
    → ((path rest content : Codes)
        → Dict.get path files ≡ some content
        → Dict.get (path ++ slash ∷ rest) files ≡ none)
    → validate_no_file_directory_collisions files ≡ ok tt
unfolding validate_no_file_directory_collisions
validate_no_file_directory_collisions_apart files u apart =
    rw
      (any_none (λ e. any (is_file files) (ancestors e.0)) files
        (All-stored (λ e. any (is_file files) (ancestors e.0) ≡ false) files u
          (λ path content at. elim (Bool-cases (any (is_file files) (ancestors path))) [
            | inl found ↦
                let (upper, rest, eq, above) = ancestors_some (is_file files) path found in
                let (d, there) = is_file-some files upper above in
                let clash = sym at ∙ ap (λ q. Dict.get q files) eq ∙ apart upper rest d there in cc
            | inr clear ↦ clear
          ])))
      refl

module _ (limits : WorkspaceLimits) where
  validate_files_accepted :
      (total : ℕ) (files : Files)
      → All
          (λ (path, content).
            (validate_path limits.max_path_length path ≡ ok path)
            × (can_encode content ≡ true)
            × (utf8_length content ≤ limits.max_file_bytes))
          files
      → total + total_bytes files ≤ limits.max_total_bytes
      → validate_files limits total files ≡ ok tt
  unfolding validate_files byte_count
  validate_files_accepted total [] each h = refl
  validate_files_accepted total ((path, content) ∷ files) (first, each) h =
      let small : ltb limits.max_file_bytes (utf8_length content) ≡ false =
        ground (arith, first.2) in
      let fits : ltb limits.max_total_bytes (total + utf8_length content) ≡ false = ground arith in
      rw (first.0, first.1, small, fits)
        (validate_files_accepted (total + utf8_length content) files each (omega arith))

  -- A set with distinct paths that stores nothing but what a set within the limits does is accepted.
  pub validate_file_set_accepted :
      (part whole : Files)
      → NodupKeys part
      → ((path content : Codes)
          → Dict.get path part ≡ some content
          → Dict.get path whole ≡ some content)
      → IsBounded limits whole
      → validate_file_set limits part ≡ ok tt
  unfolding validate_file_set
  validate_file_set_accepted part whole u within bounded =
      let fewer = weight-le (λ _. 1) part whole u within in
      let smaller = weight-le (λ (_, content). utf8_length content) part whole u within in
      let few : ltb limits.max_file_count (length part) ≡ false =
        ground (arith, bounded.count, weight-length part, weight-length whole) in
      let bytes : 0 + total_bytes part ≤ limits.max_total_bytes =
        omega (arith, bounded.total, weight-bytes part, weight-bytes whole) in
      let each = All-stored _ part u (λ path content at.
        stored-All _ whole path content bounded.each (within path content at)) in
      rw (few, validate_files_accepted 0 part each bytes)
        (validate_no_file_directory_collisions_apart part u (λ path rest content at.
          elim (Option-cases (Dict.get (path ++ slash ∷ rest) part)) [
            | inl absent ↦ absent
            | inr (d, there) ↦
                let clash =
                  sym (within (path ++ slash ∷ rest) d there)
                  ∙ bounded.apart path rest content (within path content at) in
                cc
          ]))

  -- A set with distinct paths that stores nothing but what a set within the limits does is within them.
  pub part-IsBounded :
      (part whole : Files)
      → NodupKeys part
      → ((path content : Codes)
          → Dict.get path part ≡ some content
          → Dict.get path whole ≡ some content)
      → IsBounded limits whole
      → IsBounded limits part
  part-IsBounded part whole u within bounded =
      let fewer = weight-le (λ _. 1) part whole u within in
      let smaller = weight-le (λ (_, content). utf8_length content) part whole u within in
      record {
        count = omega (arith, bounded.count, fewer, weight-length part, weight-length whole);
        total = omega (arith, bounded.total, smaller, weight-bytes part, weight-bytes whole);
        each = All-stored _ part u (λ path content at.
            stored-All _ whole path content bounded.each (within path content at));
        apart = λ path rest content at. elim (Option-cases (Dict.get (path ++ slash ∷ rest) part)) [
          | inl absent ↦ absent
          | inr (d, there) ↦
              let clash =
                sym (within (path ++ slash ∷ rest) d there)
                ∙ bounded.apart path rest content (within path content at) in
              cc
        ];
      }
