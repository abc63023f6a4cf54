-- ===== src/Github/Workspace/Plan.antt =====
-- What a plan of github_integration/workspace.py does to the files.
use mathlib.Core.Path.{subst}
use vh26_pixel_perfect.Prelude.{
  ℕ, ◌+◌, ◌≡◌, ◌≢◌, refl, ◌∙◌, ap, false, Option, List, [], ◌∷◌, map, any, All, All-map, ltb, ◌==◌,
  Bool-cases, inl, inr, if◌then◌else◌, arith,
}
use vh26_pixel_perfect.Prelude.Dict
use vh26_pixel_perfect.Prelude.Dict.{get-put, get-remove}
use vh26_pixel_perfect.Prelude.Codes.{Codes, same_text}
use vh26_pixel_perfect.Prelude.Codes.Laws.{text_eq, same_text_iff}
use vh26_pixel_perfect.Prelude.Result.{ok, >>=-eq-ok, passed, ok_inj}
use vh26_pixel_perfect.Github.Paths.{patch_validation_error}
use vh26_pixel_perfect.Github.Workspace.{
  WorkspaceLimits, ProposedFileChange, PlannedChange, Files, plan_change, plan_from, content_bytes,
}
use vh26_pixel_perfect.Github.Workspace.Round.{Planned, Round, plan_change-Round}

abbrev pub contents_after : List PlannedChange → Codes → Option Codes → Option Codes
contents_after [] q old = old
contents_after (p ∷ ps) q old = if p.path == q then p.after else contents_after ps q old

abbrev Fresh : List Codes → PlannedChange → Type 0
Fresh seen p = any (same_text p.path) seen ≡ false

-- A path that is not seen differs from each that is.
apart :
    (p : PlannedChange) (path : Codes) (seen : List Codes)
    → Fresh (path ∷ seen) p
    → (path == p.path) ≡ false
apart p path seen h = ground (arith, same_text_iff p.path path, same_text_iff path p.path)

contents_after-Fresh :
    (ps : List PlannedChange) (q : Codes) (seen : List Codes) (old : Option Codes)
    → All (Fresh (q ∷ seen)) ps
    → contents_after ps q old ≡ old
contents_after-Fresh [] q seen old h = refl
contents_after-Fresh (p ∷ ps) q seen old (new, h) = ground (
  arith,
  apart p q seen,
  same_text_iff p.path q,
  same_text_iff q p.path,
  contents_after-Fresh ps q seen old h,
)

-- No two steps are about the same path.
abbrev pub AreDistinct : List PlannedChange → Type 0
AreDistinct [] = Unit
AreDistinct (p ∷ ps) = All (λ x. x.path ≢ p.path) ps × AreDistinct ps

Fresh-ne :
    (path : Codes) (seen : List Codes) (x : PlannedChange) → Fresh (path ∷ seen) x → x.path ≢ path
Fresh-ne path seen x h e = ground (arith, same_text_iff x.path path)

module _ (sha256 : Codes → Codes) (limits : WorkspaceLimits) where
  -- A plan has one step for each change, in their order; each is about a path of its own, with what
  -- the files contain there.
  pub record Plans (changes : List ProposedFileChange) (files : Files)
      (planned : List PlannedChange) (result : Files) : Type 0 where
    pub in_order : map (λ p. p.change) planned ≡ changes
    pub each : All (Planned sha256 limits files) planned
    pub distinct : AreDistinct planned
    pub written : (q : Codes) → Dict.get q result ≡ contents_after planned q (Dict.get q files)

  Planned-unwritten :
      (files result : Files) (p x : PlannedChange) (seen : List Codes)
      → ((q : Codes) → Dict.get q result ≡ (if p.path == q then p.after else Dict.get q files))
      → Fresh (p.path ∷ seen) x
      → Planned sha256 limits result x
      → Planned sha256 limits files x
  Planned-unwritten files result p x seen written new planned = record {
    expected = planned.expected;
    normalized = planned.normalized;
    action = planned.action;
    path = planned.path;
    before =
        planned.before
        ∙ written x.path
        ∙ ap (λ b. if b then p.after else Dict.get x.path files) (apart x p.path seen new);
    fits = planned.fits;
  }

  each-unwritten :
      (files result : Files) (p : PlannedChange) (seen : List Codes) (rest : List PlannedChange)
      → ((q : Codes) → Dict.get q result ≡ (if p.path == q then p.after else Dict.get q files))
      → All (Fresh (p.path ∷ seen)) rest
      → All (Planned sha256 limits result) rest
      → All (Planned sha256 limits files) rest × All (Fresh seen) rest
  each-unwritten files result p seen [] written fresh each = (tt, tt)
  each-unwritten files result p seen (x ∷ rest) written (new, fresh) (planned, each) =
      let (others, old) = each-unwritten files result p seen rest written fresh each in
      ((Planned-unwritten files result p x seen written new planned, others), (ground arith, old))

  written-cons :
      (files result : Files) (p : PlannedChange) (seen : List Codes) (rest : List PlannedChange)
      (q : Codes)
      → Dict.get q result ≡ (if p.path == q then p.after else Dict.get q files)
      → All (Fresh (p.path ∷ seen)) rest
      → contents_after rest q (Dict.get q result) ≡ contents_after (p ∷ rest) q (Dict.get q files)
  written-cons files result p seen rest q written fresh = elim (Bool-cases (p.path == q)) [
    | inl same ↦
        ap (contents_after rest q) written
        ∙ rw same (
            contents_after-Fresh rest q seen p.after
              (subst (λ x. All (Fresh (x ∷ seen)) rest) ((same_text_iff p.path q).0 same) fresh))
    | inr differs ↦ rw (written, differs)
  ]

  Plans-cons :
      (change : ProposedFileChange) (changes : List ProposedFileChange) (seen : List Codes)
      (files result final : Files) (p : PlannedChange) (rest : List PlannedChange)
      → Round sha256 limits change seen files (p, result)
      → Plans changes result rest final
      → All (Fresh (p.path ∷ seen)) rest
      → Plans (change ∷ changes) files (p ∷ rest) final × All (Fresh seen) (p ∷ rest)
  Plans-cons change changes seen files result final p rest (same, new, planned, written) plans
        fresh =
      let (others, old) = each-unwritten files result p seen rest written fresh plans.each in
      (
        record {
          in_order = cc (plans.in_order);
          each = (planned, others);
          distinct = (All-map (Fresh-ne p.path seen) rest fresh, plans.distinct);
          written =
              λ q. plans.written q ∙ written-cons files result p seen rest q (written q) fresh;
        },
        (new, old),
      )

  pub plan_from-Plans :
      (changes : List ProposedFileChange) (seen : List Codes) (bytes : ℕ) (files : Files)
      (r : List PlannedChange × Files)
      → plan_from sha256 limits changes seen bytes files ≡ ok r
      → Plans changes files r.0 r.1 × All (Fresh seen) r.0
  unfolding plan_from
  plan_from-Plans [] seen bytes files r h =
      subst (λ r. Plans [] files r.0 r.1 × All (Fresh seen) r.0) (ok_inj h)
        (record { in_order = refl; each = tt; distinct = tt; written = λ q. refl }, tt)
  plan_from-Plans (change ∷ changes) seen bytes files r h =
      let ((p, result), planned, h1) =
        >>=-eq-ok (plan_change sha256 limits change seen files) _ h in
      let (size, _, h2) = >>=-eq-ok (content_bytes p.after) _ h1 in
      let (_, h3) =
        passed (ltb limits.max_patch_bytes (bytes + size)) patch_validation_error _ h2 in
      let ((rest, final), more, h4) =
        >>=-eq-ok (plan_from sha256 limits changes (p.path ∷ seen) (bytes + size) result) _ h3 in
      let (plans, fresh) =
        plan_from-Plans changes (p.path ∷ seen) (bytes + size) result (rest, final) more in
      subst (λ r. Plans (change ∷ changes) files r.0 r.1 × All (Fresh seen) r.0) (ok_inj h4)
        (Plans-cons change changes seen files result final p rest
          (plan_change-Round sha256 limits change seen files (p, result) planned) plans fresh)
