-- ===== src/Github/SourceContext/References.antt =====
-- The references that github_integration/source_context.py collects from the rows of a snapshot.
use mathlib.Core.Path.{subst}
use mathlib.Core.List.{Mem, mem-cons_self, mem-cons_of_mem}
use vh26_pixel_perfect.Prelude.{
  ℕ, ◌≤◌, ◌≡◌, refl, ◌∙◌, sym, ap, true, Option, none, some, List, [], ◌∷◌, All, All-map, All-take,
  length, length-take-le, Bool-cases, inl, inr, if◌then◌else◌, arith,
}
use vh26_pixel_perfect.Prelude.Codes.{Codes, strip}
use vh26_pixel_perfect.Prelude.Codes.Laws.{text_eq}
use vh26_pixel_perfect.Prelude.Result.{ok, >>=-eq-ok, ok_inj}
use vh26_pixel_perfect.Github.SourcePolicy.{
  SourceContextPolicy, SourceFileReference, SnapshotRow, RowSize, is_safe_path,
}
use vh26_pixel_perfect.Github.SourceContext.{
  is_blob, size_within, referenced, reference_to, reference_from_row, new_reference, added,
  seen_with, collect_references, ranks_before, insert_ranked, sort_ranked, select_source_files,
}
use vh26_pixel_perfect.Github.SourceContext.Safety.{IsSafe, is_safe_path-IsSafe}

module _ (policy : SourceContextPolicy) where
  -- A reference stems from a row of a blob, at a safe path, with its sha.
  pub record Refers (rows : List SnapshotRow) (r : SourceFileReference) : Type 0 where
    pub row : SnapshotRow
    pub stored : Mem row rows
    pub kind : is_blob row.object_type ≡ true
    pub path : row.path ≡ some r.path
    pub sha : Codes
    pub named : row.blob_sha ≡ some sha
    pub stripped : r.blob_sha ≡ strip sha
    pub safe : IsSafe policy r.path

  referenced-fields :
      (path sha : Codes) (size : Option (Option ℕ)) (r : SourceFileReference)
      → referenced path sha size ≡ ok (some r)
      → (r.path ≡ path) × (r.blob_sha ≡ strip sha)
  referenced-fields path sha none r h = cc
  referenced-fields path sha (some size) r h = ground arith

  reference_to-fields :
      (path sha : Option Codes) (size : RowSize) (r : SourceFileReference)
      → reference_to path sha size policy ≡ ok (some r)
      → (s : Codes) × (path ≡ some r.path)
        × (sha ≡ some s)
        × (r.blob_sha ≡ strip s)
        × IsSafe policy r.path
  reference_to-fields none sha size r h = cc
  reference_to-fields (some p) none size r h = cc
  reference_to-fields (some p) (some s) size r h = elim (Bool-cases (is_safe_path p policy)) [
    | inl safe ↦
        let (same, stripped) = referenced-fields p s (size_within policy.max_file_bytes size) r (
          sym (
            ap (λ b. if b then referenced p s (size_within policy.max_file_bytes size) else ok none)
              safe)
          ∙ h) in
        (
          s,
          ap some (sym same),
          refl,
          stripped,
          subst (IsSafe policy) (sym same) (is_safe_path-IsSafe policy p safe),
        )
    | inr unsafe ↦ absurd (ground arith)
  ]

  row-Refers :
      (row : SnapshotRow) (rows : List SnapshotRow) (r : SourceFileReference)
      → reference_from_row row policy ≡ ok (some r)
      → Refers (row ∷ rows) r
  unfolding reference_from_row
  row-Refers row rows r h = elim (Bool-cases (is_blob row.object_type)) [
    | inl kind ↦
        let (sha, path, named, stripped, safe) =
          reference_to-fields row.path row.blob_sha row.size r (
            sym (
              ap (λ b. if b then reference_to row.path row.blob_sha row.size policy else ok none)
                kind)
            ∙ h) in
        record {
          row = row;
          stored = mem-cons_self;
          kind = kind;
          path = path;
          sha = sha;
          named = named;
          stripped = stripped;
          safe = safe;
        }
    | inr other ↦ absurd (ground arith)
  ]

  Refers-later :
      (row : SnapshotRow) (rows : List SnapshotRow) (r : SourceFileReference)
      → Refers rows r
      → Refers (row ∷ rows) r
  Refers-later row rows r refers = record {
    row = refers.row;
    stored = mem-cons_of_mem row refers.stored;
    kind = refers.kind;
    path = refers.path;
    sha = refers.sha;
    named = refers.named;
    stripped = refers.stripped;
    safe = refers.safe;
  }

  some-new_reference :
      (o : Option SourceFileReference) (seen : List Codes) (r : SourceFileReference)
      → new_reference o seen ≡ some r
      → o ≡ some r
  some-new_reference o seen r h = ground arith

  All-added :
      (P : SourceFileReference → Type 0) (o : Option SourceFileReference)
      (rest : List SourceFileReference)
      → ((r : SourceFileReference) → o ≡ some r → P r)
      → All P rest
      → All P (added o rest)
  All-added P none rest f h = h
  All-added P (some r) rest f h = (f r refl, h)

  collect_references-Refers :
      (rows : List SnapshotRow) (seen : List Codes) (rs : List SourceFileReference)
      → collect_references rows policy seen ≡ ok rs
      → All (Refers rows) rs
  unfolding collect_references
  collect_references-Refers [] seen rs h = subst (All (Refers [])) (ok_inj h) tt
  collect_references-Refers (row ∷ rows) seen rs h =
      let (found, read, h1) = >>=-eq-ok (reference_from_row row policy) _ h in
      let new = new_reference found seen in
      let (rest, more, h2) = >>=-eq-ok (collect_references rows policy (seen_with new seen)) _ h1 in
      subst (All (Refers (row ∷ rows))) (ok_inj h2) (
        All-added (Refers (row ∷ rows)) new rest
          (λ r e. row-Refers row rows r (read ∙ ap ok (some-new_reference found seen r e)))
          (All-map (Refers-later row rows) rest
            (collect_references-Refers rows (seen_with new seen) rest more)))

  module _ (signal_matches : Codes → ℕ) where
    All-insert_ranked :
        (P : SourceFileReference → Type 0) (r : SourceFileReference) (rs : List SourceFileReference)
        → P r
        → All P rs
        → All P (insert_ranked signal_matches policy r rs)
    unfolding insert_ranked
    All-insert_ranked P r [] p h = (p, tt)
    All-insert_ranked P r (s ∷ rs) p (q, h) =
        elim (Bool-cases (ranks_before signal_matches policy s r)) [
          | inl first ↦ rw first (q, All-insert_ranked P r rs p h)
          | inr later ↦ rw later (p, (q, h))
        ]

    All-sort_ranked :
        (P : SourceFileReference → Type 0) (rs : List SourceFileReference)
        → All P rs
        → All P (sort_ranked signal_matches policy rs)
    unfolding sort_ranked
    All-sort_ranked P [] h = tt
    All-sort_ranked P (r ∷ rs) (p, h) =
        All-insert_ranked P r (sort_ranked signal_matches policy rs) p (All-sort_ranked P rs h)

    pub select_source_files-Refers :
        (rows : List SnapshotRow) (rs : List SourceFileReference)
        → select_source_files signal_matches policy rows ≡ ok rs
        → All (Refers rows) rs × (length rs ≤ policy.max_files)
    unfolding select_source_files
    select_source_files-Refers rows rs h =
        let (all_rs, read, h1) = >>=-eq-ok (collect_references rows policy []) _ h in
        let sorted = sort_ranked signal_matches policy all_rs in
        subst (λ rs. All (Refers rows) rs × (length rs ≤ policy.max_files)) (ok_inj h1)
          (
            All-take (Refers rows) policy.max_files sorted (
                All-sort_ranked (Refers rows) all_rs
                  (collect_references-Refers rows [] all_rs read)),
            length-take-le policy.max_files sorted,
          )
