-- ===== src/Github/Directory/Parts.antt =====
-- The parts of a path and the text that joins them.
use vh26_pixel_perfect.Prelude.{
  ℕ, ◌≡◌, refl, sym, ap, ◌∙◌, List, [], ◌∷◌, ◌++◌, nat_beq, nat_beq_iff, Bool-cases, inl, inr,
}
use vh26_pixel_perfect.Prelude.Codes.{Codes, split, onto_first}
use vh26_pixel_perfect.Prelude.Codes.Laws.{consed}
use vh26_pixel_perfect.Github.Paths.{slash}

-- "/".join(parts)
abbrev pub join : List Codes → Codes
join [] = []
join (part ∷ []) = part
join (part ∷ next ∷ parts) = part ++ slash ∷ join (next ∷ parts)

pub split_nonempty :
    (s : Codes) → (part : Codes) × (parts : List Codes) × (split slash s ≡ part ∷ parts)
unfolding split
split_nonempty [] = ([], [], refl)
split_nonempty (c ∷ s) = elim (Bool-cases (nat_beq c slash)) [
  | inl found ↦ ([], split slash s, rw found refl)
  | inr other ↦
      let (part, parts, h) = split_nonempty s in (c ∷ part, parts, rw other (ap (onto_first c) h))
]

join-onto_first :
    (c : ℕ) (part : Codes) (parts : List Codes)
    → join (onto_first c (part ∷ parts)) ≡ c ∷ join (part ∷ parts)
join-onto_first c part [] = refl
join-onto_first c part (next ∷ parts) = refl

pub join-split : (s : Codes) → join (split slash s) ≡ s
unfolding split
join-split [] = refl
join-split (c ∷ s) =
    let (part, parts, h) = split_nonempty s in
    elim (Bool-cases (nat_beq c slash)) [
      | inl found ↦
          let same : c ≡ slash = (nat_beq_iff c slash).0 found in
          rw found
            (ap (λ ps. join ([] ∷ ps)) h ∙ consed (sym same) (ap join (sym h) ∙ join-split s))
      | inr other ↦ rw other (
          ap (λ ps. join (onto_first c ps)) h
          ∙ join-onto_first c part parts
          ∙ consed refl (ap join (sym h) ∙ join-split s))
    ]

pub split_inj : (s t : Codes) → split slash s ≡ split slash t → s ≡ t
split_inj s t h = sym (join-split s) ∙ ap join h ∙ join-split t

join-append :
    (part : Codes) (parts : List Codes) (next : Codes) (lower : List Codes)
    → join (part ∷ parts ++ next ∷ lower) ≡ join (part ∷ parts) ++ slash ∷ join (next ∷ lower)
join-append part [] next lower = refl
join-append part (p ∷ parts) next lower =
    ap (λ t. part ++ slash ∷ t) (join-append p parts next lower)
    ∙ assoc part (join (p ∷ parts)) (slash ∷ join (next ∷ lower))
  where
    assoc : (s t u : Codes) → s ++ slash ∷ (t ++ u) ≡ (s ++ slash ∷ t) ++ u
    assoc [] t u = refl
    assoc (c ∷ s) t u = ap (λ r. c ∷ r) (assoc s t u)

-- A path whose parts go on from those of another continues it behind a slash.
pub split-continues :
    (path other next : Codes) (lower : List Codes)
    → split slash path ≡ split slash other ++ next ∷ lower
    → path ≡ other ++ slash ∷ join (next ∷ lower)
split-continues path other next lower h =
    let (part, parts, e) = split_nonempty other in
    sym (join-split path)
    ∙ ap join h
    ∙ ap (λ ps. join (ps ++ next ∷ lower)) e
    ∙ join-append part parts next lower
    ∙ ap (λ s. s ++ slash ∷ join (next ∷ lower)) (ap join (sym e) ∙ join-split other)
