-- ===== src/Db/HashChain/Tampering.antt =====
-- What a verified chain of db/hashchain.py protects.
use Prim.Native.String.{count, ◌++◌ as str_append}
use mathlib.Core.Bool.{false≢true}
use text.Mathlib.TextLemmas.{append_inj}
use vh26_pixel_perfect.Prelude.{
  ℕ, ◌+◌, ◌≡◌, ◌≢◌, ◌⊎◌, refl, ◌∙◌, sym, ap, String, string_eq, ◌==◌, eq_iff, List, [], ◌∷◌, map,
  length, Bool-cases, inl, inr, arith,
}
use vh26_pixel_perfect.Db.HashChain.{
  FiredTime, ChainRow, genesis_hash, valid, next_seq_and_prev_hash, compute_row_hash,
  canonical_payload, verify_from, verify_chain,
}
use vh26_pixel_perfect.Db.HashChain.Appends.{verify_from-cons, last_hash, last_hash-lem}

consed : {a b : String} {as' bs : List String} → a ≡ b → as' ≡ bs → a ∷ as' ≡ b ∷ bs
consed h t = cc

one_text : (a b : String) → (a ≡ b) ⊎ (a ≢ b)
one_text a b = elim (Bool-cases (a == b)) [
  | inl same ↦ inl ((eq_iff a b).0 same)
  | inr differ ↦ inr (λ e. false≢true (sym differ ∙ (eq_iff a b).1 e))
]

module _ (sha256 : String → String) (canonical_json : FiredTime → String → String)
    (width : (s : String) → count (sha256 s) ≡ count genesis_hash) where
  -- The text that is hashed for a row.
  abbrev pub hashed : ChainRow → String
  hashed r = str_append r.prev_hash (canonical_payload canonical_json r)

  -- At one place in two tables different texts are hashed, to the same hash.
  abbrev pub Clash : List ChainRow → List ChainRow → Type 0
  Clash [] rows' = ⊥
  Clash (r ∷ rows) [] = ⊥
  Clash (r ∷ rows) (r' ∷ rows') =
      ((hashed r ≢ hashed r') × (sha256 (hashed r) ≡ sha256 (hashed r'))) ⊎ Clash rows rows'

  -- The texts that the rows of two runs to one hash cover, or a clash.
  abbrev Agree : String → String → List ChainRow → List ChainRow → Type 0
  Agree x x' rows rows' =
      ((x ≡ x')
        × (map (canonical_payload canonical_json) rows
            ≡ map (canonical_payload canonical_json) rows'))
      ⊎ Clash rows rows'

  -- Two first rows of one hash.
  first_agrees :
      (r r' : ChainRow) (x x' : String) (rows rows' : List ChainRow)
      → count x ≡ count x'
      → r.prev_hash ≡ x
      → r'.prev_hash ≡ x'
      → compute_row_hash sha256 r.prev_hash (canonical_payload canonical_json r)
        ≡ compute_row_hash sha256 r'.prev_hash (canonical_payload canonical_json r')
      → map (canonical_payload canonical_json) rows ≡ map (canonical_payload canonical_json) rows'
      → Agree x x' (r ∷ rows) (r' ∷ rows')
  unfolding compute_row_hash
  first_agrees r r' x x' rows rows' c prev prev' hash texts =
      elim (one_text (hashed r) (hashed r')) [
        | inr differ ↦ inr (inl (differ, hash))
        | inl same ↦
            let (before, text) = append_inj same (ap count prev ∙ c ∙ sym (ap count prev')) in
            inl (sym prev ∙ before ∙ prev', consed text texts)
      ]

  verify_from-Agree :
      (x x' : String) (k k' n n' : ℕ) (rows rows' : List ChainRow)
      → count x ≡ count x'
      → verify_from sha256 canonical_json x k rows ≡ valid n
      → verify_from sha256 canonical_json x' k' rows' ≡ valid n'
      → length rows ≡ length rows'
      → last_hash x rows ≡ last_hash x' rows'
      → Agree x x' rows rows'
  unfolding compute_row_hash
  verify_from-Agree x x' k k' n n' [] [] c h h' l e = inl (e, refl)
  verify_from-Agree x x' k k' n n' [] (r' ∷ rows') c h h' l e = absurd (omega arith)
  verify_from-Agree x x' k k' n n' (r ∷ rows) [] c h h' l e = absurd (omega arith)
  verify_from-Agree x x' k k' n n' (r ∷ rows) (r' ∷ rows') c h h' l e =
      let ((prev, hash), tail) = (verify_from-cons sha256 canonical_json x k n r rows).0 h in
      let ((prev', hash'), tail') =
        (verify_from-cons sha256 canonical_json x' k' n' r' rows').0 h' in
      elim (verify_from-Agree r.row_hash r'.row_hash (k + 1) (k' + 1) n n' rows rows'
        (sym (ap count hash) ∙ width _ ∙ sym (width _) ∙ ap count hash') tail tail' (omega arith)
        e) [
          | inr clash ↦ inr (inr clash)
          | inl (same, texts) ↦
              first_agrees r r' x x' rows rows' c prev prev' (hash ∙ same ∙ sym hash') texts
        ]

  -- If two tables of one length verify, and their last hashes are the same, then the rows cover the
  -- same texts in the same order, or at some place they hash different texts to the same hash. The
  -- hashes all have the width of the genesis hash.
  pub verify_chain-tamper_evident :
      (rows rows' : List ChainRow) (n n' : ℕ)
      → verify_chain sha256 canonical_json rows ≡ valid n
      → verify_chain sha256 canonical_json rows' ≡ valid n'
      → length rows ≡ length rows'
      → (next_seq_and_prev_hash rows).1 ≡ (next_seq_and_prev_hash rows').1
      → (map (canonical_payload canonical_json) rows ≡ map (canonical_payload canonical_json) rows')
        ⊎ Clash rows rows'
  unfolding verify_chain next_seq_and_prev_hash
  verify_chain-tamper_evident rows rows' n n' h h' l e =
      let ends = sym (last_hash-lem 1 genesis_hash rows) ∙ e ∙ last_hash-lem 1 genesis_hash rows' in
      elim (verify_from-Agree genesis_hash genesis_hash 0 0 n n' rows rows' refl h h' l ends) [
        | inl (_, texts) ↦ inl texts
        | inr clash ↦ inr clash
      ]
