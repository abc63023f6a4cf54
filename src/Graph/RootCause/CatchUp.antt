-- ===== src/Graph/RootCause/CatchUp.antt =====
-- graph/root_cause_worker.py: no evidence is left unranked, and none is ranked twice.
use mathlib.Core.Bool.{false≢true}
use mathlib.Core.Path.{subst}
use vh26_pixel_perfect.Prelude.{
  ℕ, ◌+◌, ◌≤◌, true, false, ◌≡◌, refl, sym, ◌∙◌, ap, String, string_eq, ◌==◌, Option, some, List,
  [], ◌∷◌, map, any, All, ltb, if◌then◌else◌, arith, Bool-cases, inl, inr,
}
use vh26_pixel_perfect.Graph.Observation.{ScopeStats, observe_scope}
use vh26_pixel_perfect.Graph.RootCause.{
  Tables, Settings, is_dirty, dirty_scopes, revision_of, mark_ranked, rank_scope, rank_scopes,
  sweep_once,
}

differs_sym : (s t : String) → (s == t) ≡ false → (t == s) ≡ false
differs_sym s t h = elim (Bool-cases (t == s)) [
  | inl e ↦
      absurd (false≢true (sym h ∙ (string_eq.same_iff s t).1 (sym ((string_eq.same_iff t s).0 e))))
  | inr e ↦ e
]

only_entry :
    {s t : String} {n : ℕ} {xs : List (String × ℕ)} → s ≡ t → xs ≡ [] → (s, n) ∷ xs ≡ (t, n) ∷ []
only_entry h k = cc

module _ {W : Type 0} where
  -- scope_key is the primary key.
  abbrev pub Distinct : List (ScopeStats W) → Type 0
  Distinct [] = Unit
  Distinct (s ∷ scopes) = (any (λ k. k.scope_key == s.scope_key) scopes ≡ false) × Distinct scopes

  -- What a sweep leaves of a scope.
  abbrev pub caught_up : ℕ → ScopeStats W → ScopeStats W
  caught_up clock s =
      if is_dirty s
      then record s { ranked_revision = s.observed_revision; ranked_at = some clock }
      else s

  abbrev mark_one : String × ℕ → ℕ → ScopeStats W → ScopeStats W
  mark_one (scope, revision) clock s =
      if s.scope_key == scope
      then record s { ranked_revision = revision; ranked_at = some clock }
      else s

  mark_each : List (String × ℕ) → ℕ → ScopeStats W → ScopeStats W
  mark_each [] clock s = s
  mark_each (e ∷ entries) clock s = mark_each entries clock (mark_one e clock s)

  mark_all : List (String × ℕ) → ℕ → List (ScopeStats W) → List (ScopeStats W)
  mark_all [] clock scopes = scopes
  mark_all ((scope, revision) ∷ entries) clock scopes =
      mark_all entries clock (mark_ranked scope revision clock scopes)

  mark_all_cons :
      (entries : List (String × ℕ)) (clock : ℕ) (s : ScopeStats W) (scopes : List (ScopeStats W))
      → mark_all entries clock (s ∷ scopes)
        ≡ mark_each entries clock s ∷ mark_all entries clock scopes
  unfolding mark_all mark_each mark_ranked
  mark_all_cons [] clock s scopes = refl
  mark_all_cons ((scope, revision) ∷ entries) clock s scopes =
      mark_all_cons entries clock (mark_one (scope, revision) clock s)
        (mark_ranked scope revision clock scopes)

  mark_each_other :
      (entries : List (String × ℕ)) (clock : ℕ) (s : ScopeStats W)
      → any (λ e. e.0 == s.scope_key) entries ≡ false
      → mark_each entries clock s ≡ s
  unfolding mark_each
  mark_each_other [] clock s h = refl
  mark_each_other ((scope, revision) ∷ entries) clock s h =
      let apart : (s.scope_key == scope) ≡ false = differs_sym scope s.scope_key (ground arith) in
      rw apart (mark_each_other entries clock s (ground arith))

  mark_ranked_other :
      (scope : String) (revision clock : ℕ) (scopes : List (ScopeStats W))
      → any (λ s. s.scope_key == scope) scopes ≡ false
      → mark_ranked scope revision clock scopes ≡ scopes
  unfolding mark_ranked
  mark_ranked_other scope revision clock [] h = refl
  mark_ranked_other scope revision clock (s ∷ scopes) h =
      let apart : (s.scope_key == scope) ≡ false = ground arith in
      rw apart
        (ap (λ rest. s ∷ rest) (mark_ranked_other scope revision clock scopes (ground arith)))

  any-dirty_scopes :
      (key : String) (scopes : List (ScopeStats W))
      → any (λ s. s.scope_key == key) scopes ≡ false
      → any (λ e. e.0 == key) (dirty_scopes scopes) ≡ false
  unfolding dirty_scopes
  any-dirty_scopes key [] h = refl
  any-dirty_scopes key (s ∷ scopes) h =
      let rest = any-dirty_scopes key scopes (ground arith) in
      let apart : (s.scope_key == key) ≡ false = ground arith in
      elim (Bool-cases (is_dirty s)) [ inl e ↦ rw (e, apart) rest | inr e ↦ rw e rest ]

  linked : {x y : ScopeStats W} {xs ys : List (ScopeStats W)} → x ≡ y → xs ≡ ys → x ∷ xs ≡ y ∷ ys
  linked h k = cc

  mark_each_own :
      (entries : List (String × ℕ)) (revision clock : ℕ) (s : ScopeStats W)
      → any (λ e. e.0 == s.scope_key) entries ≡ false
      → mark_each ((s.scope_key, revision) ∷ entries) clock s
        ≡ record s { ranked_revision = revision; ranked_at = some clock }
  unfolding mark_each
  mark_each_own entries revision clock s h =
      rw ((string_eq.same_iff s.scope_key s.scope_key).1 refl) (
        mark_each_other entries clock
          (record s { ranked_revision = revision; ranked_at = some clock }) h)

  mark_all-dirty_scopes :
      (clock : ℕ) (scopes : List (ScopeStats W))
      → Distinct scopes
      → mark_all (dirty_scopes scopes) clock scopes ≡ map (caught_up clock) scopes
  unfolding dirty_scopes mark_all
  mark_all-dirty_scopes clock [] h = refl
  mark_all-dirty_scopes clock (s ∷ scopes) (new, h) =
      let rest = mark_all-dirty_scopes clock scopes h in
      let entries = dirty_scopes scopes in
      let none_own = any-dirty_scopes s.scope_key scopes new in
      elim (Bool-cases (is_dirty s)) [
        | inl e ↦ rw e (
            mark_all_cons ((s.scope_key, s.observed_revision) ∷ entries) clock s scopes
            ∙ linked (mark_each_own entries s.observed_revision clock s none_own) (
                ap (mark_all entries clock)
                  (mark_ranked_other s.scope_key s.observed_revision clock scopes new)
                ∙ rest))
        | inr e ↦ rw e (
            mark_all_cons entries clock s scopes
            ∙ linked (mark_each_other entries clock s none_own) rest)
      ]

  rank_scopes-scopes :
      (settings : Settings) (score : List ℕ → Option (ℕ × String)) (t : Tables W)
      (entries : List (String × ℕ)) (now clock : ℕ)
      → (rank_scopes settings score t entries now clock).0.scopes ≡ mark_all entries clock t.scopes
  unfolding rank_scopes rank_scope mark_all
  rank_scopes-scopes settings score t [] now clock = refl
  rank_scopes-scopes settings score t ((scope, revision) ∷ entries) now clock =
      rank_scopes-scopes settings score
        (rank_scope settings score t scope now clock (some revision)).0 entries now clock

  -- The evidence that was ranked never exceeds what was observed.
  abbrev pub IsBounded : List (ScopeStats W) → Type 0
  IsBounded scopes = All (λ s. s.ranked_revision ≤ s.observed_revision) scopes

  abbrev IsClean : List (ScopeStats W) → Type 0
  IsClean scopes = All (λ s. s.ranked_revision ≡ s.observed_revision) scopes

  map-caught_up-IsClean :
      (clock : ℕ) (scopes : List (ScopeStats W))
      → IsBounded scopes
      → IsClean (map (caught_up clock) scopes)
  map-caught_up-IsClean clock [] h = tt
  map-caught_up-IsClean clock (s ∷ scopes) (b, h) =
      let rest = map-caught_up-IsClean clock scopes h in
      elim (Bool-cases (is_dirty s)) [
        | inl e ↦ rw e (refl, rest)
        | inr e ↦ rw e (ground arith, rest)
      ]

  dirty_scopes-IsClean : (scopes : List (ScopeStats W)) → IsClean scopes → dirty_scopes scopes ≡ []
  unfolding dirty_scopes
  dirty_scopes-IsClean [] h = refl
  dirty_scopes-IsClean (s ∷ scopes) (e, h) =
      let clean : is_dirty s ≡ false = ground arith in rw clean (dirty_scopes-IsClean scopes h)

  dirty_scopes-observe_scope :
      (one : W) (sum : W → W → W) (decay : ℕ → W → W) (scope : String) (now : ℕ)
      (scopes : List (ScopeStats W))
      → IsClean scopes
      → dirty_scopes (observe_scope one sum decay scope now scopes)
        ≡ (scope, revision_of scope scopes + 1) ∷ []
  unfolding dirty_scopes observe_scope
  dirty_scopes-observe_scope one sum decay scope now [] h = refl
  dirty_scopes-observe_scope one sum decay scope now (s ∷ scopes) (e, h) =
      elim (Bool-cases (s.scope_key == scope)) [
        | inl same ↦
            let dirty : ltb s.ranked_revision (s.observed_revision + 1) ≡ true = ground arith in
            rw (same, dirty)
              (only_entry ((string_eq.same_iff s.scope_key scope).0 same)
                (dirty_scopes-IsClean scopes h))
        | inr other ↦
            let clean : is_dirty s ≡ false = ground arith in
            rw (other, clean) (dirty_scopes-observe_scope one sum decay scope now scopes h)
      ]

  -- When scope keys are unique and no scope is ranked beyond what was observed, a sweep marks each dirty
  -- scope as ranked at just the revision that it saw and leaves the others, no scope is dirty
  -- afterwards, and a further observation makes exactly its own scope dirty, by one revision.
  pub sweep_once-caught_up :
      (settings : Settings) (score : List ℕ → Option (ℕ × String)) (t : Tables W) (now clock : ℕ)
      → Distinct t.scopes
      → IsBounded t.scopes
      → (let after = (sweep_once settings score t now clock).0.scopes in
          (after ≡ map (caught_up clock) t.scopes)
          × (dirty_scopes after ≡ [])
          × ((one : W) (sum : W → W → W) (decay : ℕ → W → W) (scope : String) (at : ℕ)
              → dirty_scopes (observe_scope one sum decay scope at after)
                ≡ (scope, revision_of scope after + 1) ∷ []))
  unfolding sweep_once
  sweep_once-caught_up settings score t now clock distinct bounded =
      let marked =
        rank_scopes-scopes settings score t (dirty_scopes t.scopes) now clock
        ∙ mark_all-dirty_scopes clock t.scopes distinct in
      let clean = subst IsClean (sym marked) (map-caught_up-IsClean clock t.scopes bounded) in
      let after = (sweep_once settings score t now clock).0.scopes in
      (
        marked,
        dirty_scopes-IsClean after clean,
        λ one sum decay scope at. dirty_scopes-observe_scope one sum decay scope at after clean,
      )
