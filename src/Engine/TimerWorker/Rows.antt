-- ===== src/Engine/TimerWorker/Rows.antt =====
-- engine/timer_worker.py: the rows of the deadlines that are read at start.
use vh26_pixel_perfect.Prelude.{
  ℕ, Bool, true, false, ◌&&◌, ◌≡◌, refl, sym, ◌∙◌, ap, nat_eq, nat_beq, nat_beq_iff, Option, none,
  some, List, [], ◌∷◌, any, if◌then◌else◌, ltb, arith, Bool-cases, Option-cases, inl, inr,
}
use vh26_pixel_perfect.Prelude.Dict.{Dict, get}
use vh26_pixel_perfect.Engine.TimerWorker.{
  IncidentRow, is_acknowledged, is_later, insert_sooner, with_deadline, future_deadlines,
}

-- The deadline of an incident among the selected rows.
abbrev pub row_deadline : ℕ → List (ℕ × ℕ) → Option ℕ
row_deadline i [] = none
row_deadline i ((j, q) ∷ rows) = if nat_beq j i then some q else row_deadline i rows

abbrev pub is_listed : ℕ → List (ℕ × ℕ) → Bool
is_listed i rows = any (λ r. nat_beq r.0 i) rows

abbrev pub IsUnique : List (ℕ × ℕ) → Type 0
IsUnique [] = Unit
IsUnique ((j, q) ∷ rows) = (is_listed j rows ≡ false) × IsUnique rows

-- incident_id is the primary key.
abbrev pub Distinct : Dict ℕ IncidentRow → Type 0
Distinct [] = Unit
Distinct ((j, row) ∷ incidents) = (any (λ r. nat_beq r.0 j) incidents ≡ false) × Distinct incidents

-- The deadline that an incident gets back.
abbrev pub recoverable : ℕ → Option IncidentRow → Option ℕ
recoverable now none = none
recoverable now (some row) =
    if is_acknowledged row.status && is_later now row.quiet_at_ms then row.quiet_at_ms else none

is_listed-insert_sooner :
    (i j q : ℕ) (rows : List (ℕ × ℕ))
    → is_listed i (insert_sooner (j, q) rows) ≡ is_listed i ((j, q) ∷ rows)
unfolding insert_sooner
is_listed-insert_sooner i j q [] = refl
is_listed-insert_sooner i j q ((k, p) ∷ rows) = ground (arith, is_listed-insert_sooner i j q rows)

row_deadline-insert_sooner :
    (i j q : ℕ) (rows : List (ℕ × ℕ))
    → is_listed j rows ≡ false
    → row_deadline i (insert_sooner (j, q) rows) ≡ row_deadline i ((j, q) ∷ rows)
unfolding insert_sooner
row_deadline-insert_sooner i j q [] h = refl
row_deadline-insert_sooner i j q ((k, p) ∷ rows) h =
    ground (arith, row_deadline-insert_sooner i j q rows)

IsUnique-insert_sooner :
    (j q : ℕ) (rows : List (ℕ × ℕ))
    → is_listed j rows ≡ false
    → IsUnique rows
    → IsUnique (insert_sooner (j, q) rows)
unfolding insert_sooner
IsUnique-insert_sooner j q [] h u = (refl, tt)
IsUnique-insert_sooner j q ((k, p) ∷ rows) h (new, u) = elim (Bool-cases (ltb p q)) [
  | inl e ↦ rw e (
    ground (arith, is_listed-insert_sooner k j q rows),
    IsUnique-insert_sooner j q rows (ground arith) u,
  )
  | inr e ↦ rw e (h, (new, u))
]

is_listed-future_deadlines :
    (now i : ℕ) (incidents : Dict ℕ IncidentRow)
    → any (λ r. nat_beq r.0 i) incidents ≡ false
    → is_listed i (future_deadlines now incidents) ≡ false
unfolding future_deadlines
is_listed-future_deadlines now i [] h = refl
is_listed-future_deadlines now i ((j, row) ∷ incidents) h =
    let rest = is_listed-future_deadlines now i incidents (ground arith) in
    elim (Bool-cases (is_acknowledged row.status && is_later now row.quiet_at_ms)) [
      | inr e ↦ rw e rest
      | inl e ↦ elim (Option-cases row.quiet_at_ms) [
        | inl absent ↦ rw (e, absent) rest
        | inr (q, present) ↦
            rw (e, present)
              (is_listed-insert_sooner i j q (future_deadlines now incidents)
                ∙ ground (arith, rest))
      ]
    ]

pub IsUnique-future_deadlines :
    (now : ℕ) (incidents : Dict ℕ IncidentRow)
    → Distinct incidents
    → IsUnique (future_deadlines now incidents)
unfolding future_deadlines
IsUnique-future_deadlines now [] h = tt
IsUnique-future_deadlines now ((j, row) ∷ incidents) (new, h) =
    let rest = IsUnique-future_deadlines now incidents h in
    elim (Bool-cases (is_acknowledged row.status && is_later now row.quiet_at_ms)) [
      | inr e ↦ rw e rest
      | inl e ↦ elim (Option-cases row.quiet_at_ms) [
        | inl absent ↦ rw (e, absent) rest
        | inr (q, present) ↦
            rw (e, present)
              (IsUnique-insert_sooner j q (future_deadlines now incidents)
                (is_listed-future_deadlines now j incidents new) rest)
      ]
    ]

pub row_deadline-none :
    (i : ℕ) (rows : List (ℕ × ℕ)) → is_listed i rows ≡ false → row_deadline i rows ≡ none
row_deadline-none i [] h = refl
row_deadline-none i ((j, q) ∷ rows) h =
    let other : nat_beq j i ≡ false = ground arith in
    rw other (row_deadline-none i rows (ground arith))

is_later-some :
    (b : Bool) (now : ℕ) (o : Option ℕ) → b && is_later now o ≡ true → (q : ℕ) × (o ≡ some q)
is_later-some b now none h = absurd (ground arith)
is_later-some b now (some q) h = (q, refl)

row_deadline-skipped :
    (now i j : ℕ) (row : IncidentRow) (incidents : Dict ℕ IncidentRow)
    → is_acknowledged row.status && is_later now row.quiet_at_ms ≡ false
    → is_listed j (future_deadlines now incidents) ≡ false
    → row_deadline i (future_deadlines now incidents) ≡ recoverable now (get i incidents)
    → row_deadline i (future_deadlines now incidents)
      ≡ recoverable now (get i ((j, row) ∷ incidents))
unfolding get
row_deadline-skipped now i j row incidents e unlisted rest = elim (Bool-cases (nat_beq j i)) [
  | inl same ↦
      rw (same, e)
        (row_deadline-none i (future_deadlines now incidents) (
          ap (λ k. is_listed k (future_deadlines now incidents)) (sym ((nat_beq_iff j i).0 same))
          ∙ unlisted))
  | inr other ↦ rw other rest
]

row_deadline-kept :
    (now i j q : ℕ) (row : IncidentRow) (incidents : Dict ℕ IncidentRow)
    → is_acknowledged row.status && is_later now row.quiet_at_ms ≡ true
    → row.quiet_at_ms ≡ some q
    → row_deadline i (future_deadlines now incidents) ≡ recoverable now (get i incidents)
    → row_deadline i ((j, q) ∷ future_deadlines now incidents)
      ≡ recoverable now (get i ((j, row) ∷ incidents))
unfolding get
row_deadline-kept now i j q row incidents e present rest = elim (Bool-cases (nat_beq j i)) [
  | inl same ↦ rw (same, e) (sym present)
  | inr other ↦ rw other rest
]

pub row_deadline-future_deadlines :
    (now i : ℕ) (incidents : Dict ℕ IncidentRow)
    → Distinct incidents
    → row_deadline i (future_deadlines now incidents) ≡ recoverable now (get i incidents)
unfolding future_deadlines get
row_deadline-future_deadlines now i [] h = refl
row_deadline-future_deadlines now i ((j, row) ∷ incidents) (new, h) =
    let rest = row_deadline-future_deadlines now i incidents h in
    let rows = future_deadlines now incidents in
    let unlisted = is_listed-future_deadlines now j incidents new in
    elim (Bool-cases (is_acknowledged row.status && is_later now row.quiet_at_ms)) [
      | inr e ↦
          rw (future_deadlines, e) (row_deadline-skipped now i j row incidents e unlisted rest)
      | inl e ↦
          let (q, present) = is_later-some (is_acknowledged row.status) now row.quiet_at_ms e in
          rw e (
            ap (λ o. row_deadline i (with_deadline j o rows)) present
            ∙ row_deadline-insert_sooner i j q rows unlisted
            ∙ row_deadline-kept now i j q row incidents e present rest)
    ]
