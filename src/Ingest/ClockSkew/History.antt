-- ===== src/Ingest/ClockSkew/History.antt =====
-- ingest/clock_skew.py: what the table says of the alerts so far, and how often a source is warned about.
use mathlib.Core.Path.{subst}
use vh26_pixel_perfect.Prelude.{
  ◌⊎◌, ℕ, ◌+◌, ◌-◌, ◌/◌, ◌≤◌, leb, max, Bool, true, false, ◌≡◌, refl, sym, ◌∙◌, ap, String, Option,
  none, some, List, [], ◌∷◌, keep_if, length, ltb, ◌==◌, if◌then◌else◌, arith, Bool-cases, inl, inr,
}
use vh26_pixel_perfect.Prelude.Int.{ℤ, pos, sub_ℕ}
use vh26_pixel_perfect.Prelude.Dict.{Dict, get, put, get-put}
use vh26_pixel_perfect.Ingest.ClockSkew.Keys.{pair_eq}
use vh26_pixel_perfect.Ingest.ClockSkew.{
  Settings, SkewRow, Observation, Skews, key_of, abs, skew_of, upserted, is_recent, should_warn,
  record_skew, record_all,
}

abbrev pub of_key : String × String → List Observation → List Observation
of_key key observations = keep_if (λ o. key_of o == key) observations

-- How far apart the two times of an alert are, in milliseconds, and which way: ahead of ours, or behind.
abbrev pub distance : Observation → ℕ
distance o = (o.fired_at - o.received) / 1000 + (o.received - o.fired_at) / 1000

abbrev pub offset : Observation → ℤ
offset o = sub_ℕ ((o.fired_at - o.received) / 1000) ((o.received - o.fired_at) / 1000)

-- The largest distance, from one that is known.
abbrev pub largest : ℕ → List Observation → ℕ
largest m [] = m
largest m (o ∷ observations) = largest (max m (distance o)) observations

abbrev pub latest : Observation → List Observation → Observation
latest o [] = o
latest o (next ∷ later) = latest next later

-- The row of a source behind the alerts `o` and those later, if it had `samples` and the distance `most`
-- before them.
abbrev pub Counts : ℕ → ℕ → Observation → List Observation → SkewRow → Type 0
Counts samples most o later row =
    (row.samples ≡ samples + length (o ∷ later))
    × (row.max_abs_skew_ms ≡ largest most (o ∷ later))
    × (row.last_skew_ms ≡ offset (latest o later))
    × (row.updated_at ≡ (latest o later).received)

abbrev pub Summarises : Option SkewRow → List Observation → Option SkewRow → Type 0
Summarises before [] after = after ≡ before
Summarises before (o ∷ later) none = ⊥
Summarises none (o ∷ later) (some row) = Counts 0 0 o later row
Summarises (some before) (o ∷ later) (some row) =
    Counts before.samples before.max_abs_skew_ms o later row

-- Each warning is about an alert that is off by the threshold, and since the warning before it about the
-- same source the interval passed.
abbrev pub IsSpaced : ℕ → ℕ → Option ℕ → List Observation → Type 0
IsSpaced threshold interval previous [] = Unit
IsSpaced threshold interval none (o ∷ warnings) =
    (threshold ≤ distance o) × IsSpaced threshold interval (some o.monotonic) warnings
IsSpaced threshold interval (some last) (o ∷ warnings) =
    (threshold ≤ distance o)
    × (interval ≤ o.monotonic - last)
    × IsSpaced threshold interval (some o.monotonic) warnings

abs-sub_ℕ : (n : ℕ) → abs (sub_ℕ 0 n) ≡ 0 + n
abs-sub_ℕ n = ground arith

abs-skew_of : (o : Observation) → abs (skew_of o) ≡ distance o
unfolding skew_of
abs-skew_of o = elim (Bool-cases (leb o.received o.fired_at)) [
  | inl ahead ↦
      let none_behind : o.received - o.fired_at ≡ 0 = ground arith in
      rw ahead (rw none_behind (omega arith))
  | inr behind ↦
      let none_ahead : o.fired_at - o.received ≡ 0 = ground arith in
      rw behind (rw none_ahead (abs-sub_ℕ ((o.received - o.fired_at) / 1000)))
]

pos-sub_ℕ : (n : ℕ) → pos n ≡ sub_ℕ n 0
pos-sub_ℕ n = ground arith

skew_of-offset : (o : Observation) → skew_of o ≡ offset o
unfolding skew_of
skew_of-offset o = elim (Bool-cases (leb o.received o.fired_at)) [
  | inl ahead ↦
      let none_behind : o.received - o.fired_at ≡ 0 = ground arith in
      rw ahead (rw none_behind (pos-sub_ℕ ((o.fired_at - o.received) / 1000)))
  | inr behind ↦
      let none_ahead : o.fired_at - o.received ≡ 0 = ground arith in rw behind (rw none_ahead refl)
]

IsSpaced-cons :
    (threshold interval : ℕ) (previous : Option ℕ) (o : Observation) (warnings : List Observation)
    → ltb (abs (skew_of o)) threshold ≡ false
    → is_recent interval o.monotonic previous ≡ false
    → IsSpaced threshold interval (some o.monotonic) warnings
    → IsSpaced threshold interval previous (o ∷ warnings)
IsSpaced-cons threshold interval none o warnings large calm spaced =
    (ground (arith, abs-skew_of o), spaced)
IsSpaced-cons threshold interval (some last) o warnings large calm spaced =
    (ground (arith, abs-skew_of o), ground arith, spaced)

module _ (settings : Settings) (key : String × String) where
  abbrev AreSpaced : Option ℕ → List Observation → Type 0
  AreSpaced = IsSpaced settings.clock_skew_warn_ms settings.clock_skew_warn_interval

  IsSpaced-later :
      (s : Skews) (o : Observation) (later : List Observation)
      → ltb (abs (skew_of o)) settings.clock_skew_warn_ms ≡ false
      → (is_recent settings.clock_skew_warn_interval o.monotonic (get (key_of o) s.last_warned_at)
          ≡ false)
      → AreSpaced (get key (put (key_of o) o.monotonic s.last_warned_at)) (of_key key later)
      → AreSpaced (get key s.last_warned_at) (of_key key (o ∷ later))
  IsSpaced-later s o later large calm spaced =
      let found = get-put (key_of o) key o.monotonic s.last_warned_at in
      let stored : Bool → Option ℕ =
        λ b. if b then some o.monotonic else get key s.last_warned_at in
      elim (Bool-cases (key_of o == key)) [
        | inl same ↦
            let e : key_of o ≡ key = (pair_eq.same_iff (key_of o) key).0 same in
            rw same (
              IsSpaced-cons settings.clock_skew_warn_ms settings.clock_skew_warn_interval
                (get key s.last_warned_at) o (of_key key later) large
                (ap
                    (λ k.
                      is_recent settings.clock_skew_warn_interval o.monotonic
                        (get k s.last_warned_at))
                    (sym e)
                  ∙ calm)
                (subst (λ p. AreSpaced p (of_key key later)) (found ∙ ap stored same) spaced))
        | inr other ↦
            rw other (subst (λ p. AreSpaced p (of_key key later)) (found ∙ ap stored other) spaced)
      ]

  should_warn-cases :
      (warned : Dict (String × String) ℕ) (o : Observation)
      → (should_warn settings warned o ≡ (warned, false))
        ⊎ ((ltb (abs (skew_of o)) settings.clock_skew_warn_ms ≡ false)
            × (is_recent settings.clock_skew_warn_interval o.monotonic (get (key_of o) warned)
                ≡ false)
            × (should_warn settings warned o ≡ (put (key_of o) o.monotonic warned, true)))
  unfolding should_warn
  should_warn-cases warned o =
      elim (Bool-cases (ltb (abs (skew_of o)) settings.clock_skew_warn_ms)) [
        | inl small ↦ rw small (inl refl)
        | inr large ↦
            elim (Bool-cases
              (is_recent settings.clock_skew_warn_interval o.monotonic (get (key_of o) warned))) [
                | inl recent ↦ rw (large, recent) (inl refl)
                | inr calm ↦ inr (large, calm, rw (large, calm) refl)
              ]
      ]

  record_all-IsSpaced :
      (observations : List Observation) (s : Skews)
      → AreSpaced (get key s.last_warned_at) (of_key key (record_all settings s observations).1)
  unfolding record_all record_skew
  record_all-IsSpaced [] s = tt
  record_all-IsSpaced (o ∷ observations) s =
      let next : Dict (String × String) ℕ → Skews = λ warned. record {
        rows = put (key_of o) (upserted (skew_of o) o.received (get (key_of o) s.rows)) s.rows;
        last_warned_at = warned;
      } in
      let Goal : Dict (String × String) ℕ × Bool → Type 0 = λ w.
        let later = (record_all settings (next w.0) observations).1 in
        AreSpaced (get key s.last_warned_at) (of_key key (if w.1 then o ∷ later else later)) in
      let rest : (warned : Dict (String × String) ℕ)
          → AreSpaced (get key warned)
              (of_key key (record_all settings (next warned) observations).1) =
        λ warned. record_all-IsSpaced observations (next warned) in
      elim (should_warn-cases s.last_warned_at o) [
        | inl e ↦ subst Goal (sym e) (rest s.last_warned_at)
        | inr (large, calm, e) ↦
            let warned = put (key_of o) o.monotonic s.last_warned_at in
            subst Goal (sym e) (
              IsSpaced-later s o (record_all settings (next warned) observations).1 large calm
                (rest warned))
      ]

  -- The row of the key only depends on the alerts of its source.
  after_all : Option SkewRow → List Observation → Option SkewRow
  after_all row [] = row
  after_all row (o ∷ observations) =
      after_all (some (upserted (skew_of o) o.received row)) observations

  get-record_all :
      (observations : List Observation) (s : Skews)
      → get key (record_all settings s observations).0.rows
        ≡ after_all (get key s.rows) (of_key key observations)
  unfolding record_all record_skew after_all
  get-record_all [] s = refl
  get-record_all (o ∷ observations) s =
      let rest = get-record_all observations (record_skew settings s o).0 in
      let row = upserted (skew_of o) o.received (get (key_of o) s.rows) in
      let found = get-put (key_of o) key row s.rows in
      elim (Bool-cases (key_of o == key)) [
        | inl same ↦
            let e : key_of o ≡ key = (pair_eq.same_iff (key_of o) key).0 same in
            rw same (
              rest
              ∙ ap (λ r. after_all r (of_key key observations))
                  (found
                    ∙ ap (λ b. if b then some row else get key s.rows) same
                    ∙ ap (λ k. some (upserted (skew_of o) o.received (get k s.rows))) e))
        | inr other ↦ rw other (
            rest
            ∙ ap (λ r. after_all r (of_key key observations))
                (found ∙ ap (λ b. if b then some row else get key s.rows) other))
      ]

  -- A row that the alert `o` has left, after the later ones.
  after_all-later :
      (row : SkewRow) (o : Observation) (later : List Observation)
      → row.last_skew_ms ≡ offset o
      → row.updated_at ≡ o.received
      → (after : SkewRow) × (after_all (some row) later ≡ some after)
        × (after.samples ≡ row.samples + length later)
        × (after.max_abs_skew_ms ≡ largest row.max_abs_skew_ms later)
        × (after.last_skew_ms ≡ offset (latest o later))
        × (after.updated_at ≡ (latest o later).received)
  unfolding after_all
  after_all-later row o [] last at = (row, refl, omega arith, refl, last, at)
  after_all-later row o (next ∷ later) last at =
      let (after, e, n, m, l, u) =
        after_all-later (upserted (skew_of next) next.received (some row)) next later
          (skew_of-offset next) refl in
      (
        after,
        e,
        omega (arith, n),
        m ∙ ap (λ d. largest (max row.max_abs_skew_ms d) later) (abs-skew_of next),
        l,
        u,
      )

  after_all-Summarises :
      (before : Option SkewRow) (observations : List Observation)
      → Summarises before observations (after_all before observations)
  unfolding after_all
  after_all-Summarises before [] = refl
  after_all-Summarises none (o ∷ later) =
      let (after, e, n, m, l, u) =
        after_all-later (upserted (skew_of o) o.received none) o later (skew_of-offset o) refl in
      let first : abs (skew_of o) ≡ max 0 (distance o) = omega (arith, abs-skew_of o) in
      subst (Summarises none (o ∷ later)) (sym e)
        (omega (arith, n), m ∙ ap (λ d. largest d later) first, l, u)
  after_all-Summarises (some before) (o ∷ later) =
      let (after, e, n, m, l, u) =
        after_all-later (upserted (skew_of o) o.received (some before)) o later (skew_of-offset o)
          refl in
      subst (Summarises (some before) (o ∷ later)) (sym e) (
        omega (arith, n),
        m ∙ ap (λ d. largest (max before.max_abs_skew_ms d) later) (abs-skew_of o),
        l,
        u,
      )

  -- After any sequence of alerts the row of a source in a scope counts the alerts of that source, on top of
  -- those counted before; it holds the largest distance of their times so far, and the offset and the
  -- time of arrival of the last of them; and it is as it was if there were none. Whatever the other
  -- sources did, the source is warned about only for a distance from the threshold on, and between two
  -- warnings about it the interval passed.
  pub record_all-Summarises :
      (observations : List Observation) (s : Skews)
      → (let (after, warnings) = record_all settings s observations in
          Summarises (get key s.rows) (of_key key observations) (get key after.rows)
          × IsSpaced settings.clock_skew_warn_ms settings.clock_skew_warn_interval
              (get key s.last_warned_at)
              (of_key key warnings))
  record_all-Summarises observations s = (
    subst (Summarises (get key s.rows) (of_key key observations))
        (sym (get-record_all observations s))
        (after_all-Summarises (get key s.rows) (of_key key observations)),
    record_all-IsSpaced observations s,
  )
