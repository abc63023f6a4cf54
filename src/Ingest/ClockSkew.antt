-- ===== src/Ingest/ClockSkew.antt =====
-- ingest/clock_skew.py: how far the clock of each source sits from ours. Times are microseconds, the offset
-- is cut to milliseconds towards zero; the rounding of total_seconds, a float, is left out. The table and
-- the times of the last warnings are maps by source and scope.
pub mod Keys
pub mod History
mod Tests
use vh26_pixel_perfect.Prelude.{
  ℕ, ◌+◌, ◌-◌, ◌/◌, max, Bool, true, false, ◌&&◌, not, String, string_eq, Option, none, some, List,
  [], ◌∷◌, ltb, leb, Keyed, ◌==◌, if◌then◌else◌,
}
use vh26_pixel_perfect.Prelude.Int.{ℤ, pos, negsuc, sub_ℕ}
use vh26_pixel_perfect.Prelude.Dict.{Dict, get, put}
use vh26_pixel_perfect.Ingest.ClockSkew.Keys.{pair_eq}

pub record Settings : Type 0 where
  pub clock_skew_warn_ms : ℕ
  pub clock_skew_warn_interval : ℕ

pub record SkewRow : Type 0 where
  pub last_skew_ms : ℤ
  pub max_abs_skew_ms : ℕ
  pub samples : ℕ
  pub updated_at : ℕ

-- An alert's two times, and the monotonic clock when it is recorded.
pub record Observation : Type 0 where
  pub source : String
  pub scope_key : String
  pub fired_at : ℕ
  pub received : ℕ
  pub monotonic : ℕ

pub record Skews : Type 0 where
  pub rows : Dict (String × String) SkewRow
  pub last_warned_at : Dict (String × String) ℕ

abbrev pub key_of : Observation → String × String
key_of o = (o.source, o.scope_key)

abbrev pub abs : ℤ → ℕ
abs (pos n) = n
abs (negsuc n) = n + 1

unfoldable pub skew_of : Observation → ℤ
skew_of o =
    if leb o.received o.fired_at
    then pos ((o.fired_at - o.received) / 1000)
    else sub_ℕ 0 ((o.received - o.fired_at) / 1000)

-- INSERT ... ON CONFLICT DO UPDATE
abbrev pub upserted : ℤ → ℕ → Option SkewRow → SkewRow
upserted skew now none = record {
  last_skew_ms = skew;
  max_abs_skew_ms = abs skew;
  samples = 1;
  updated_at = now;
}
upserted skew now (some row) = record {
  last_skew_ms = skew;
  max_abs_skew_ms = max row.max_abs_skew_ms (abs skew);
  samples = row.samples + 1;
  updated_at = now;
}

abbrev pub is_recent : ℕ → ℕ → Option ℕ → Bool
is_recent interval now none = false
is_recent interval now (some previous) = ltb (now - previous) interval

unfoldable pub should_warn :
    Settings → Dict (String × String) ℕ → Observation → Dict (String × String) ℕ × Bool
unfolding skew_of
should_warn settings warned o =
    if ltb (abs (skew_of o)) settings.clock_skew_warn_ms
    then (warned, false)
    else if is_recent settings.clock_skew_warn_interval o.monotonic (get (key_of o) warned)
    then (warned, false)
    else (put (key_of o) o.monotonic warned, true)

-- The tables afterwards, whether a warning is logged, and the skew.
unfoldable pub record_skew : Settings → Skews → Observation → Skews × Bool × ℤ
unfolding should_warn skew_of
record_skew settings s o =
    let skew = skew_of o in
    let (warned, warns) = should_warn settings s.last_warned_at o in
    (
      record {
        rows = put (key_of o) (upserted skew o.received (get (key_of o) s.rows)) s.rows;
        last_warned_at = warned;
      },
      warns,
      skew,
    )

-- A sequence of alerts, with the observations that were warned about.
unfoldable pub record_all : Settings → Skews → List Observation → Skews × List Observation
unfolding record_skew
record_all settings s [] = (s, [])
record_all settings s (o ∷ observations) =
    let (s1, warns, _) = record_skew settings s o in
    let (s2, later) = record_all settings s1 observations in
    (s2, if warns then o ∷ later else later)
