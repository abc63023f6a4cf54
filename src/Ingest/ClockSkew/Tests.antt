-- ===== src/Ingest/ClockSkew/Tests.antt =====
-- ingest/clock_skew.py: a source three minutes behind, and one on time.
use vh26_pixel_perfect.Prelude.{ℕ, String, [], ◌∷◌, List}
use vh26_pixel_perfect.Prelude.Dict.{get}
use vh26_pixel_perfect.Ingest.ClockSkew.Keys.{pair_eq}
use vh26_pixel_perfect.Ingest.ClockSkew.{Settings, Observation, Skews, record_all}
use vh26_pixel_perfect.Ingest.ClockSkew.History.{
  of_key, Summarises, IsSpaced, record_all-Summarises,
}

abbrev settings : Settings
settings = record { clock_skew_warn_ms = 120000; clock_skew_warn_interval = 300000 }

abbrev none_yet : Skews
none_yet = record { rows = []; last_warned_at = [] }

abbrev seen : String → ℕ → ℕ → Observation
seen source fired at = record {
  source = source;
  scope_key = "prod";
  fired_at = fired;
  received = 1000000000;
  monotonic = at;
}

abbrev alerts : List Observation
alerts =
    seen "grafana" 820000000 5000
    ∷ seen "datadog" 1000000000 6000
    ∷ seen "grafana" 810000000 7000
    ∷ []

record_all-Summarises_example :
    (let (after, warnings) = record_all settings none_yet alerts in
      Summarises
        (get ("grafana", "prod") none_yet.rows)
        (of_key ("grafana", "prod") alerts)
        (get ("grafana", "prod") after.rows)
      × IsSpaced settings.clock_skew_warn_ms settings.clock_skew_warn_interval
          (get ("grafana", "prod") none_yet.last_warned_at)
          (of_key ("grafana", "prod") warnings))
record_all-Summarises_example = record_all-Summarises settings ("grafana", "prod") alerts none_yet
