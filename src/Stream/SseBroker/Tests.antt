-- ===== src/Stream/SseBroker/Tests.antt =====
-- Tests of stream/sse_broker.py.
use vh26_pixel_perfect.Prelude.{ℕ, ◌≡◌, ◌≢◌, refl, none, List, [], ◌∷◌, ◌++◌, map, arith, All}
use vh26_pixel_perfect.Stream.SseBroker.{
  Tables, IncidentRow, StreamEvent, read_delta_events, is_after, deltas_of, events_of,
  incident_for_event, edges_for_incident, cursor_after,
}
use vh26_pixel_perfect.Stream.SseBroker.Ids.{outstanding, every_event}
use vh26_pixel_perfect.Stream.SseBroker.Replay.{read_delta_events-Resumes}
use vh26_pixel_perfect.Stream.SseBroker.Progress.{IsKnown, read_delta_events-Progress}

abbrev incident : IncidentRow
incident = record {
  incident_id = "a";
  title = "api — HighLatency";
  summary = "";
  severity = "high";
  status = "OPEN";
  alert_count = 2;
  quiet_at_ms = none;
  root_cause_hint = none;
  route_decision = none;
  ewma_rate = "0";
  first_alert_at = "";
  last_alert_at = "";
  created_at = "";
  updated_at = "";
}

abbrev tx : Tables
tx = record {
  raw_events =
      record { seq = 1; incident_id = "a"; decision_payload_json = "{}" }
      ∷ record { seq = 2; incident_id = "a"; decision_payload_json = "{}" }
      ∷ record { seq = 3; incident_id = "a"; decision_payload_json = "{}" }
      ∷ [];
  incidents = incident ∷ [];
  edges = [];
}

abbrev ids : List StreamEvent → List ℕ
ids = map (λ e. e.stream_id)

-- Behind the second event of the first row, with a limit of two rows.
resumed : ids (read_delta_events tx 12 2) ≡ 13 ∷ 14 ∷ 21 ∷ 22 ∷ 23 ∷ 24 ∷ []
unfolding read_delta_events is_after deltas_of events_of incident_for_event edges_for_incident
resumed = refl

-- A cursor of 10 has seen all of the first row.
row_seen : ids (read_delta_events tx 10 1) ≡ 21 ∷ 22 ∷ 23 ∷ 24 ∷ []
unfolding read_delta_events is_after deltas_of events_of incident_for_event edges_for_incident
row_seen = refl

read_delta_events-Resumes_example :
    read_delta_events tx 12 2 ++ outstanding tx (cursor_after 12 (read_delta_events tx 12 2))
    ≡ outstanding tx 12
read_delta_events-Resumes_example =
    read_delta_events-Resumes tx 12 2
      ((omega arith, (omega arith, tt)), ((omega arith, tt), (tt, tt)))

some_outstanding : outstanding tx 12 ≢ []
unfolding every_event events_of incident_for_event edges_for_incident
some_outstanding = λ e. cc

IsKnown-All : All (IsKnown tx) tx.raw_events
unfolding events_of incident_for_event edges_for_incident
IsKnown-All = ((incident, refl), ((incident, refl), ((incident, refl), tt)))

read_delta_events-Progress_example : read_delta_events tx 12 2 ≢ []
read_delta_events-Progress_example =
    read_delta_events-Progress tx 12 2
      ((omega arith, (omega arith, tt)), ((omega arith, tt), (tt, tt))) IsKnown-All (omega arith)
      some_outstanding
