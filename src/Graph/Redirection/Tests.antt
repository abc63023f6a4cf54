-- ===== src/Graph/Redirection/Tests.antt =====
-- engine/process_event.py: the gateway of the storm tests, after its card was posted.
use vh26_pixel_perfect.Prelude.{some, none, List, [], ◌∷◌, String, Option}
use vh26_pixel_perfect.Outbox.Tables.{RowStatus, pending, sent}
use vh26_pixel_perfect.Engine.Lifecycle.{opened}
use vh26_pixel_perfect.Graph.Tables.{Incident, Tables}
use vh26_pixel_perfect.Graph.Redirection.{OutboxRow, correlate}
use vh26_pixel_perfect.Graph.Redirection.Anchored.{Anchors, correlate-Anchors}

abbrev database : Incident
database = record {
  incident_id = 1;
  scope_key = "prod";
  title = "db down";
  severity = "critical";
  status = opened;
  first_alert_at = 10;
  correlation_group_id = none;
}

abbrev gateway : Incident
gateway = record {
  incident_id = 2;
  scope_key = "prod";
  title = "gateway errors";
  severity = "high";
  status = opened;
  first_alert_at = 20;
  correlation_group_id = none;
}

abbrev tables : Tables
tables = record {
  incidents = database ∷ gateway ∷ [];
  edges = record { src = 1; dst = 2; weight = 30 } ∷ [];
  groups = [];
}

abbrev card : RowStatus → Option String → OutboxRow
card status ref = record {
  incident_id = 2;
  channel = "slack";
  action = "post_card";
  status = status;
  external_ref = ref;
  merged_into = none;
  next_attempt_at = 30;
  priority = 1;
  origin_channel = none;
}

abbrev rows : List OutboxRow
rows = card sent (some "ts") ∷ card pending none ∷ []

correlate-Anchors_example :
    (let (_, assignment, after) = correlate 15 tables rows 2 "prod" 9 50 in
      Anchors 2 rows assignment after)
correlate-Anchors_example = correlate-Anchors 15 tables rows 2 "prod" 9 50
