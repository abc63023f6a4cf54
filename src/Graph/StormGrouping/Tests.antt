-- ===== src/Graph/StormGrouping/Tests.antt =====
-- graph/storm_grouping.py: three incidents on concrete rows.
use mathlib.Core.Option.{none-ne-some, some_inj}
use vh26_pixel_perfect.Engine.SilenceSweeper.{is_active}
use vh26_pixel_perfect.Graph.Members.{members_of, in_order}
use vh26_pixel_perfect.Prelude.{arith, ℕ, true, ◌≡◌, ◌≢◌, refl, Option, some, none, [], ◌∷◌, map}
use vh26_pixel_perfect.Engine.Lifecycle.{opened, resolved}
use vh26_pixel_perfect.Graph.Tables.{Incident, Group, group_open, Tables}
use vh26_pixel_perfect.Graph.Neighbours.{strong_neighbours}
use vh26_pixel_perfect.Graph.Merging.{groups_of, merge_groups, oldest_group}
use vh26_pixel_perfect.Graph.Members.Counts.{members_with}
use vh26_pixel_perfect.Graph.StormGrouping.{
  refresh_with, chosen_group, join_group, refresh_group, assign_group,
}
use vh26_pixel_perfect.Graph.StormGrouping.Union.{Unites, assign_group-Unites}
use vh26_pixel_perfect.Graph.StormGrouping.Facts.{IsRefreshed, refresh_group-IsRefreshed}

abbrev database : Incident
database = record {
  incident_id = 1;
  scope_key = "prod";
  title = "db down";
  severity = "critical";
  status = opened;
  first_alert_at = 10;
  correlation_group_id = some 7;
}

abbrev gateway : Incident
gateway = record {
  incident_id = 2;
  scope_key = "prod";
  title = "gateway errors";
  severity = "high";
  status = opened;
  first_alert_at = 20;
  correlation_group_id = none;
}

abbrev pod : Incident
pod = record {
  incident_id = 3;
  scope_key = "prod";
  title = "pod restarts";
  severity = "low";
  status = resolved;
  first_alert_at = 30;
  correlation_group_id = some 7;
}

abbrev storm : Group
storm = record {
  group_id = 7;
  scope_key = "prod";
  anchor_incident_id = 1;
  root_incident_id = none;
  title = ("", 0);
  severity = "medium";
  member_count = 1;
  status = group_open;
  created_at = 11;
  updated_at = 11;
}

abbrev tables : Tables
tables = record {
  incidents = database ∷ gateway ∷ pod ∷ [];
  edges = record { src = 1; dst = 2; weight = 30 } ∷ [];
  groups = storm ∷ [];
}

gateway-neighbours : strong_neighbours 15 tables 2 "prod" ≡ 1 ∷ []
unfolding strong_neighbours is_active
gateway-neighbours = refl

gateway-group :
    map (λ i. i.correlation_group_id) (assign_group 15 tables 2 "prod" 9 50).0.incidents
    ≡ some 7 ∷ some 7 ∷ some 7 ∷ []
unfolding assign_group strong_neighbours is_active refresh_group refresh_with members_of in_order
    join_group chosen_group groups_of merge_groups oldest_group
gateway-group = refl

seven-ne-nine : ◌≢◌ {A = Option ℕ} (some 7) (some 9)
seven-ne-nine e = omega (arith, some_inj.0 e)

assign_group-Unites_example : Unites 15 tables 2 "prod" 9 50 (1 ∷ [])
assign_group-Unites_example =
    assign_group-Unites 15 tables 2 "prod" 9 50 1 [] gateway-neighbours
      (seven-ne-nine, (none-ne-some 9, (seven-ne-nine, tt)))

refresh_group-IsRefreshed_example :
    ((refresh_group tables 7 50).1 ≡ members_with (λ _. true) tables.incidents 7)
    × IsRefreshed tables.incidents 7 (refresh_group tables 7 50).0.groups
refresh_group-IsRefreshed_example = refresh_group-IsRefreshed tables 7 50
