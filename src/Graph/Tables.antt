-- ===== src/Graph/Tables.antt =====
-- graph/storm_grouping.py: the columns of incidents, edges and incident_groups that it reads and writes. A
-- weight is a number of some fixed unit; it is only compared and added.
use vh26_pixel_perfect.Prelude.{ℕ, Bool, String, string_eq, nat_eq, Option, List}
use vh26_pixel_perfect.Engine.Lifecycle.{IncidentState}

pub record Incident : Type 0 where
  pub incident_id : ℕ
  pub scope_key : String
  pub title : String
  pub severity : String
  pub status : IncidentState
  pub first_alert_at : ℕ
  pub correlation_group_id : Option ℕ

pub record Edge : Type 0 where
  pub src : ℕ
  pub dst : ℕ
  pub weight : ℕ

pub data GroupStatus : Type 0 where
  group_open group_resolved : GroupStatus

-- A title is that of the leading member, with the count of the others.
pub record Group : Type 0 where
  pub group_id : ℕ
  pub scope_key : String
  pub anchor_incident_id : ℕ
  pub root_incident_id : Option ℕ
  pub title : String × ℕ
  pub severity : String
  pub member_count : ℕ
  pub status : GroupStatus
  pub created_at : ℕ
  pub updated_at : ℕ

pub record Tables : Type 0 where
  pub incidents : List Incident
  pub edges : List Edge
  pub groups : List Group

pub record GroupAssignment : Type 0 where
  pub group_id : ℕ
  pub anchor_incident_id : ℕ
  pub member_count : ℕ
  pub created : Bool
