-- ===== src/Stream/SseBroker.antt =====
-- stream/sse_broker.py: the events that a dashboard reads behind its cursor. Rows of raw_events stand
-- in the order of their seq. A cursor is a natural number: the code refuses a negative one. Numbers
-- and times of an incident and of an edge are carried along as texts.
pub mod Ids
pub mod Order
pub mod Replay
pub mod Progress
mod Tests
use vh26_pixel_perfect.Prelude.{
  max, ℕ, ◌+◌, ◌*◌, ◌/◌, ◌%◌, ◌||◌, Bool, true, false, String, string_eq, ◌==◌, Option, none, some,
  List, [], ◌∷◌, ◌++◌, ltb, leb, nat_beq, any, keep_if, take, if◌then◌else◌,
}
use vh26_pixel_perfect.Prelude.Dict

-- A row of incidents, as `_incident_payload` copies it.
pub record IncidentRow : Type 0 where
  pub incident_id : String
  pub title : String
  pub summary : String
  pub severity : String
  pub status : String
  pub alert_count : ℕ
  pub quiet_at_ms : Option ℕ
  pub root_cause_hint : Option String
  pub route_decision : Option String
  pub ewma_rate : String
  pub first_alert_at : String
  pub last_alert_at : String
  pub created_at : String
  pub updated_at : String

pub record EdgeRow : Type 0 where
  pub src_incident_id : String
  pub dst_incident_id : String
  pub weight : String
  pub last_seen_at : String

pub record RawEvent : Type 0 where
  pub seq : ℕ
  pub incident_id : String
  pub decision_payload_json : String

-- The tables that the broker reads; edges stand newest first.
pub record Tables : Type 0 where
  pub raw_events : List RawEvent
  pub incidents : List IncidentRow
  pub edges : List EdgeRow

pub data EventData : Type 0 where
  incident_upsert : IncidentRow → EventData
  graph_edge_upsert : List EdgeRow → EventData
  card_update : String → String → EventData
  metrics_update : String → ℕ → String → EventData

pub record StreamEvent : Type 0 where
  pub stream_id : ℕ
  pub data_of : EventData

abbrev pub stride : ℕ
stride = 10

-- COALESCE(MAX(seq), 0)
unfoldable pub max_seq : List RawEvent → ℕ
max_seq [] = 0
max_seq (r ∷ rows) = max r.seq (max_seq rows)

-- `_latest_stream_id`
unfoldable pub latest_stream_id : Tables → ℕ
unfolding max_seq
latest_stream_id tx = max_seq tx.raw_events * stride

unfoldable pub incident_for_event : String → List IncidentRow → Option IncidentRow
incident_for_event id [] = none
incident_for_event id (i ∷ is) = if i.incident_id == id then some i else incident_for_event id is

unfoldable pub edges_for_incident : String → List EdgeRow → List EdgeRow
edges_for_incident id = keep_if (λ e. (e.src_incident_id == id) || (e.dst_incident_id == id))

-- seq > raw_sequence, or seq >= raw_sequence when the cursor stands inside a row.
unfoldable pub is_after : ℕ → RawEvent → Bool
is_after cursor r =
    if nat_beq (cursor % stride) 0 then ltb (cursor / stride) r.seq else leb (cursor / stride) r.seq

abbrev pub event : ℕ → EventData → StreamEvent
event id d = record { stream_id = id; data_of = d }

abbrev pub candidates : Tables → RawEvent → IncidentRow → List StreamEvent
candidates tx r i =
    event (r.seq * stride + 1) (incident_upsert i)
    ∷ event (r.seq * stride + 2) (graph_edge_upsert (edges_for_incident r.incident_id tx.edges))
    ∷ event (r.seq * stride + 3) (card_update r.incident_id r.decision_payload_json)
    ∷ event (r.seq * stride + 4) (metrics_update i.incident_id i.alert_count i.status)
    ∷ []

abbrev pub candidates_if_known : Tables → RawEvent → Option IncidentRow → List StreamEvent
candidates_if_known tx r none = []
candidates_if_known tx r (some i) = candidates tx r i

-- The candidates of a row: none if its incident is unknown.
unfoldable pub events_of : Tables → RawEvent → List StreamEvent
events_of tx r = candidates_if_known tx r (incident_for_event r.incident_id tx.incidents)

abbrev pub beyond : ℕ → List StreamEvent → List StreamEvent
beyond cursor = keep_if (λ e. ltb cursor e.stream_id)

unfoldable pub deltas_of : Tables → ℕ → List RawEvent → List StreamEvent
deltas_of tx cursor [] = []
deltas_of tx cursor (r ∷ rows) = beyond cursor (events_of tx r) ++ deltas_of tx cursor rows

unfoldable pub read_delta_events : Tables → ℕ → ℕ → List StreamEvent
unfolding is_after deltas_of
read_delta_events tx cursor limit =
    deltas_of tx cursor (take limit (keep_if (is_after cursor) tx.raw_events))

-- The cursor behind the events that were delivered.
unfoldable pub cursor_after : ℕ → List StreamEvent → ℕ
cursor_after cursor [] = cursor
cursor_after cursor (e ∷ es) = cursor_after e.stream_id es
