-- ===== src/Schema/Model.antt =====
-- app/schemas/agent_schemas.py: the models, field by field.
use map_service_agent.Prelude.{ℕ, Bool, Option, List}
use map_service_agent.Value.{Str, Float, ℤ}
use map_service_agent.Failure.{Code}
use map_service_agent.Schema.Calendar.{Date, Time}

pub data Mobility : Type 0 where
  walk bicycle scooter car transit : Mobility

pub record DateRange : Type 0 where
  pub date_start : Date
  pub date_end : Date
  pub time_start : Time
  pub time_end : Time

pub record SelectedPlace : Type 0 where
  pub name : Str
  pub address : Str
  pub lat : Float
  pub lng : Float
  pub day : ℕ
  pub content_id : Option Str
  pub category : Option Str

pub data Stage : Type 0 where
  init mode1 route : Stage

pub record AgentRequest : Type 0 where
  pub date : DateRange
  pub budget : Option ℤ
  pub theme : Option (List Str)
  pub mobility : Option Mobility
  pub province : Str
  pub city : Str
  pub schedule_id : Option Str
  pub stage : Stage
  pub optimize : Bool
  pub exclude : Option (List Str)
  pub places : Option (List SelectedPlace)
  pub loc : Option Str

pub record Place : Type 0 where
  pub place_id : ℕ
  pub day : ℕ
  pub name : Str
  pub address : Str
  pub lat : Float
  pub lng : Float
  pub recommended_visit_time : Str
  pub content_id : Option Str
  pub source : Option Str
  pub category : Option Str
  pub category_group_code : Option Str
  pub phone : Option Str
  pub place_url : Option Str
  pub crs_dstnc_km : Option Float
  pub crs_total_min : Option ℤ
  pub crs_level : Option ℤ
  pub brd_div : Option Str
  pub gpx_url : Option Str
  pub route_idx : Option Str
  pub grounded : Bool
  pub stay_minutes : Option ℕ
  pub visit_start : Option Str
  pub visit_end : Option Str
  pub stay_source : Option Str
  pub reason : Option Str
  pub bullets : Option (List Str)

pub record Leg : Type 0 where
  pub from_place_id : ℕ
  pub to_place_id : ℕ
  pub mode : Mobility
  pub estimated_distance_km : Float
  pub estimated_duration_min : ℕ

-- The answers that the model is asked for.
pub record PlaceSelection : Type 0 where
  pub index : ℕ
  pub day : ℕ
  pub recommended_visit_time : Str

pub record PlacesSelection : Type 0 where
  pub selections : List PlaceSelection

pub record PlaceReason : Type 0 where
  pub place_id : ℤ
  pub reason : Str

pub record ReasonEnvelope : Type 0 where
  pub reasons : List PlaceReason
  pub clothing : Str

pub record PlaceBullets : Type 0 where
  pub place_id : ℤ
  pub bullets : List Str

pub record BulletsEnvelope : Type 0 where
  pub items : List PlaceBullets

pub data JobStatus : Type 0 where
  done failed : JobStatus

pub data TimelineStatus : Type 0 where
  ok trimmed unverified : TimelineStatus

pub record JobDonePayload : Type 0 where
  pub job_id : Str
  pub status : JobStatus
  pub places : Option (List Place)
  pub visit_order : Option (List ℕ)
  pub legs : Option (List Leg)
  pub clothing : Option Str
  pub timeline_status : Option TimelineStatus
  pub warnings : Option (List Str)
  pub error : Option Code
  pub code : Option Code
  pub retryable : Option Bool
