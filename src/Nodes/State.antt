-- ===== src/Nodes/State.antt =====
-- app/nodes/agent_nodes.py, `AgentState`, and the parts of app/agent_settings.py that the nodes
-- read. A key that is not in the state is `none`.
use map_service_agent.Prelude.{
  ℕ, ◌+◌, ◌-◌, Bool, true, false, Option, none, some, List, [], ◌∷◌, ◌++◌, if◌then◌else◌,
}
use map_service_agent.Value.{Str, mem_str, Json, ℤ}
use map_service_agent.Failure.{Exc, Code, Failure}
use map_service_agent.Schema.Calendar.{ordinal}
use map_service_agent.Schema.Model.{AgentRequest, Place, Leg, TimelineStatus}
use map_service_agent.Llm.StructuredCall.{Ledger}

-- The texts that the nodes write to `error`: those of their own, and a failure code.
pub data ErrorText : Type 0 where
  date_start_must_be_le_date_end : ErrorText
  date_range_must_be_le_14_days : ErrorText
  time_start_must_be_lt_time_end : ErrorText
  selected_place_day_exceeds_the_date_range : ErrorText
  selected_places_must_be_in_day_order : ErrorText
  stage_route_requires_places : ErrorText
  stage_route_requires_at_least_2_places : ErrorText
  selected_place_could_not_be_verified : ErrorText
  no_search_candidates : ErrorText
  insufficient_places_for_the_requested_days : ErrorText
  selection_returned_empty : ErrorText
  recommend_route_has_no_places : ErrorText
  selected_places_exceed_the_time_budget : ErrorText
  verified_places_exceed_the_time_budget : ErrorText
  code_text : Code → ErrorText

pub data SelectionPath : Type 0 where
  select route : SelectionPath

pub data Degraded : Type 0 where
  llm_budget_exhausted : Degraded
  llm_reason_failed : Exc → Degraded
  reason_coverage_partial : Degraded

-- One day of the plan; the indoor ratio is in tenths.
pub record DayPlan : Type 0 where
  pub day : ℕ
  pub target_stops : ℕ
  pub indoor_ratio : ℕ
  pub precipitation_prob : Option ℕ

pub data Pace : Type 0 where
  relaxed normal tight : Pace

pub record Plan : Type 0 where
  pub days : List DayPlan
  pub pace : Pace

-- The entry of one place in the timeline.
pub record Slot : Type 0 where
  pub stay_minutes : ℕ
  pub visit_start : Str
  pub visit_end : Str
  pub stay_source : Option Str

pub record AgentState : Type 0 where
  pub job_id : Str
  pub request : AgentRequest
  pub weather : Option Json
  pub candidates : Option (List Json)
  pub grounded : Option Bool
  pub scores : Option (List (Json × Json))
  pub reviews : Option (List (Json × List Str))
  pub reviews_fetch_used : ℕ
  pub places : Option (List Place)
  pub pinned_content_ids : Option (List Str)
  pub visit_order : Option (List ℕ)
  pub legs : Option (List Leg)
  pub ledger : Ledger
  pub reasons : Option (List (ℕ × Str))
  pub clothing : Option Str
  pub summaries : Option (List (ℕ × List Str))
  pub plan : Option Plan
  pub timeline : Option (List (ℕ × Slot))
  pub timeline_status : Option TimelineStatus
  pub timeline_overflow_days : Option (List ℕ)
  pub warnings : Option (List Str)
  pub degraded_reason : Option Degraded
  pub selection_path : Option SelectionPath
  pub error : Option ErrorText
  pub code : Option Code
  pub retryable : Option Bool

-- The state that `_run_job` gives to the graph.
unfoldable pub initial : Str → AgentRequest → AgentState
initial job_id request = record {
  job_id = job_id;
  request = request;
  weather = none;
  candidates = none;
  grounded = none;
  scores = none;
  reviews = none;
  reviews_fetch_used = 0;
  places = none;
  pinned_content_ids = none;
  visit_order = none;
  legs = none;
  ledger = record { llm_calls_used = 0; llm_usage = [] };
  reasons = none;
  clothing = none;
  summaries = none;
  plan = none;
  timeline = none;
  timeline_status = none;
  timeline_overflow_days = none;
  warnings = none;
  degraded_reason = none;
  selection_path = none;
  error = none;
  code = none;
  retryable = none;
}

pub record Settings : Type 0 where
  pub gemini_max_calls_per_request : ℕ
  pub reviews_enrich_enabled : Bool
  pub reviews_max_places : ℕ
  pub reviews_display : ℕ
  pub reviews_fetch_cap_per_job : ℕ
  pub candidates_max_base : ℕ
  pub candidates_per_day : ℕ
  pub personalization_enabled : Bool
  pub rules_enabled : Bool
  pub timeline_enabled : Bool
  pub timeline_buffer_minutes : ℤ

abbrev pub is_some {ℓ} : {A : Type ℓ} → Option A → Bool
is_some none = false
is_some (some a) = true

-- `bool(state.get("error"))`: no error text is empty
abbrev pub has_error : AgentState → Bool
has_error s = is_some s.error

-- `state.get(key) or []`
abbrev pub or_empty {ℓ} : {A : Type ℓ} → Option (List A) → List A
or_empty none = []
or_empty (some xs) = xs

-- The three assignments that end a node in an error of its own, which is never retryable.
unfoldable pub fail_with : ErrorText → Code → AgentState → AgentState
fail_with e c s = record s { error = some e; code = some c; retryable = some false }

-- `state.update(failure(…))`
unfoldable pub update_failure : Failure → AgentState → AgentState
update_failure f s = record s {
  error = some (code_text f.error);
  code = some f.code;
  retryable = some f.retryable;
}

-- `_num_days`: the days of the trip, both ends included
unfoldable pub num_days : AgentRequest → ℕ
num_days req = ordinal req.date.date_end - ordinal req.date.date_start + 1

-- `_add_warning`
unfoldable pub add_warning : Str → AgentState → AgentState
add_warning message s =
    let warnings = or_empty s.warnings in
    record s {
      warnings = some (if mem_str message warnings then warnings else warnings ++ message ∷ []);
    }
