-- ===== src/Nodes/Timeline/Build.antt =====
-- app/nodes/agent_nodes.py, `_dwell_request` and `build_timeline`. The hub's rule for the stays is
-- a parameter: it gives an estimate, of a number of minutes, for the keys that it knows.
use map_service_agent.Prelude.{
  ℕ, zero, suc, ◌+◌, ◌/◌, ◌%◌, Bool, true, false, ◌||◌, not, Option, none, some, List, [], ◌∷◌,
  ◌++◌, map, if◌then◌else◌, ltb, ◌==◌,
}
use map_service_agent.Value.{Str, codes, str_eq, ℤ}
use map_service_agent.Failure.{
  Exc, Result, returned, raised, timeout_exception, http_status_error, request_error, value_error,
}
use map_service_agent.Schema.Model.{Place, Mobility, car, transit, ok, unverified}
use map_service_agent.Nodes.State.{AgentState, Settings, Slot, add_warning, has_error, or_empty}
use map_service_agent.Nodes.Timeline.Visits.{or_zero, plan_timeline}

-- The text of a number.
unfoldable pub digits : (fuel : ℕ) → ℕ → Str
digits zero n = []
digits (suc fuel) n = elim (ltb n 10) [
  | true ↦ (b'0' + n) ∷ []
  | false ↦ digits fuel (n / 10) ++ (b'0' + n % 10) ∷ []
]

abbrev pub no_opening_hours : Str
no_opening_hours = codes "영업시간은 확인하지 않았습니다"

abbrev pub travel_estimated : Str
travel_estimated = codes "자동차·대중교통 이동시간은 추정값입니다"

-- A row of the request, and an estimate of the reply.
pub record DwellRow : Type 0 where
  pub content_id : Str
  pub category_group_code : Option Str
  pub course_minutes : Option ℤ

pub record Estimate : Type 0 where
  pub content_id : Str
  pub stay_minutes : Option ℕ
  pub source : Option Str

abbrev pub or_text : Option Str → Str → Str
or_text none default = default
or_text (some []) default = default
or_text (some (c ∷ s)) default = c ∷ s

-- `p.content_id or f"pid:{p.place_id}"`
unfoldable pub dwell_key : Place → Str
dwell_key p = or_text p.content_id (codes "pid:" ++ digits (suc p.place_id) p.place_id)

unfoldable pub dwell_request : List Place → List DwellRow
dwell_request places =
    map
      (λ p. record {
        content_id = dwell_key p;
        category_group_code = p.category_group_code;
        course_minutes = p.crs_total_min;
      })
      places

-- `by_key.get(key)`: of two estimates for a key the last one holds.
unfoldable pub find_estimate : Str → List Estimate → Option Estimate
find_estimate key [] = none
find_estimate key (e ∷ es) = elim (find_estimate key es) [
  | some f ↦ some f
  | none ↦ if str_eq e.content_id key then some e else none
]

abbrev pub stay_in : Option Estimate → ℕ
stay_in none = 0
stay_in (some e) = or_zero e.stay_minutes

abbrev pub source_in : Option Estimate → Str
source_in none = codes "default"
source_in (some e) = or_text e.source (codes "default")

-- `stay_by_id` and `source_by_id`: of two places with an id the last one holds.
unfoldable pub estimate_of : List Estimate → List Place → ℕ → Option (Option Estimate)
estimate_of es [] pid = none
estimate_of es (p ∷ ps) pid = elim (estimate_of es ps pid) [
  | some found ↦ some found
  | none ↦ if p.place_id == pid then some (find_estimate (dwell_key p) es) else none
]

unfoldable pub stay_by_id : List Estimate → List Place → ℕ → ℕ
stay_by_id es places pid = elim (estimate_of es places pid) [ none ↦ 0 | some e ↦ stay_in e ]

unfoldable pub source_by_id : List Estimate → List Place → ℕ → Str
source_by_id es places pid = elim (estimate_of es places pid) [
  | none ↦ codes "default"
  | some e ↦ source_in e
]

-- `slot["stay_source"] = …` for every slot
abbrev pub with_source : (ℕ → Str) → List (ℕ × Slot) → List (ℕ × Slot)
with_source source [] = []
with_source source ((pid, slot) ∷ timeline) =
    (pid, record slot { stay_source = some (source pid) }) ∷ with_source source timeline

-- `mobility and mobility.value in ("car", "transit")`
abbrev pub is_estimated : Option Mobility → Bool
is_estimated (some car) = true
is_estimated (some transit) = true
is_estimated _ = false

-- `except (httpx.HTTPError, ValueError)`
abbrev pub is_hub_failure : Exc → Bool
is_hub_failure timeout_exception = true
is_hub_failure (http_status_error status body) = true
is_hub_failure request_error = true
is_hub_failure value_error = true
is_hub_failure _ = false

abbrev pub is_empty_list {ℓ} : {A : Type ℓ} → List A → Bool
is_empty_list [] = true
is_empty_list (x ∷ xs) = false

unfoldable pub with_warnings : AgentState → AgentState
with_warnings s =
    let warned = add_warning no_opening_hours s in
    if is_estimated s.request.mobility then add_warning travel_estimated warned else warned

-- After the reply: the timetable of the estimates.
unfoldable pub with_timeline : Settings → List Estimate → AgentState → AgentState
with_timeline settings es s =
    let places = or_empty s.places in
    let (timeline, days) =
      plan_timeline settings s.request places (or_empty s.visit_order) (or_empty s.legs)
        (stay_by_id es places) in
    record s {
      timeline = some (with_source (source_by_id es places) timeline);
      timeline_status = some ok;
      timeline_overflow_days = if is_empty_list days then s.timeline_overflow_days else some days;
    }

unfoldable pub after_reply : Settings → AgentState → Result (List Estimate) → Result AgentState
after_reply settings s (returned es) = returned (with_timeline settings es s)
after_reply settings s (raised e) =
    if is_hub_failure e then returned (record s { timeline_status = some unverified }) else raised e

module _ (estimate_dwell : List DwellRow → Result (List Estimate)) where
  unfoldable pub build_timeline : Settings → AgentState → Result AgentState
  build_timeline settings s =
      if has_error s || not settings.timeline_enabled || is_empty_list (or_empty s.places)
      then returned s
      else after_reply settings (with_warnings s)
          (estimate_dwell (dwell_request (or_empty s.places)))
