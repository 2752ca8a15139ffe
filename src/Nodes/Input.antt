-- ===== src/Nodes/Input.antt =====
-- app/nodes/agent_nodes.py, the start of a job: `parse_input`.
pub mod Accept
use map_service_agent.Prelude.{
  ℕ, zero, suc, ◌+◌, ◌-◌, ◌*◌, Bool, true, false, not, ◌&&◌, Option, none, some, List, [], ◌∷◌, map,
  if◌then◌else◌, ltb, leb, ◌==◌, any, length, sort_by,
}
use map_service_agent.Failure.{invalid_request}
use map_service_agent.Schema.Calendar.{Date, ordinal, time_lt}
use map_service_agent.Schema.Model.{
  AgentRequest, SelectedPlace, DateRange, Stage, init, mode1, route,
}
use map_service_agent.Nodes.State.{
  AgentState, fail_with, num_days, or_empty, date_start_must_be_le_date_end,
  date_range_must_be_le_14_days, time_start_must_be_lt_time_end,
  selected_place_day_exceeds_the_date_range, selected_places_must_be_in_day_order,
  stage_route_requires_places, stage_route_requires_at_least_2_places,
}

abbrev pub max_range_days : ℕ
max_range_days = 14

-- Dates are compared by year, month and day.
abbrev pub date_key : Date → ℕ
date_key d = (d.year * 100 + d.month) * 100 + d.day

abbrev pub is_route : Stage → Bool
is_route route = true
is_route _ = false

-- `bool(places)`
abbrev pub is_empty {ℓ} : {A : Type ℓ} → List A → Bool
is_empty [] = true
is_empty (x ∷ xs) = false

abbrev pub nat_list_eq : List ℕ → List ℕ → Bool
nat_list_eq [] [] = true
nat_list_eq (a ∷ xs) (b ∷ ys) = a == b && nat_list_eq xs ys
nat_list_eq _ _ = false

-- `days != sorted(days)`, negated
unfoldable pub in_day_order : List SelectedPlace → Bool
in_day_order places = let days = map (λ p. p.day) places in nat_list_eq days (sort_by (λ d. d) days)

-- The checks of a request that stand after those of its dates and times.
unfoldable pub check_places : AgentState → AgentState
check_places s =
    let req = s.request in
    let places = or_empty req.places in
    if any (λ p. ltb (num_days req) p.day) places
    then fail_with selected_place_day_exceeds_the_date_range invalid_request s
    else if is_route req.stage && not (in_day_order places)
    then fail_with selected_places_must_be_in_day_order invalid_request s
    else if is_route req.stage && is_empty places
    then fail_with stage_route_requires_places invalid_request s
    else if is_route req.stage && ltb (length places) 2
    then fail_with stage_route_requires_at_least_2_places invalid_request s
    else s

unfoldable pub parse_input : AgentState → AgentState
parse_input s =
    let d = s.request.date in
    if ltb (date_key d.date_end) (date_key d.date_start)
    then fail_with date_start_must_be_le_date_end invalid_request s
    else if ltb max_range_days (ordinal d.date_end - ordinal d.date_start)
    then fail_with date_range_must_be_le_14_days invalid_request s
    else if not (time_lt d.time_start d.time_end)
    then fail_with time_start_must_be_lt_time_end invalid_request s
    else check_places s
