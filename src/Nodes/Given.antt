-- ===== src/Nodes/Given.antt =====
-- app/nodes/agent_nodes.py, the places that the user chose: `_verify_selected_places` and
-- `load_given_places`. The hub's search is a parameter, from a keyword to its answer.
pub mod Verified
use map_service_agent.Prelude.{
  ℕ, zero, suc, Bool, true, false, ◌&&◌, ◌||◌, not, Option, none, some, List, [], ◌∷◌,
  if◌then◌else◌, take,
}
use map_service_agent.Value.{
  Str, str_eq, strip, Json, null, bool, int, float, str, arr, obj, to_list, get, truthy, Float,
  FloatOps, float_le,
}
use map_service_agent.Failure.{
  Exc, quota_error, structured_output_error, budget_exceeded, cancelled_error, timeout_error,
  timeout_exception, http_status_error, request_error, value_error, type_error, key_error,
  attribute_error, runtime_error, other_error, Result, returned, raised, ◌>>=◌, exception_failure,
  invalid_request,
}
use map_service_agent.Schema.Model.{Place, SelectedPlace, AgentRequest}
use map_service_agent.Nodes.State.{
  AgentState, fail_with, has_error, or_empty, update_failure, route,
  selected_place_could_not_be_verified, stage_route_requires_places,
}
use map_service_agent.Nodes.Input.{is_empty}
use map_service_agent.Nodes.Route.{straight_km}
use map_service_agent.Nodes.Candidates.{Reader, place_from_candidate}

-- 0.1 km
abbrev tenth : Float
tenth = record { bits = 0x3fb999999999999a }

-- `except (httpx.HTTPError, ValueError, TypeError, AttributeError, RuntimeError)`
abbrev pub is_verify_error : Exc → Bool
is_verify_error quota_error = true
is_verify_error (structured_output_error raw truncated) = true
is_verify_error budget_exceeded = true
is_verify_error timeout_exception = true
is_verify_error (http_status_error status body) = true
is_verify_error request_error = true
is_verify_error value_error = true
is_verify_error type_error = true
is_verify_error attribute_error = true
is_verify_error runtime_error = true
is_verify_error _ = false

-- `response.get("places") or []`, and the loop over it: what is in a text or a dict is no candidate,
-- and a number cannot be iterated.
unfoldable pub candidates_in : Json → Result (List Json)
candidates_in (obj fields) =
    let v = get "places" (obj fields) in
    if truthy v
    then elim v [
      | arr items ↦ returned (to_list items)
      | obj inner ↦ returned []
      | str text ↦ returned []
      | null ↦ returned []
      | bool b ↦ raised type_error
      | int n ↦ raised type_error
      | float x ↦ raised type_error
    ]
    else returned []
candidates_in v = raised attribute_error

-- `given.content_id and given.content_id == place.content_id`
abbrev same_id : Str → Option Str → Bool
same_id s none = false
same_id s (some t) = str_eq s t

-- `match = place; break`, or the rest of the loop
abbrev pub or_next : Option Place → Option Place → Option Place
or_next (some p) next = some p
or_next none next = next

module _ (fl : FloatOps) (reader : Reader) where
  abbrev same_location : SelectedPlace → Place → Bool
  same_location given p =
      str_eq (strip given.name) (strip p.name)
      && float_le (straight_km fl given.lat given.lng p.lat p.lng) tenth

  -- `matches_id or matches_location`
  unfoldable pub matches : SelectedPlace → Place → Bool
  matches given p = elim given.content_id [
    | none ↦ same_location given p
    | some s ↦ elim s [ [] ↦ same_location given p | c ∷ cs ↦ same_id (c ∷ cs) p.content_id ]
  ]

  -- One candidate, and the first that matches
  unfoldable pub candidate_match : SelectedPlace → Option Place → Option Place
  candidate_match given none = none
  candidate_match given (some p) = if matches given p then some p else none

  unfoldable pub first_match : ℕ → SelectedPlace → List Json → Option Place
  first_match n given [] = none
  first_match n given (c ∷ cs) =
      or_next (candidate_match given (place_from_candidate reader n c [] given.day))
        (first_match n given cs)

  abbrev pub with_place : Place → Option (List Place) → Option (List Place)
  with_place p none = none
  with_place p (some ps) = some (p ∷ ps)

  module _ (search : AgentRequest → Str → Result Json) where
    -- The loop: `returned none` if a place has no match.
    unfoldable pub verify_from :
        AgentRequest → ℕ → List SelectedPlace → Result (Option (List Place))
    verify_from req n [] = returned (some [])
    verify_from req n (given ∷ selected) = search req (take 40 given.name) >>= (λ response.
        candidates_in response >>= λ cs. elim (first_match n given cs) [
          | none ↦ returned none
          | some p ↦ verify_from req (suc n) selected >>= λ rest. returned (with_place p rest)
        ])

    -- `_verify_selected_places`: the state and the places
    unfoldable pub after_verify :
        AgentState → Result (Option (List Place)) → Result (AgentState × List Place)
    after_verify s (returned (some ps)) = returned (s, ps)
    after_verify s (returned none) =
        returned (fail_with selected_place_could_not_be_verified invalid_request s, [])
    after_verify s (raised e) =
        if is_verify_error e
        then returned (update_failure (exception_failure e) s, [])
        else raised e

    unfoldable pub verify_selected :
        AgentState → List SelectedPlace → Result (AgentState × List Place)
    verify_selected s selected = after_verify s (verify_from s.request 0 selected)

    unfoldable pub with_given : AgentState × List Place → AgentState
    with_given (s, ps) = record s { places = some ps; grounded = some (not (has_error s)) }

    -- The node, once there are places
    unfoldable pub load_verified : AgentState → Result AgentState
    load_verified s =
        verify_selected (record s { selection_path = some route }) (or_empty s.request.places)
        >>= λ verified. returned (with_given verified)

    unfoldable pub load_given_places : AgentState → Result AgentState
    load_given_places s =
        if has_error s
        then returned s
        else if is_empty (or_empty s.request.places)
        then returned (fail_with stage_route_requires_places invalid_request s)
        else load_verified s
