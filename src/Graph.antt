-- ===== src/Graph.antt =====
-- app/graph/agent_graph.py: the nodes of a job, the edges between them, and a run of the graph from
-- its first node to its end. What each node does is a parameter: the graph only reads the state
-- that a node leaves.
pub mod Runs
pub mod Paths
use map_service_agent.Prelude.{
  ℕ, zero, suc, Bool, true, false, ◌||◌, Option, none, some, List, [], ◌∷◌, if◌then◌else◌,
}
use map_service_agent.Failure.{Result, returned, raised}
use map_service_agent.Nodes.State.{AgentState, has_error}
use map_service_agent.Nodes.Input.{is_route}

pub data Node : Type 0 where
  parse_input fetch_weather plan_strategy load_given_places search_places rules_filter : Node
  score_and_rank recommend_places recommend_route build_timeline fit_time_budget : Node
  llm_reason build_payload publish_done : Node

-- `_route_after`
unfoldable pub route_after : Node → AgentState → Node
route_after next s = if has_error s then build_payload else next

-- `_route_after_weather`
unfoldable pub route_after_weather : AgentState → Node
route_after_weather s =
    if has_error s
    then build_payload
    else if is_route s.request.stage
    then load_given_places
    else plan_strategy

-- `_route_after_time_budget`
unfoldable pub route_after_time_budget : AgentState → Node
route_after_time_budget s =
    if has_error s || is_route s.request.stage then build_payload else llm_reason

-- The edges of `build_graph`; `none` is `END`.
unfoldable pub edge : Node → AgentState → Option Node
edge parse_input s = some (route_after fetch_weather s)
edge fetch_weather s = some (route_after_weather s)
edge plan_strategy s = some search_places
edge load_given_places s = some (route_after recommend_route s)
edge search_places s = some rules_filter
edge rules_filter s = some score_and_rank
edge score_and_rank s = some recommend_places
edge recommend_places s = some (route_after recommend_route s)
edge recommend_route s = some (route_after build_timeline s)
edge build_timeline s = some fit_time_budget
edge fit_time_budget s = some (route_after_time_budget s)
edge llm_reason s = some build_payload
edge build_payload s = some publish_done
edge publish_done s = none

-- A run: the nodes that ran and, unless it stopped for want of fuel, its result.
abbrev pub Run : Type 0
Run = List Node × Option (Result AgentState)

abbrev pub after : Node → Run → Run
after n (trace, result) = (n ∷ trace, result)

module _ (node : Node → AgentState → Result AgentState) where
  unfoldable pub run : (fuel : ℕ) → Node → AgentState → Run
  run zero n s = ([], none)
  run (suc fuel) n s = elim (node n s) [
    | raised e ↦ (n ∷ [], some (raised e))
    | returned t ↦ elim (edge n t) [
      | none ↦ (n ∷ [], some (returned t))
      | some m ↦ after n (run fuel m t)
    ]
  ]

  -- `graph.ainvoke`
  unfoldable pub invoke : AgentState → Run
  invoke s = run 14 parse_input s
