-- ===== src/Graph/Paths.antt =====
-- app/graph/agent_graph.py: the paths that a job takes.
use map_service_agent.Prelude.{
  ℕ, zero, suc, ◌≡◌, refl, ap, ◌∙◌, Bool, true, false, Option, none, some, All, Bool-cases,
  Option-cases, inl, inr,
}
use map_service_agent.Failure.{Result, returned}
use map_service_agent.Schema.Model.{AgentRequest}
use map_service_agent.Nodes.State.{AgentState, has_error}
use map_service_agent.Nodes.Input.{is_route}
use map_service_agent.Graph.{
  Node, parse_input, fetch_weather, plan_strategy, load_given_places, search_places, rules_filter,
  score_and_rank, recommend_places, recommend_route, build_timeline, fit_time_budget, llm_reason,
  build_payload, publish_done, route_after, route_after_weather, route_after_time_budget, edge, run,
  invoke,
}
use map_service_agent.Graph.Runs.{run-next, run-raised, run-last, Result-cases}

-- The nodes that search, rank or ask the model.
abbrev pub is_generative : Node → Bool
is_generative plan_strategy = true
is_generative search_places = true
is_generative rules_filter = true
is_generative score_and_rank = true
is_generative recommend_places = true
is_generative llm_reason = true
is_generative _ = false

route_after-manual :
    (m : Node) (s : AgentState) → is_generative m ≡ false → is_generative (route_after m s) ≡ false
unfolding route_after
route_after-manual m s h = elim (Bool-cases (has_error s)) [ inl e ↦ rw e refl | inr e ↦ rw e h ]

route_after_weather-manual :
    (s : AgentState)
    → is_route s.request.stage ≡ true
    → is_generative (route_after_weather s) ≡ false
unfolding route_after_weather
route_after_weather-manual s r = elim (Bool-cases (has_error s)) [
  | inl e ↦ rw e refl
  | inr e ↦ rw (e, r) refl
]

route_after_time_budget-manual :
    (s : AgentState)
    → is_route s.request.stage ≡ true
    → is_generative (route_after_time_budget s) ≡ false
unfolding route_after_time_budget
route_after_time_budget-manual s r = elim (Bool-cases (has_error s)) [
  | inl e ↦ rw e refl
  | inr e ↦ rw (e, r) refl
]

abbrev IsManual : Option Node → Type 0
IsManual none = Unit
IsManual (some n) = is_generative n ≡ false

edge-IsManual :
    (n : Node) (s : AgentState)
    → is_generative n ≡ false
    → is_route s.request.stage ≡ true
    → IsManual (edge n s)
unfolding edge
edge-IsManual parse_input s g r = route_after-manual fetch_weather s refl
edge-IsManual fetch_weather s g r = route_after_weather-manual s r
edge-IsManual load_given_places s g r = route_after-manual recommend_route s refl
edge-IsManual recommend_route s g r = route_after-manual build_timeline s refl
edge-IsManual build_timeline s g r = refl
edge-IsManual fit_time_budget s g r = route_after_time_budget-manual s r
edge-IsManual build_payload s g r = refl
edge-IsManual publish_done s g r = tt
edge-IsManual plan_strategy s g r = absurd (cc)
edge-IsManual search_places s g r = absurd (cc)
edge-IsManual rules_filter s g r = absurd (cc)
edge-IsManual score_and_rank s g r = absurd (cc)
edge-IsManual recommend_places s g r = absurd (cc)
edge-IsManual llm_reason s g r = absurd (cc)

-- The nodes leave the request as it is.
abbrev pub KeepsRequest : (Node → AgentState → Result AgentState) → Type 0
KeepsRequest node = (n : Node) (s t : AgentState) → node n s ≡ returned t → t.request ≡ s.request

module _ (node : Node → AgentState → Result AgentState) (same : KeepsRequest node) where
  run-manual :
      (fuel : ℕ) (n : Node) (s : AgentState)
      → is_generative n ≡ false
      → is_route s.request.stage ≡ true
      → All (λ m. is_generative m ≡ false) (run node fuel n s).0
  unfolding run
  run-manual zero n s g r = tt
  run-manual (suc fuel) n s g r = elim (Result-cases (node n s)) [
    | inr (e, h) ↦ rw (run-raised node fuel n s e h) (g, tt)
    | inl (t, h) ↦ elim (Option-cases (edge n t)) [
      | inl o ↦ rw (run-last node fuel n s t h o) (g, tt)
      | inr (m, o) ↦
          let kept = same n s t h in
          let route : is_route t.request.stage ≡ true =
            ap (λ (q : AgentRequest). is_route q.stage) kept ∙ r in
          let manual = edge-IsManual n t g route in
          let next : is_generative m ≡ false = rw o at manual in
          rw (run-next node fuel n m s t h o) (g, run-manual fuel m t next route)
    ]
  ]

  -- A job on places that the user chose never searches, ranks or asks the model, whatever happens
  -- in it, where the nodes leave the request as it is.
  pub invoke-manual :
      (s : AgentState)
      → is_route s.request.stage ≡ true
      → All (λ m. is_generative m ≡ false) (invoke node s).0
  unfolding invoke
  invoke-manual s r = run-manual 14 parse_input s refl r
