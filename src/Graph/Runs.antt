-- ===== src/Graph/Runs.antt =====
-- app/graph/agent_graph.py: every run ends, and no job ends without a word.
use map_service_agent.Prelude.{
  ℕ, zero, suc, ◌≤◌, ◌<◌, ◌≡◌, ◌⊎◌, refl, ◌||◌, Option, none, some, List, [], ◌∷◌, Bool-cases,
  Option-cases, inl, inr, arith,
}
use map_service_agent.Failure.{Exc, Result, returned, raised}
use map_service_agent.Nodes.State.{AgentState, has_error}
use map_service_agent.Nodes.Input.{is_route}
use map_service_agent.Graph.{
  Node, parse_input, fetch_weather, plan_strategy, load_given_places, search_places, rules_filter,
  score_and_rank, recommend_places, recommend_route, build_timeline, fit_time_budget, llm_reason,
  build_payload, publish_done, route_after, route_after_weather, route_after_time_budget, edge, Run,
  after, run, invoke,
}

-- The nodes that may still run, at most.
abbrev pub rank : Node → ℕ
rank parse_input = 13
rank fetch_weather = 12
rank plan_strategy = 11
rank load_given_places = 11
rank search_places = 10
rank rules_filter = 9
rank score_and_rank = 8
rank recommend_places = 7
rank recommend_route = 6
rank build_timeline = 5
rank fit_time_budget = 4
rank llm_reason = 3
rank build_payload = 2
rank publish_done = 1

rank-pos : (n : Node) → 1 ≤ rank n
rank-pos parse_input = omega arith
rank-pos fetch_weather = omega arith
rank-pos plan_strategy = omega arith
rank-pos load_given_places = omega arith
rank-pos search_places = omega arith
rank-pos rules_filter = omega arith
rank-pos score_and_rank = omega arith
rank-pos recommend_places = omega arith
rank-pos recommend_route = omega arith
rank-pos build_timeline = omega arith
rank-pos fit_time_budget = omega arith
rank-pos llm_reason = omega arith
rank-pos build_payload = omega arith
rank-pos publish_done = omega arith

abbrev Falls : Node → Option Node → Type 0
Falls n none = n ≡ publish_done
Falls n (some m) = rank m < rank n

route_after-rank :
    (m : Node) (s : AgentState) (k : ℕ) → 2 < k → rank m < k → rank (route_after m s) < k
unfolding route_after
route_after-rank m s k h j = elim (Bool-cases (has_error s)) [ inl e ↦ rw e h | inr e ↦ rw e j ]

route_after_weather-rank : (s : AgentState) → rank (route_after_weather s) < 12
unfolding route_after_weather
route_after_weather-rank s = elim (Bool-cases (has_error s)) [
  | inl e ↦ rw e (omega arith)
  | inr e ↦ elim (Bool-cases (is_route s.request.stage)) [
    | inl f ↦ rw (e, f) (omega arith)
    | inr f ↦ rw (e, f) (omega arith)
  ]
]

route_after_time_budget-rank : (s : AgentState) → rank (route_after_time_budget s) < 4
unfolding route_after_time_budget
route_after_time_budget-rank s = elim (Bool-cases (has_error s || is_route s.request.stage)) [
  | inl e ↦ rw e (omega arith)
  | inr e ↦ rw e (omega arith)
]

edge-Falls : (n : Node) (s : AgentState) → Falls n (edge n s)
unfolding edge
edge-Falls parse_input s = route_after-rank fetch_weather s 13 (omega arith) (omega arith)
edge-Falls fetch_weather s = route_after_weather-rank s
edge-Falls plan_strategy s = omega arith
edge-Falls load_given_places s = route_after-rank recommend_route s 11 (omega arith) (omega arith)
edge-Falls search_places s = omega arith
edge-Falls rules_filter s = omega arith
edge-Falls score_and_rank s = omega arith
edge-Falls recommend_places s = route_after-rank recommend_route s 7 (omega arith) (omega arith)
edge-Falls recommend_route s = route_after-rank build_timeline s 6 (omega arith) (omega arith)
edge-Falls build_timeline s = omega arith
edge-Falls fit_time_budget s = route_after_time_budget-rank s
edge-Falls llm_reason s = omega arith
edge-Falls build_payload s = omega arith
edge-Falls publish_done s = refl

edge-rank : (n m : Node) (s : AgentState) → edge n s ≡ some m → rank m < rank n
edge-rank n m s h = let falls = edge-Falls n s in rw h at falls

pub edge-none : (n : Node) (s : AgentState) → edge n s ≡ none → n ≡ publish_done
edge-none n s h = let falls = edge-Falls n s in rw h at falls

-- Each node of the trace ranks below the ones before it, so that none runs twice.
abbrev pub Below : ℕ → List Node → Type 0
Below k [] = Unit
Below k (n ∷ ns) = (rank n < k) × Below (rank n) ns

-- A trace that ends in publishing.
pub data Publishes : List Node → Type 0 where
  now : Publishes (publish_done ∷ [])
  later : {n : Node} {ns : List Node} → Publishes ns → Publishes (n ∷ ns)

-- How a run ends: it publishes last, or the last node raised.
pub data Ended (k : ℕ) : Run → Type 0 where
  published :
      (trace : List Node) (t : AgentState)
      → Below k trace
      → Publishes trace
      → Ended k (trace, some (returned t))
  broken : (trace : List Node) (e : Exc) → Below k trace → Ended k (trace, some (raised e))

Ended-after : (k : ℕ) (n : Node) (r : Run) → rank n < k → Ended (rank n) r → Ended k (after n r)
Ended-after k n _ h (published trace t b p) = published (n ∷ trace) t (h, b) (later p)
Ended-after k n _ h (broken trace e b) = broken (n ∷ trace) e (h, b)

pub Result-cases :
    (r : Result AgentState) → ((t : AgentState) × (r ≡ returned t)) ⊎ ((e : Exc) × (r ≡ raised e))
Result-cases (returned t) = inl (t, refl)
Result-cases (raised e) = inr (e, refl)

module _ (node : Node → AgentState → Result AgentState) where
  pub run-raised :
      (fuel : ℕ) (n : Node) (s : AgentState) (e : Exc)
      → node n s ≡ raised e
      → run node (suc fuel) n s ≡ (n ∷ [], some (raised e))
  unfolding run
  run-raised fuel n s e h = rw (run, h) refl

  pub run-last :
      (fuel : ℕ) (n : Node) (s t : AgentState)
      → node n s ≡ returned t
      → edge n t ≡ none
      → run node (suc fuel) n s ≡ (n ∷ [], some (returned t))
  unfolding run
  run-last fuel n s t h k = rw (run, h, k) refl

  pub run-next :
      (fuel : ℕ) (n m : Node) (s t : AgentState)
      → node n s ≡ returned t
      → edge n t ≡ some m
      → run node (suc fuel) n s ≡ after n (run node fuel m t)
  unfolding run
  run-next fuel n m s t h k = rw (run, h, k) refl

  pub Publishes-last : (n : Node) → n ≡ publish_done → Publishes (n ∷ [])
  Publishes-last n e = rw e now

  run-Ended :
      (fuel k : ℕ) (n : Node) (s : AgentState)
      → rank n ≤ fuel
      → rank n < k
      → Ended k (run node fuel n s)
  run-Ended zero k n s h j = let some_rank = rank-pos n in absurd (omega arith)
  run-Ended (suc fuel) k n s h j = elim (Result-cases (node n s)) [
    | inr (e, r) ↦ rw (run-raised fuel n s e r) (broken (n ∷ []) e (j, tt))
    | inl (t, r) ↦ elim (Option-cases (edge n t)) [
      | inl o ↦
          rw (run-last fuel n s t r o)
            (published (n ∷ []) t (j, tt) (Publishes-last n (edge-none n t o)))
      | inr (m, o) ↦
          let falls = edge-rank n m t o in
          rw (run-next fuel n m s t r o) (
            Ended-after k n (run node fuel m t) j (run-Ended fuel (rank n) m t (omega arith) falls))
    ]
  ]

  -- Whatever the nodes do, a run of the graph ends within its fuel. It never runs a node twice,
  -- and its last node is the one that publishes, success or failure, unless a node raised.
  pub invoke-Ended : (s : AgentState) → Ended 14 (invoke node s)
  unfolding invoke
  invoke-Ended s = run-Ended 14 14 parse_input s (omega arith) (omega arith)
