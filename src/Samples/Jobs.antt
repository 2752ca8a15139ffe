-- ===== src/Samples/Jobs.antt =====
-- Whole jobs, their first checks, their plans, texts and payloads.
use map_service_agent.Prelude.{
  ℕ, ◌≡◌, ◌↔◌, ◌⊎◌, refl, ap, sym, false, Option, none, some, List, [], ◌∷◌, All,
}
use map_service_agent.Value.{Str, codes, Json, str, get}
use map_service_agent.Failure.{invalid_request, timeout_exception, Result, returned, raised}
use map_service_agent.Schema.Calendar.{Date}
use map_service_agent.Schema.Model.{AgentRequest, JobDonePayload, init, route, ReasonEnvelope}
use map_service_agent.Llm.StructuredCall.{Gemini}
use map_service_agent.Nodes.State.{AgentState, ErrorText, Plan, initial}
use map_service_agent.Nodes.Input
use map_service_agent.Nodes.Input.Accept.{IsAcceptable, parse_input-exact, parse_input-verdict}
use map_service_agent.Nodes.Strategy.{daily_of, plan_strategy}
use map_service_agent.Nodes.Strategy.Entries.{AreEntries, AreItems}
use map_service_agent.Nodes.Strategy.Plans.{IsPlanOf, plan_strategy-IsPlanOf}
use map_service_agent.Nodes.Reason.{llm_reason}
use map_service_agent.Nodes.Reason.Harmless.{Outcome, llm_reason-Outcome}
use map_service_agent.Nodes.Payload.{done_payload, failed_payload, payload_of}
use map_service_agent.Nodes.Payload
use map_service_agent.Nodes.Payload.Sent.{IsSent, build_payload-IsSent}
use map_service_agent.Graph.{Node, invoke}
use map_service_agent.Graph.Runs.{Ended, invoke-Ended}
use map_service_agent.Graph.Paths.{is_generative, invoke-manual}
use map_service_agent.Samples.{ops, place, started, routed, settings, rain, weather}

-- Nodes that hand the state on.
abbrev pub idle : Node → AgentState → Result AgentState
idle n s = returned s

invoke-Ended_example : Ended 14 (invoke idle (started init))
invoke-Ended_example = invoke-Ended idle (started init)

same_request : (s t : AgentState) → returned s ≡ returned t → t.request ≡ s.request
same_request s t h = sym (ap request_of h)
  where
    request_of : Result AgentState → AgentRequest
    request_of (returned u) = u.request
    request_of (raised e) = s.request

invoke-manual_example : All (λ m. is_generative m ≡ false) (invoke idle (started route)).0
unfolding initial
invoke-manual_example = invoke-manual idle (λ n s t h. same_request s t h) (started route) refl

parse_input-exact_example :
    ((Input.parse_input (started init)).error ≡ none) ↔ IsAcceptable (started init).request
unfolding initial
parse_input-exact_example = parse_input-exact (started init) refl

parse_input-verdict_example :
    (IsAcceptable (started route).request × (Input.parse_input (started route) ≡ started route))
    ⊎ ((¬ IsAcceptable (started route).request)
        × (e : ErrorText) × (Input.parse_input (started route) ≡ record (started route) {
          error = some e;
          code = some invalid_request;
          retryable = some false;
        }))
unfolding initial
parse_input-verdict_example = parse_input-verdict (started route) refl

abbrev same_text : Json → Str
same_text (str s) = s
same_text _ = []

abbrev no_date : Str → Option Date
no_date s = none

abbrev rainy : AgentState
rainy = record (started init) { weather = some weather }

plan_strategy-IsPlanOf_example :
    (t : AgentState) × (p : Plan) × (plan_strategy ops same_text no_date rainy ≡ returned t)
    × (t.plan ≡ some p)
    × (entries : List (Str × ℕ)) × AreItems (get "daily" weather) (rain ∷ [])
    × AreEntries ops same_text (rain ∷ []) entries
    × IsPlanOf (started init).request entries p
unfolding initial daily_of
plan_strategy-IsPlanOf_example =
    plan_strategy-IsPlanOf ops same_text no_date rainy weather (rain ∷ []) refl refl refl

-- A model that is down.
abbrev silent : Gemini ReasonEnvelope
silent call system prompt = record { result = raised timeout_exception; usage = [] }

llm_reason-Outcome_example :
    Outcome routed (llm_reason silent (λ raw. raw) (λ s ps. ([], [])) settings routed)
llm_reason-Outcome_example =
    llm_reason-Outcome silent (λ raw. raw) (λ s ps. ([], [])) settings routed

abbrev told : AgentState
told = record (started init) {
  places = some (place 1 1 none ∷ []);
  visit_order = some (1 ∷ []);
  legs = some [];
  reasons = some ((1, codes "why") ∷ []);
}

build_payload-IsSent_example :
    (q : JobDonePayload) × (payload_of (Payload.build_payload told) ≡ returned q)
    × IsSent told (place 1 1 none ∷ []) (1 ∷ []) [] q
unfolding initial
build_payload-IsSent_example =
    build_payload-IsSent told (place 1 1 none) [] (1 ∷ []) [] refl refl refl refl
