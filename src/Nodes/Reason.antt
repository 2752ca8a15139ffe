-- ===== src/Nodes/Reason.antt =====
-- app/nodes/agent_nodes.py, the texts of the model: `_reason_max_len` and `llm_reason`. The model's
-- client is a parameter, and so is the text of the prompt for a list of places.
pub mod Harmless
use map_service_agent.Prelude.{
  ℕ, zero, suc, ◌+◌, ◌/◌, Bool, true, false, ◌&&◌, ◌||◌, not, Option, none, some, List, [], ◌∷◌,
  ◌++◌, map, if◌then◌else◌, ltb, leb, ◌==◌, min, max, contains, keep,
}
use map_service_agent.Value.{Str, codes, ℤ, pos, negsuc}
use map_service_agent.Failure.{Exc, cancelled_error, budget_exceeded, Result, returned, raised}
use map_service_agent.Schema.Model.{Place, PlaceReason, ReasonEnvelope}
use map_service_agent.Llm.StructuredCall.{Gemini, Ledger, call_structured}
use map_service_agent.Nodes.State.{
  AgentState, Settings, Degraded, llm_budget_exhausted, llm_reason_failed, reason_coverage_partial,
  has_error, or_empty,
}
use map_service_agent.Nodes.Input.{is_empty}

-- `_reason_max_len`
unfoldable pub reason_max_len : ℕ → ℕ
reason_max_len place_count = if place_count == 0 then 200 else max 80 (min 200 (1600 / place_count))

abbrev feedback : Str
feedback =
    codes "<error_feedback>\n아래 <places> 는 직전 응답에서 reason 이 누락된 장소만\n"
    ++ codes "추린 목록입니다. 각 place_id 에 대해 1건씩 작성하십시오.\n</error_feedback>\n"

abbrev pub ids_of : List Place → List ℕ
ids_of places = map (λ p. p.place_id) places

-- The keys of a dict.
abbrev pub keys : List (ℕ × Str) → List ℕ
keys entries = map (λ e. e.0) entries

-- `reasons.setdefault(place_id, text)`
unfoldable pub set_default : ℕ → Str → List (ℕ × Str) → List (ℕ × Str)
set_default pid text reasons =
    if contains (keys reasons) pid then reasons else reasons ++ (pid, text) ∷ []

-- `_collect`, of one reason and of all
unfoldable pub collect_one : List ℕ → ℤ → Str → List (ℕ × Str) → List (ℕ × Str)
collect_one valid (pos pid) text collected =
    if contains valid pid then set_default pid text collected else collected
collect_one valid (negsuc n) text collected = collected

unfoldable pub collect : List ℕ → List PlaceReason → List (ℕ × Str) → List (ℕ × Str)
collect valid [] collected = collected
collect valid (r ∷ rs) collected =
    collect valid rs (collect_one valid r.place_id r.reason collected)

-- The loop that fills in the reasons of the second answer.
unfoldable pub fill : List (ℕ × Str) → List (ℕ × Str) → List (ℕ × Str)
fill [] reasons = reasons
fill ((pid, text) ∷ more) reasons = fill more (set_default pid text reasons)

-- The places without a reason; `missing` is empty if there is none.
abbrev pub remaining_of : List Place → List (ℕ × Str) → List Place
remaining_of places reasons = keep (λ p. not (contains (keys reasons) p.place_id)) places

abbrev or_clothing : Str → Str → Str
or_clothing [] second = second
or_clothing (c ∷ s) second = c ∷ s

-- The end of the node.
unfoldable pub with_reasons : AgentState → List Place → List (ℕ × Str) → Str → AgentState
with_reasons s places reasons clothing =
    let told =
      if is_empty (remaining_of places reasons)
      then s
      else record s { degraded_reason = some reason_coverage_partial } in
    if is_empty reasons
    then told
    else record told { reasons = some reasons; clothing = some clothing }

-- After the second question: only a cancellation is no `Exception`.
unfoldable pub after_second :
    AgentState → List Place → List (ℕ × Str) → Str → Result ReasonEnvelope → Result AgentState
after_second s places reasons clothing (returned env) = returned (
    with_reasons s places (fill (collect (ids_of places) env.reasons []) reasons)
      (or_clothing clothing env.clothing))
after_second s places reasons clothing (raised cancelled_error) = raised cancelled_error
after_second s places reasons clothing (raised e) =
    returned (with_reasons s places reasons clothing)

-- A failure of the first question
unfoldable pub after_failure : AgentState → Exc → Result AgentState
after_failure s budget_exceeded =
    returned (record s { degraded_reason = some llm_budget_exhausted })
after_failure s cancelled_error = raised cancelled_error
after_failure s e = returned (record s { degraded_reason = some (llm_reason_failed e) })

module _ (gemini : Gemini ReasonEnvelope) (cause_text : Str → Str)
    (prompt_of : AgentState → List Place → Str × Str) (settings : Settings) where
  -- `_ask`: the answer, and the state with the calls that it took
  unfoldable pub ask : AgentState → List Place → Str → Result ReasonEnvelope × AgentState
  ask s targets suffix =
      let (system, prompt) = prompt_of s targets in
      let (r, ledger) =
        call_structured gemini cause_text system (prompt ++ suffix)
          settings.gemini_max_calls_per_request s.ledger in
      (r, record s { ledger = ledger })

  unfoldable pub after_first_answer : List Place → AgentState → ReasonEnvelope → Result AgentState
  after_first_answer places s env =
      let reasons = collect (ids_of places) env.reasons [] in
      let remaining = remaining_of places reasons in
      if not (is_empty remaining)
        && ltb s.ledger.llm_calls_used settings.gemini_max_calls_per_request
      then (let (r, t) = ask s remaining feedback in after_second t places reasons env.clothing r)
      else returned (with_reasons s places reasons env.clothing)

  unfoldable pub after_first_ask :
      List Place → Result ReasonEnvelope × AgentState → Result AgentState
  after_first_ask places (returned env, s) = after_first_answer places s env
  after_first_ask places (raised e, s) = after_failure s e

  unfoldable pub llm_reason : AgentState → Result AgentState
  llm_reason s =
      let places = or_empty s.places in
      if has_error s || is_empty places
      then returned s
      else after_first_ask places (ask s places [])
