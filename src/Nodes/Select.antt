-- ===== src/Nodes/Select.antt =====
-- app/nodes/agent_nodes.py, the selection: `_select_places`, the places that the user keeps, and
-- `recommend_places`. The clients of the model and of the hub and the text of the prompt are
-- parameters.
pub mod Choices
pub mod Itinerary
pub mod Merge
pub mod Coverage
pub mod Finished
pub mod Recommended
use map_service_agent.Prelude.{
  ℕ, zero, suc, ◌+◌, ◌-◌, ◌*◌, Bool, true, false, ◌&&◌, ◌||◌, not, Option, none, some, List, [],
  ◌∷◌, ◌++◌, map, if◌then◌else◌, ltb, leb, ◌==◌, between, length, get_elem?, keep, any, sort_by,
  contains, range, max,
}
use map_service_agent.Value.{Str, mem_str, Json, FloatOps}
use map_service_agent.Failure.{
  Exc, cancelled_error, Result, returned, raised, ◌>>=◌, exception_failure, no_matching_places,
  selection_invalid,
}
use map_service_agent.Schema.Model.{
  Place, PlaceSelection, PlacesSelection, SelectedPlace, AgentRequest, Stage, init, mode1, route,
}
use map_service_agent.Llm.StructuredCall.{Gemini, Ledger, call_structured}
use map_service_agent.Nodes.State.{
  AgentState, DayPlan, Plan, Settings, fail_with, has_error, num_days, or_empty, select,
  update_failure, no_search_candidates, selection_returned_empty,
  insufficient_places_for_the_requested_days,
}
use map_service_agent.Nodes.Input.{is_empty}
use map_service_agent.Nodes.Candidates.{Reader, cap_candidates, place_from_candidate}
use map_service_agent.Nodes.Reviews.{Client, with_reviews}
use map_service_agent.Nodes.Given.{verify_selected}

-- A tuple of `chosen`
pub record Chosen : Type 0 where
  pub index : ℕ
  pub visit_time : Str
  pub day : ℕ

-- The loop over the selections, with the indices that it has seen
unfoldable pub choose : (days count : ℕ) → List ℕ → List PlaceSelection → List Chosen
choose days count seen [] = []
choose days count seen (sel ∷ sels) =
    elim (between 1 days sel.day && (ltb sel.index count && not (contains seen sel.index))) [
      | true ↦
          record { index = sel.index; visit_time = sel.recommended_visit_time; day = sel.day }
          ∷ choose days count (sel.index ∷ seen) sels
      | false ↦ choose days count seen sels
    ]

abbrev pub chosen_place : Reader → ℕ → Chosen → Option Json → Option Place
chosen_place r n c none = none
chosen_place r n c (some candidate) = place_from_candidate r n candidate c.visit_time c.day

-- The loop that builds the places, with the number of those that it has.
unfoldable pub build : Reader → List Json → ℕ → List Chosen → List Place
build r candidates n [] = []
build r candidates n (c ∷ cs) = elim (chosen_place r n c (get_elem? candidates c.index)) [
  | none ↦ build r candidates n cs
  | some p ↦ p ∷ build r candidates (suc n) cs
]

-- The places of an answer
unfoldable pub places_chosen : Reader → ℕ → List Json → List PlaceSelection → List Place
places_chosen r days candidates sels =
    build r candidates 0 (sort_by (λ c. c.day) (choose days (length candidates) [] sels))

unfoldable pub with_chosen : AgentState → List Place → Result AgentState
with_chosen s [] = returned (fail_with selection_returned_empty selection_invalid s)
with_chosen s (p ∷ ps) = returned (record s { places = some (p ∷ ps) })

-- After the model's answer; only a cancellation is no `Exception`.
unfoldable pub after_selection :
    Reader → List Json → AgentState → Result PlacesSelection → Result AgentState
after_selection r candidates s (returned env) =
    with_chosen s (places_chosen r (num_days s.request) candidates env.selections)
after_selection r candidates s (raised cancelled_error) = raised cancelled_error
after_selection r candidates s (raised e) = returned (update_failure (exception_failure e) s)

-- `_candidate_limit`
unfoldable pub candidate_limit : Settings → AgentRequest → ℕ
candidate_limit settings req =
    max settings.candidates_max_base (num_days req * settings.candidates_per_day)

-- `_pinned_places`, as the question whether there are any
unfoldable pub has_pinned : AgentRequest → Bool
has_pinned req = elim req.stage [
  | mode1 ↦ not (is_empty (or_empty req.places))
  | init ↦ false
  | route ↦ false
]

-- `p.content_id for p in pinned if p.content_id`
unfoldable pub content_ids : List Place → List Str
content_ids [] = []
content_ids (p ∷ ps) = elim p.content_id [
  | none ↦ content_ids ps
  | some s ↦ elim s [ [] ↦ content_ids ps | c ∷ cs ↦ (c ∷ cs) ∷ content_ids ps ]
]

-- `_remaining_targets`: the entries of the plan, reduced, and what is left of them
unfoldable pub reduced : List Place → List DayPlan → List DayPlan
reduced pinned [] = []
reduced pinned (d ∷ ds) =
    record d { target_stops = d.target_stops - length (keep (λ p. p.day == d.day) pinned) }
    ∷ reduced pinned ds

abbrev pub targets : List DayPlan → ℕ
targets [] = 0
targets (d ∷ ds) = d.target_stops + targets ds

unfoldable pub remaining_targets : List Place → Option Plan → Option Plan × Bool
remaining_targets pinned none = (none, true)
remaining_targets pinned (some plan) = if is_empty plan.days then (some plan, true) else (
  some (record plan { days = reduced pinned plan.days }),
  ltb 0 (targets (reduced pinned plan.days)),
)

-- `model_copy(update={"place_id": i})` for every place
unfoldable pub renumbered : ℕ → List Place → List Place
renumbered n [] = []
renumbered n (p ∷ ps) = record p { place_id = n } ∷ renumbered (suc n) ps

-- `p.content_id and p.content_id in pinned_ids`
abbrev pub is_repeated : List Str → Option Str → Bool
is_repeated ids none = false
is_repeated ids (some s) = not (is_empty s) && mem_str s ids

-- `_merge_pinned`
unfoldable pub merge_pinned : List Place → List Place → List Place
merge_pinned pinned fresh = renumbered 0 (
    sort_by (λ p. p.day)
      (pinned ++ keep (λ p. not (is_repeated (content_ids pinned) p.content_id)) fresh))

-- The days of the trip that have no place
abbrev pub has_day : List Place → ℕ → Bool
has_day places d = any (λ p. p.day == d) places

-- The last check of `recommend_places`
unfoldable pub check_days : AgentState → AgentState
check_days s =
    let places = or_empty s.places in
    if has_error s
    then s
    else if ltb (length places) 2
        || any (λ d. not (has_day places d)) (range 1 (num_days s.request))
    then fail_with insufficient_places_for_the_requested_days selection_invalid s
    else s

unfoldable pub with_merged : List Place → AgentState → AgentState
with_merged pinned s =
    if not (is_empty pinned) && not (has_error s)
    then record s { places = some (merge_pinned pinned (or_empty s.places)) }
    else s

module _ (fl : FloatOps) (reader : Reader) (search : AgentRequest → Str → Result Json)
    (gemini : Gemini PlacesSelection) (cause_text : Str → Str)
    (prompt_of : AgentState → List Json → Str × Str) (same : Json → Json → Bool) (text : Json → Str)
    (client : Option Client) (settings : Settings) where
  -- The call of the model, with the reviews in the state
  unfoldable pub select_enriched : List Json → AgentState → Result AgentState
  select_enriched candidates enriched =
      let (system, prompt) = prompt_of enriched candidates in
      let (r, ledger) =
        call_structured gemini cause_text system prompt settings.gemini_max_calls_per_request
          enriched.ledger in
      after_selection reader candidates (record enriched { ledger = ledger }) r

  -- `_select_places`
  unfoldable pub select_places : AgentState → List Json → Result AgentState
  select_places s candidates =
      with_reviews same text client settings s candidates >>= select_enriched candidates

  -- The selection from the candidates, or the error that there are none
  unfoldable pub select_from : AgentState → List Json → Result AgentState
  select_from s [] = returned (fail_with no_search_candidates no_matching_places s)
  select_from s (c ∷ cs) =
      let candidates = cap_candidates (c ∷ cs) (candidate_limit settings s.request) in
      select_places (record s { candidates = some candidates; selection_path = some select })
        candidates

  -- The node, with the places that the user keeps
  unfoldable pub recommend_with : AgentState × List Place → Result AgentState
  recommend_with (s, pinned) =
      let ready = record s { pinned_content_ids = some (content_ids pinned) } in
      let (plan, room) = remaining_targets pinned s.plan in
      let planned = if is_empty pinned then ready else record ready { plan = plan } in
      if has_error s
      then returned s
      else if not (is_empty pinned) && not room
      then returned (record planned { places = some pinned })
      else select_from planned (or_empty s.candidates) >>= λ t.
          returned (check_days (with_merged pinned t))

  unfoldable pub recommend_places : AgentState → Result AgentState
  recommend_places s =
      if has_error s
      then returned s
      else if has_pinned s.request
      then verify_selected fl reader search s (or_empty s.request.places) >>= recommend_with
      else recommend_with (s, [])
