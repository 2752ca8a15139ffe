-- ===== src/Samples/Summaries.antt =====
-- Places with and without reviews, and what a model makes of them.
use map_service_agent.Prelude.{refl, true, none, some, List, [], ◌∷◌, map}
use map_service_agent.Value.{Str, codes, Json, str, null, pos}
use map_service_agent.Failure.{returned}
use map_service_agent.Schema.Model.{PlaceBullets, BulletsEnvelope}
use map_service_agent.Llm.StructuredCall.{Gemini}
use map_service_agent.Nodes.State.{or_empty}
use map_service_agent.Summary.{
  SummaryPlace, SummaryState, SummarySettings, prepare_places, collect_bullets, invoke_summary,
}
use map_service_agent.Summary.Views.{AreViews, prepare_places-AreViews}
use map_service_agent.Summary.Lines.{AreCollected, collect_bullets-AreCollected}
use map_service_agent.Service.Admission.Decided.{IsTrusted}
use map_service_agent.Service.Summaries.{
  SummaryPlaceRequest, place_of_request, initial_summary, run_summary, summarize_places_reviews,
}
use map_service_agent.Service.Summaries.Answers.{Answered, summarize_places_reviews-Answered}

abbrev settings : SummarySettings
settings = record { summary_max_places = 5; summary_max_llm_calls = 1 }

abbrev summary_place : List Json → SummaryPlace
summary_place snippets = record { name = codes "<Cafe>"; category = none; snippets = some snippets }

-- The second place has no usable review.
abbrev asked : SummaryState
asked = record {
  places =
      summary_place (str (codes "good") ∷ [])
      ∷ summary_place (str (codes " ") ∷ null ∷ [])
      ∷ summary_place (str (codes "quiet") ∷ [])
      ∷ [];
  views = none;
  valid_ids = none;
  ledger = record { llm_calls_used = 0; llm_usage = [] };
  items = none;
  bullets = none;
  skipped_reason = none;
}

prepare_places-AreViews_example :
    AreViews 5 asked.places
      (or_empty (prepare_places settings asked).views)
      (or_empty (prepare_places settings asked).valid_ids)
prepare_places-AreViews_example = prepare_places-AreViews settings asked

abbrev two_lines : PlaceBullets
two_lines = record {
  place_id = pos 2;
  bullets = codes "a" ∷ codes " " ∷ codes "b" ∷ codes "c" ∷ [];
}

abbrev told : SummaryState
told = record asked {
  valid_ids = some (0 ∷ 2 ∷ []);
  items = some (two_lines ∷ record two_lines { place_id = pos 1 } ∷ two_lines ∷ []);
}

collect_bullets-AreCollected_example :
    AreCollected (0 ∷ 2 ∷ []) (or_empty told.items) (or_empty (collect_bullets told).bullets)
collect_bullets-AreCollected_example = collect_bullets-AreCollected told refl

abbrev gemini : Gemini BulletsEnvelope
gemini call system prompt = record {
  result = returned (record { items = two_lines ∷ [] });
  usage = [];
}

abbrev as_is : Str → Str
as_is s = s

abbrev dumps : Json → Str
dumps v = codes "[]"

abbrev asked_for : SummaryPlaceRequest
asked_for = record {
  place_name = codes "Cafe";
  category = none;
  reviews = record { title = []; description = codes "good" } ∷ [];
}

abbrev requests : List SummaryPlaceRequest
requests = asked_for ∷ asked_for ∷ asked_for ∷ []

summarize_places_reviews-Answered_example :
    Answered
      (IsTrusted none none)
      (invoke_summary gemini as_is dumps [] settings (initial_summary requests))
      5
      (map place_of_request requests)
      (summarize_places_reviews
        (run_summary (invoke_summary gemini as_is dumps [] settings) true)
        none
        none
        requests)
summarize_places_reviews-Answered_example =
    summarize_places_reviews-Answered settings gemini as_is dumps [] none none true requests
