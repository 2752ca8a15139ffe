-- ===== src/Samples/Selections.antt =====
-- Candidates, the places that the user chose, and selections.
use map_service_agent.Prelude.{◌≡◌, refl, true, false, Option, none, some, List, [], ◌∷◌}
use map_service_agent.Value.{Str, codes, Json, float, Float}
use map_service_agent.Failure.{returned}
use map_service_agent.Sanitize.{is_control, is_tag, neutralize, neutralize_tags}
use map_service_agent.Sanitize.Output.{forbidden_text, is_forbidden}
use map_service_agent.Schema.Model.{Place, PlaceSelection, PlacesSelection, init, route}
use map_service_agent.Schema.Check.{allowed, in_korea, sizes_allowed, texts_allowed, validated}
use map_service_agent.Nodes.State.{AgentState, initial, or_empty, num_days}
use map_service_agent.Nodes.State
use map_service_agent.Nodes.Candidates.{
  Reader, is_verified_source, place_from_candidate, place_of, source_id, source_of,
}
use map_service_agent.Nodes.Given.{
  after_verify, candidate_match, candidates_in, first_match, load_given_places, load_verified,
  matches, verify_from, verify_selected, with_given,
}
use map_service_agent.Nodes.Given.Verified.{AreVerified, load_given_places-AreVerified}
use map_service_agent.Nodes.Select.{merge_pinned, places_chosen, recommend_places}
use map_service_agent.Nodes.Select.Itinerary.{IsItinerary, places_chosen-IsItinerary}
use map_service_agent.Nodes.Select.Merge.{IsMerged, merge_pinned-IsMerged}
use map_service_agent.Nodes.Select.Recommended.{Recommends, recommend_places-Recommends}
use map_service_agent.Llm.StructuredCall.{Gemini}
use map_service_agent.Samples.{
  answer, candidate, given, ops, place, request, settings, seoul_lat, seoul_lng,
}

-- A reader of floats alone.
abbrev floats : Reader
floats = record { number = only; optional_float = λ v. some none; optional_int = λ v. some none }
  where
    only : Json → Option Float
    only (float x) = some x
    only v = none

abbrev chosen_route : AgentState
chosen_route = initial (codes "job-2") (record (request route) { places = some (given ∷ []) })

abbrev loaded : AgentState
loaded = record chosen_route {
  selection_path = some State.route;
  places = some (
      place_of 0 [] 2 (record {
        name = codes "Cafe";
        address = [];
        lat = seoul_lat;
        lng = seoul_lng;
        content_id = codes "k1";
        source = some (codes "kakao");
        category = none;
        category_group_code = none;
        phone = none;
        place_url = none;
        crs_dstnc_km = none;
        crs_total_min = none;
        crs_level = none;
        brd_div = none;
        gpx_url = none;
        route_idx = none;
      })
      ∷ []);
  grounded = some true;
}

load_given_places-AreVerified_example :
    (ps : List Place) × (loaded.places ≡ some ps)
    × (loaded.grounded ≡ some true)
    × AreVerified ops floats (λ req keyword. returned answer) chosen_route.request 0 (given ∷ []) ps
unfolding initial load_given_places load_verified verify_selected verify_from candidates_in
    first_match candidate_match matches place_from_candidate source_of is_verified_source source_id
    validated in_korea sizes_allowed texts_allowed allowed forbidden_text is_forbidden neutralize
    neutralize_tags is_control is_tag after_verify with_given place_of
load_given_places-AreVerified_example =
    load_given_places-AreVerified ops floats (λ req keyword. returned answer) chosen_route loaded
      refl refl refl

abbrev picks : List PlaceSelection
picks =
    record { index = 0; day = 2; recommended_visit_time = [] }
    ∷ record { index = 7; day = 1; recommended_visit_time = [] }
    ∷ []

places_chosen-IsItinerary_example :
    IsItinerary floats 2 (candidate ∷ []) picks (places_chosen floats 2 (candidate ∷ []) picks)
places_chosen-IsItinerary_example = places_chosen-IsItinerary floats 2 (candidate ∷ []) picks

merge_pinned-IsMerged_example :
    IsMerged
      (place 0 2 (some (codes "k1")) ∷ [])
      (place 0 1 none ∷ place 1 2 (some (codes "k1")) ∷ [])
      (merge_pinned
        (place 0 2 (some (codes "k1")) ∷ [])
        (place 0 1 none ∷ place 1 2 (some (codes "k1")) ∷ []))
merge_pinned-IsMerged_example =
    merge_pinned-IsMerged (place 0 2 (some (codes "k1")) ∷ [])
      (place 0 1 none ∷ place 1 2 (some (codes "k1")) ∷ [])

-- A model that picks the candidates of both days.
abbrev picker : Gemini PlacesSelection
picker call system prompt = record { result = returned (record { selections = picks }); usage = [] }

abbrev searched : AgentState
searched = record (initial (codes "job-3") (request init)) {
  candidates = some (candidate ∷ []);
  grounded = some true;
}

abbrev prompts : AgentState → List Json → Str × Str
prompts s cs = ([], [])

recommend_places-Recommends_example :
    Recommends ops floats
      (λ req keyword. returned answer)
      picker
      (λ c. c)
      prompts
      (λ a b. false)
      (λ v. [])
      none
      settings
      searched
      (recommend_places ops floats
        (λ req keyword. returned answer)
        picker
        (λ c. c)
        prompts
        (λ a b. false)
        (λ v. [])
        none
        settings
        searched)
recommend_places-Recommends_example =
    recommend_places-Recommends ops floats (λ req keyword. returned answer) picker (λ c. c) prompts
      (λ a b. false) (λ v. []) none settings searched
