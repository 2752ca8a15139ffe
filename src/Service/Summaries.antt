-- ===== src/Service/Summaries.antt =====
-- app/main.py: `_run_summary` and the two endpoints of summaries. The summary graph is a parameter,
-- which Summary models.
pub mod Lines
pub mod Answers
use map_service_agent.Prelude.{
  ℕ, Bool, true, false, Option, none, some, List, [], ◌∷◌, map, ◌==◌, if◌then◌else◌, sort_by,
}
use map_service_agent.Value.{Str, str}
use map_service_agent.Failure.{
  Exc, quota_error, budget_exceeded, cancelled_error, Result, returned, raised, ◌>>=◌,
}
use map_service_agent.Nodes.State.{or_empty}
use map_service_agent.Summary.{SummaryPlace, SummaryState}
use map_service_agent.Service.Admission.{
  Answer, going_on, http_exception, verify_internal_token, unless_refused,
}

pub record ReviewSnippet : Type 0 where
  pub title : Str
  pub description : Str

-- `SummaryPlaceRequest` and `ReviewsSummaryRequest`
pub record SummaryPlaceRequest : Type 0 where
  pub place_name : Str
  pub category : Option Str
  pub reviews : List ReviewSnippet

unfoldable pub place_of_request : SummaryPlaceRequest → SummaryPlace
place_of_request p = record {
  name = p.place_name;
  category = p.category;
  snippets = some (map (λ r. str r.description) p.reviews);
}

-- The state that `_run_summary` gives to the graph
unfoldable pub initial_summary : List SummaryPlaceRequest → SummaryState
initial_summary places = record {
  places = map place_of_request places;
  views = none;
  valid_ids = none;
  ledger = record { llm_calls_used = 0; llm_usage = [] };
  items = none;
  bullets = none;
  skipped_reason = none;
}

-- Which exceptions become which status; a cancellation is no `Exception`.
unfoldable pub status_of_exception : Exc → Result (Answer (List (ℕ × List Str)))
status_of_exception budget_exceeded = returned (http_exception 429)
status_of_exception quota_error = returned (http_exception 429)
status_of_exception cancelled_error = raised cancelled_error
status_of_exception _ = returned (http_exception 502)

unfoldable pub bullets_of : Result SummaryState → Result (Answer (List (ℕ × List Str)))
bullets_of (returned t) = returned (going_on (or_empty t.bullets))
bullets_of (raised e) = status_of_exception e

-- `_run_summary`
unfoldable pub run_summary :
    (invoke : SummaryState → Result SummaryState) (enabled : Bool)
    → List SummaryPlaceRequest
    → Result (Answer (List (ℕ × List Str)))
run_summary invoke enabled places =
    if enabled then bullets_of (invoke (initial_summary places)) else returned (going_on [])

-- `bullets.get(0, [])`
abbrev pub lines_at {ℓ} : {A : Type ℓ} → ℕ → List (ℕ × List A) → List A
lines_at i [] = []
lines_at i ((j, lines) ∷ es) = if j == i then lines else lines_at i es

abbrev pub map_answer {ℓ κ} : {A : Type ℓ} {B : Type κ} → (A → B) → Answer A → Answer B
map_answer f (going_on a) = going_on (f a)
map_answer f (http_exception status) = http_exception status

-- The token first; a request that is refused runs nothing.
unfoldable pub unless_refused_run {ℓ} :
    {A : Type ℓ} → Option ℕ → Result (Answer A) → Result (Answer A)
unless_refused_run (some status) run = returned (http_exception status)
unless_refused_run none run = run

module _ (run : List SummaryPlaceRequest → Result (Answer (List (ℕ × List Str))))
    (expected provided : Option Str) where
  -- `summarize_place_reviews`
  unfoldable pub summarize_place_reviews : SummaryPlaceRequest → Result (Answer (List Str))
  summarize_place_reviews req =
      unless_refused_run (verify_internal_token expected provided)
        (run (req ∷ []) >>= λ bullets. returned (map_answer (lines_at 0) bullets))

  -- `summarize_places_reviews`: indices with their lines, in the order of the indices
  unfoldable pub summarize_places_reviews :
      List SummaryPlaceRequest → Result (Answer (List (ℕ × List Str)))
  summarize_places_reviews places =
      unless_refused_run (verify_internal_token expected provided)
        (run places >>= λ bullets. returned (map_answer (sort_by (λ e. e.0)) bullets))
