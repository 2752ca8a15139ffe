-- ===== src/Samples/Reviews.antt =====
-- Candidates with reviews.
use map_service_agent.Prelude.{Bool, false, some, List, [], ◌∷◌}
use map_service_agent.Value.{Str, codes, str_eq, Json, str, null, arr, obj, nil, cons, end, field}
use map_service_agent.Failure.{returned}
use map_service_agent.Schema.Model.{init}
use map_service_agent.Nodes.State.{AgentState, Settings}
use map_service_agent.Nodes.Reviews.{Client, fetch_reviews_for}
use map_service_agent.Nodes.Reviews.Budget.{CollectsWithin, fetch_reviews_for-CollectsWithin}
use map_service_agent.Samples.{started, settings}

abbrev same : Json → Json → Bool
same (str s) (str t) = str_eq s t
same _ _ = false

abbrev candidate : Str → Json
candidate id = obj (field (codes "content_id") (str id) (field (codes "name") (str id) end))

abbrev review : Str → Json
review words = obj (field (codes "description") (str words) end)

-- The hub knows two texts, one of them empty.
abbrev hub : Client
hub query display =
    returned (
      obj (field (codes "reviews") (arr (cons (review (codes "fine")) (cons (review []) nil))) end))

abbrev capped : Settings
capped = record settings {
  reviews_max_places = 5;
  reviews_display = 3;
  reviews_fetch_cap_per_job = 2;
}

abbrev job : AgentState
job = record (started init) { reviews_fetch_used = 1 }

abbrev candidates : List Json
candidates = candidate (codes "a") ∷ null ∷ candidate (codes "b") ∷ []

abbrev no_text : Json → Str
no_text v = []

fetch_reviews_for-CollectsWithin_example :
    CollectsWithin
      (some hub)
      capped
      job
      candidates
      (fetch_reviews_for same no_text (some hub) capped job candidates)
fetch_reviews_for-CollectsWithin_example =
    fetch_reviews_for-CollectsWithin same no_text (some hub) capped job candidates
