-- ===== src/Samples/Searches.antt =====
-- Searches, filters and rankings.
use map_service_agent.Prelude.{ℕ, Bool, true, false, ltb, Option, none, some, List, [], ◌∷◌}
use map_service_agent.Value.{
  Str, codes, str_eq, Json, str, int, pos, obj, arr, field, end, nil, cons, Float, float,
}
use map_service_agent.Failure.{Result, returned}
use map_service_agent.Schema.Model.{AgentRequest, Mobility, init}
use map_service_agent.Nodes.State.{AgentState, Settings}
use map_service_agent.Nodes.Rank.{Poi}
use map_service_agent.Nodes.Rank.Filtered
use map_service_agent.Nodes.Rank.Ranked
use map_service_agent.Samples.{started, settings}

abbrev same : Json → Json → Bool
same (str s) (str t) = str_eq s t
same _ _ = false

abbrev named : Str → Json
named id = obj (
    field (codes "content_id") (str id)
      (field (codes "lat") (int (pos 37)) (field (codes "lng") (int (pos 127)) end)))

-- Two themes find the same place, and each one more.
abbrev search : AgentRequest → List (Option Str) → Result (List Json)
search req keywords = returned (
    obj (field (codes "places") (arr (cons (named (codes "a")) (cons (named (codes "b")) nil))) end)
    ∷ obj
        (field (codes "places") (arr (cons (named (codes "b")) (cons (named (codes "c")) nil))) end)
    ∷ [])

abbrev choosy : AgentState
choosy = record (started init) {
  request = record (started init).request {
    theme = some (codes "food" ∷ codes "cafe" ∷ []);
    exclude = some (codes "a" ∷ []);
  };
}

abbrev ruled : Settings
ruled = record settings { rules_enabled = true }

abbrev grounded : AgentState
grounded = record (started init) {
  candidates = some (named (codes "a") ∷ named (codes "b") ∷ []);
  grounded = some true;
}

abbrev origin : List (Json × Json) → List (Json × Json)
origin ps = ps

-- The hub lets one candidate through.
abbrev filter_one : List (Json × Json) → Mobility → List Json → Result Json
filter_one ps m cs =
    returned (obj (field (codes "filtered") (arr (cons (named (codes "b")) nil)) end))

abbrev rank_of : Json → ℕ
rank_of (int (pos a)) = a
rank_of _ = 0

abbrev less : Json → Json → Bool
less a b = ltb (rank_of a) (rank_of b)

abbrev number : Json → Option Float
number (float x) = some x
number _ = none

abbrev scored : Str → (score : Json) → Json
scored id score = obj (field (codes "content_id") (str id) (field (codes "score") score end))

-- The second candidate is scored higher.
abbrev bonus : List Poi → Option Json → Result Json
bonus pois pop = returned (
    obj (
      field (codes "scored")
        (arr
          (cons (scored (codes "a") (int (pos 1))) (cons (scored (codes "b") (int (pos 2))) nil)))
        end))
