-- ===== src/Nodes/Rank/Ranked.antt =====
-- app/nodes/agent_nodes.py: the ranking loses no candidate.
use mathlib.Core.List.{Perm}
use mathlib.Core.List.Perm
use map_service_agent.Prelude.{
  ◌≡◌, ◌≢◌, All, Bool, true, false, not, ◌||◌, Option, none, some, List, [], ◌∷◌, map,
  if◌then◌else◌,
}
use map_service_agent.Value.{Json, null, get, Float, FloatOps}
use map_service_agent.Failure.{Exc, type_error, Result, returned, raised}
use map_service_agent.Nodes.State.{AgentState, Settings, or_empty}
use map_service_agent.Nodes.Search.{is_hashable, id_of}
use map_service_agent.Nodes.Search.Merged.{Listed}
use map_service_agent.Nodes.Affinity.{segment_for}
use map_service_agent.Nodes.Rank.{
  is_rule_error, iterated, is_idle, is_grounded, Poi, days_of, is_scored, scores_from, day_pop_max,
  keyed, pois_from,
}
use map_service_agent.Nodes.Rank.Order.{Falls}

-- The entries with a score have ids that can be hashed.
abbrev pub AreHashable : List Json → Type 0
AreHashable scored = All (λ e. is_scored e ≡ true → is_hashable (id_of e) ≡ true) scored

module _ (fl : FloatOps) (number : Json → Option Float) (less same : Json → Json → Bool)
    (asym : (a b : Json) → less a b ≡ true → less b a ≡ false) (s : AgentState) where
  -- How a ranking ends, where `call` is what the hub answered, if it was asked.
  pub data IsRanked (call : Option (Result Json)) : Result AgentState → Type 0 where
    unasked : call ≡ none → IsRanked call (returned s)
    unplanned :
        day_pop_max less (days_of s.plan) s.weather ≡ raised type_error
        → IsRanked call (raised type_error)
    degraded :
        (e : Exc) → call ≡ some (raised e) → is_rule_error e ≡ true → IsRanked call (returned s)
    escaped :
        (e : Exc) → call ≡ some (raised e) → is_rule_error e ≡ false → IsRanked call (raised e)
    unreadable :
        (resp : Json)
        → call ≡ some (returned resp)
        → iterated (get "scored" resp) ≡ raised type_error
        → IsRanked call (raised type_error)
    -- An entry with a score, or a candidate to be ranked, has an id that cannot be hashed.
    unhashable_entry :
        (resp : Json) (scored : List Json) (e : Json)
        → call ≡ some (returned resp)
        → iterated (get "scored" resp) ≡ returned scored
        → Listed scored e
        → is_scored e ≡ true
        → is_hashable (id_of e) ≡ false
        → IsRanked call (raised type_error)
    unhashable_candidate :
        (resp : Json) (scored : List Json) (c : Json)
        → call ≡ some (returned resp)
        → iterated (get "scored" resp) ≡ returned scored
        → AreHashable scored
        → scores_from [] scored ≢ []
        → Listed (or_empty s.candidates) c
        → is_hashable (id_of c) ≡ false
        → IsRanked call (raised type_error)
    unscored :
        (resp : Json) (scored : List Json)
        → call ≡ some (returned resp)
        → iterated (get "scored" resp) ≡ returned scored
        → AreHashable scored
        → scores_from [] scored ≡ []
        → IsRanked call (returned s)
    by_scores :
        (resp : Json) (scored : List Json) (scores : List (Json × Json)) (keys : List (Json × Json))
        → call ≡ some (returned resp)
        → iterated (get "scored" resp) ≡ returned scored
        → AreHashable scored
        → All (λ c. is_hashable (id_of c) ≡ true) (or_empty s.candidates)
        → scores_from [] scored ≡ scores
        → scores ≢ []
        → Perm keys (keyed fl same scores 0 (or_empty s.candidates))
        → Perm (map (λ k. k.1) keys) (or_empty s.candidates)
        → Falls less keys
        → IsRanked call
            (returned (record s { scores = some scores; candidates = some (map (λ k. k.1) keys) }))

  module _ (score_indoor_bonus : List Poi → Option Json → Result Json) where
    -- The hub is asked about candidates that have an id.
    abbrev asked_on : Option Json → List Poi → Option (Result Json)
    asked_on pop [] = none
    asked_on pop (p ∷ ps) = some (score_indoor_bonus (p ∷ ps) pop)

    abbrev asked_at : Result (Option Json) → List Poi → Option (Result Json)
    asked_at (raised e) pois = none
    asked_at (returned pop) pois = asked_on pop pois

    -- What is sent for the candidates, with the taste of the user if that is on
    abbrev pois_of : Settings → Option Json → List Json → List Poi
    pois_of settings stats cs =
        if settings.personalization_enabled
        then pois_from fl number less same s.request.theme (segment_for stats) 0 cs
        else pois_from fl number less same none null 0 cs

    -- What the hub answers, if it is asked: not after an error, with the rules off, or on candidates
    -- that are not grounded.
    abbrev pub asked : Settings → Option Json → Option (Result Json)
    asked settings stats =
        if is_idle settings s || not (is_grounded s.grounded)
        then none
        else asked_at (day_pop_max less (days_of s.plan) s.weather)
            (pois_of settings stats (or_empty s.candidates))
