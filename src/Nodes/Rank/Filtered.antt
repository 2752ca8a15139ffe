-- ===== src/Nodes/Rank/Filtered.antt =====
-- app/nodes/agent_nodes.py: what the filter does with each answer of the hub.
use map_service_agent.Prelude.{
  ◌≡◌, true, false, not, ◌||◌, Option, none, some, List, [], ◌∷◌, if◌then◌else◌,
}
use map_service_agent.Value.{Json, get}
use map_service_agent.Failure.{Exc, type_error, Result, returned, raised}
use map_service_agent.Schema.Model.{Mobility}
use map_service_agent.Nodes.State.{AgentState, Settings, or_empty}
use map_service_agent.Nodes.Rank.{is_rule_error, iterated, dicts, coords_of, is_idle, is_grounded}

-- What the filter leaves, where `call` is what the hub answered, if it was asked.
pub data IsFiltered (call : Option (Result Json)) (s : AgentState)
    : Result AgentState → Type 0 where
  unasked : call ≡ none → IsFiltered call s (returned s)
  degraded :
      (e : Exc) → call ≡ some (raised e) → is_rule_error e ≡ true → IsFiltered call s (returned s)
  escaped :
      (e : Exc) → call ≡ some (raised e) → is_rule_error e ≡ false → IsFiltered call s (raised e)
  none_left :
      (resp : Json) (items : List Json)
      → call ≡ some (returned resp)
      → iterated (get "filtered" resp) ≡ returned items
      → dicts items ≡ []
      → IsFiltered call s (returned (record s { candidates = some []; grounded = some false }))
  filtered :
      (resp : Json) (items : List Json) (c : Json) (cs : List Json)
      → call ≡ some (returned resp)
      → iterated (get "filtered" resp) ≡ returned items
      → dicts items ≡ c ∷ cs
      → IsFiltered call s (returned (record s { candidates = some (c ∷ cs) }))
  unreadable :
      (resp : Json)
      → call ≡ some (returned resp)
      → iterated (get "filtered" resp) ≡ raised type_error
      → IsFiltered call s (raised type_error)

module _ {Origin : Type 0} (origin_of : List (Json × Json) → Origin)
    (filter_mobility_radius : Origin → Mobility → List Json → Result Json) where
  -- What `rules_filter` does where the centre of the candidates can be computed.
  abbrev centre : List (Json × Json) → Result Origin
  centre ps = returned (origin_of ps)

  -- The hub is asked about candidates around the centre of those that have coordinates.
  abbrev asked_around : Mobility → List Json → List (Json × Json) → Option (Result Json)
  asked_around m cs [] = none
  asked_around m cs (p ∷ ps) = some (filter_mobility_radius (origin_of (p ∷ ps)) m cs)

  abbrev asked_for : Option Mobility → List Json → Option (Result Json)
  asked_for none cs = none
  asked_for (some m) cs = asked_around m cs (coords_of cs)

  -- What the hub answers, if it is asked: not after an error, with the rules off, on candidates that
  -- are not grounded, or without a mobility.
  abbrev pub asked : Settings → AgentState → Option (Result Json)
  asked settings s =
      if is_idle settings s || not (is_grounded s.grounded)
      then none
      else asked_for s.request.mobility (or_empty s.candidates)
