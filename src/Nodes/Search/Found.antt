-- ===== src/Nodes/Search/Found.antt =====
-- app/nodes/agent_nodes.py, `search_places`: how the search of a job can end.
use map_service_agent.Prelude.{◌≡◌, ◌≢◌, Bool, true, false, some, List, [], ◌∷◌, any, All}
use map_service_agent.Value.{Str, Json, is_obj}
use map_service_agent.Failure.{
  Exc, generation_failed, upstream_unavailable, Failure, failure, Result, returned, raised,
}
use map_service_agent.Nodes.State.{AgentState, has_error, or_empty, update_failure}
use map_service_agent.Nodes.Search.{
  id_of, all_places, is_malformed, is_excluded, without_excluded, is_search_error,
}
use map_service_agent.Nodes.Search.Merged.{Listed, Unhashable, NoneTwice, AreMerged}

abbrev pub is_nonempty {ℓ} : {A : Type ℓ} → List A → Bool
is_nonempty [] = false
is_nonempty (x ∷ xs) = true

module _ (same : Json → Json → Bool) where
  -- Candidates that the job goes on with: dicts of the results, each id once, none excluded; they are
  -- what is left of a merge that covers all dicts of the results.
  pub record AreCandidates (exclude : List Str) (results cs : List Json) : Type 0 where
    pub merged : List Json
    pub covering : AreMerged same (all_places results) merged
    pub left : without_excluded exclude merged ≡ cs
    pub taken : All (λ c. Listed (all_places results) c × (is_obj c ≡ true)) cs
    pub once : NoneTwice same cs
    pub allowed : All (λ c. is_excluded exclude (id_of c) ≡ false) cs

  -- How a search can end, where `searched` is what the hub answered.
  pub data Ended (searched : Result (List Json)) (s : AgentState) : Result AgentState → Type 0 where
    refused : has_error s ≡ true → Ended searched s (returned s)
    failed :
        (e : Exc) (f : Failure)
        → has_error s ≡ false
        → searched ≡ raised e
        → is_search_error e ≡ true
        → f.code ≢ generation_failed
        → Ended searched s
            (returned (record (update_failure f s) { candidates = some []; grounded = some false }))
    malformed :
        (results : List Json)
        → has_error s ≡ false
        → searched ≡ returned results
        → any is_malformed results ≡ true
        → Ended searched s (
            returned (record (update_failure (failure upstream_unavailable false) s) {
              candidates = some [];
              grounded = some false;
            }))
    found :
        (results cs : List Json)
        → has_error s ≡ false
        → searched ≡ returned results
        → any is_malformed results ≡ false
        → AreCandidates (or_empty s.request.exclude) results cs
        → Ended searched s
            (returned (record s { candidates = some cs; grounded = some (is_nonempty cs) }))
    broken :
        (e : Exc)
        → has_error s ≡ false
        → searched ≡ raised e
        → is_search_error e ≡ false
        → Ended searched s (raised e)
    unmergeable :
        (results : List Json) (e : Exc)
        → has_error s ≡ false
        → searched ≡ returned results
        → any is_malformed results ≡ false
        → Unhashable same (all_places results) e
        → Ended searched s (raised e)
