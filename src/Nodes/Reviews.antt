-- ===== src/Nodes/Reviews.antt =====
-- app/nodes/agent_nodes.py: `_fetch_reviews_for`, the reviews that the selection goes by. The hub is
-- a parameter, as are `==` on what can be a key and `str`.
pub mod Rounds
pub mod Budget
use map_service_agent.Prelude.{
  ℕ, zero, suc, ◌-◌, Bool, true, false, ◌&&◌, Option, none, some, List, [], ◌∷◌, ◌++◌, take,
  if◌then◌else◌, min,
}
use map_service_agent.Value.{Str, codes, strip, Json, str, get, truthy, is_obj}
use map_service_agent.Failure.{Exc, type_error, cancelled_error, Result, returned, raised, ◌>>=◌}
use map_service_agent.Schema.Model.{AgentRequest}
use map_service_agent.Nodes.State.{AgentState, Settings}
use map_service_agent.Nodes.Input.{is_empty}
use map_service_agent.Nodes.Search.{is_hashable, id_of}
use map_service_agent.Nodes.Rank.{iterated, is_grounded}

-- `client.fetch_reviews(query, display)`
abbrev pub Client : Type 0
Client = Str → ℕ → Result Json

unfoldable pub add_description : Json → List Str → List Str
add_description (str (c ∷ cs)) later = (c ∷ cs) ∷ later
add_description _ later = later

unfoldable pub descriptions : List Json → List Str
descriptions [] = []
descriptions (r ∷ rs) = add_description (get "description" r) (descriptions rs)

-- `_snippets_from_response`
unfoldable pub snippets_from_response : Json → ℕ → Result (List Str)
snippets_from_response resp display =
    iterated (get "reviews" resp) >>= λ items. returned (take display (descriptions items))

abbrev pub review_query_max : ℕ
review_query_max = 60

-- `f"{name}"`
abbrev formatted : (text : Json → Str) → Json → Str
formatted text (str s) = s
formatted text v = text v

-- `name[:_REVIEW_QUERY_MAX]`, which no request leads to: its province is never empty
abbrev pub cut_name : Json → Result Str
cut_name (str s) = returned (take review_query_max s)
cut_name v = raised type_error

-- `_review_query`
unfoldable pub review_query : (text : Json → Str) → AgentRequest → Json → Result Str
review_query text req name =
    let region = if is_empty req.city then req.province else req.city in
    if is_empty region
    then cut_name name
    else returned (take review_query_max (strip (region ++ b' ' ∷ formatted text name)))

-- The reviews so far, the number of calls of the job that the state counts, and the queries that the
-- hub was really asked, the last one first
pub record Collected : Type 0 where
  pub reviews : List (Json × List Str)
  pub used : ℕ
  pub calls : List Str

-- `_reviews_budget_left`
unfoldable pub reviews_budget_left : Settings → AgentState → ℕ
reviews_budget_left settings s = settings.reviews_fetch_cap_per_job - s.reviews_fetch_used

unfoldable pub is_reviewable : Json → Bool
is_reviewable c = is_obj c && (truthy (id_of c) && truthy (get "name" c))

unfoldable pub keep_reviews : AgentState → Collected → AgentState
keep_reviews s c = record s {
  reviews = if is_empty c.reviews then s.reviews else some c.reviews;
  reviews_fetch_used = c.used;
}

unfoldable pub with_stored : AgentState → Result Collected → Result AgentState
with_stored s (returned c) = returned (keep_reviews s c)
with_stored s (raised e) = raised e

module _ (same : Json → Json → Bool) where
  -- `reviews[content_id] = snippets`
  unfoldable pub set_reviews : Json → List Str → List (Json × List Str) → List (Json × List Str)
  set_reviews cid snippets [] = (cid, snippets) ∷ []
  set_reviews cid snippets ((j, old) ∷ es) =
      if same j cid then (j, snippets) ∷ es else (j, old) ∷ set_reviews cid snippets es

  unfoldable pub put_reviews : Json → List Str → Collected → Result Collected
  put_reviews cid [] c = returned c
  put_reviews cid (s ∷ ss) c =
      if is_hashable cid
      then returned (record c { reviews = set_reviews cid (s ∷ ss) c.reviews })
      else raised type_error

  -- What follows the call; only a cancellation is no `Exception`.
  unfoldable pub after_fetch : ℕ → Json → Result Json → Collected → Result Collected
  after_fetch display cid (raised cancelled_error) c = raised cancelled_error
  after_fetch display cid (raised e) c = returned c
  after_fetch display cid (returned resp) c =
      snippets_from_response resp display >>= λ snippets. put_reviews cid snippets c

  module _ (text : Json → Str) (req : AgentRequest) (fetch : Client) (display : ℕ) where
    -- A round of the loop on a candidate that has an id and a name
    unfoldable pub fetch_one : Json → Collected → Result Collected
    fetch_one x c = review_query text req (get "name" x) >>= λ query.
        after_fetch display (id_of x) (fetch query display)
          (record c { used = suc c.used; calls = query ∷ c.calls })

    -- The loop, with the calls that are left
    unfoldable pub collect_reviews : ℕ → List Json → Collected → Result Collected
    collect_reviews left [] c = returned c
    collect_reviews zero (x ∷ xs) c = returned c
    collect_reviews (suc left) (x ∷ xs) c = elim (is_reviewable x) [
      | true ↦ fetch_one x c >>= λ d. collect_reviews left xs d
      | false ↦ collect_reviews (suc left) xs c
    ]

  -- `_fetch_reviews_for`; there may be no client.
  unfoldable pub fetch_reviews_for :
      (text : Json → Str) (client : Option Client)
      → Settings
      → AgentState
      → List Json
      → Result Collected
  fetch_reviews_for text none settings s candidates =
      returned (record { reviews = []; used = s.reviews_fetch_used; calls = [] })
  fetch_reviews_for text (some fetch) settings s candidates =
      collect_reviews text s.request fetch settings.reviews_display
        (min settings.reviews_max_places (reviews_budget_left settings s)) candidates
        (record { reviews = []; used = s.reviews_fetch_used; calls = [] })

  -- What `_select_places` does before it asks the model
  unfoldable pub with_reviews :
      (text : Json → Str) (client : Option Client)
      → Settings
      → AgentState
      → List Json
      → Result AgentState
  with_reviews text client settings s candidates =
      if settings.reviews_enrich_enabled && is_grounded s.grounded
      then with_stored s (fetch_reviews_for text client settings s candidates)
      else returned s
