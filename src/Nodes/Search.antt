-- ===== src/Nodes/Search.antt =====
-- app/nodes/agent_nodes.py: `_theme_keywords`, `_merge_place_results` and `search_places`. The
-- searches of the hub, gathered, are a parameter, and so is Python's `==` on numbers and texts.
pub mod Merged
pub mod Found
use map_service_agent.Prelude.{
  ℕ, suc, Bool, true, false, not, ◌&&◌, ◌||◌, Option, none, some, List, [], ◌∷◌, ◌++◌, map, take,
  keep, any, if◌then◌else◌,
}
use map_service_agent.Value.{
  Str, codes, str_eq, mem_str, strip, is_blank, Json, null, bool, int, float, str, arr, obj,
  to_list, get, is_obj, is_null,
}
use map_service_agent.Failure.{
  Exc, value_error, type_error, Code, generation_failed, upstream_unavailable, Failure, failure,
  exception_failure, Result, returned, raised, ◌>>=◌,
}
use map_service_agent.Schema.Model.{AgentRequest}
use map_service_agent.Nodes.State.{AgentState, has_error, or_empty, update_failure}
use map_service_agent.Nodes.Candidates.{lowered}
use map_service_agent.Nodes.Strategy.{is_http_error}

-- `_THEME_KEYWORDS`
abbrev theme_table : List (Str × Str)
theme_table =
    (codes "food", codes "맛집")
    ∷ (codes "cafe", codes "카페")
    ∷ (codes "photo", codes "명소")
    ∷ (codes "nature", codes "공원")
    ∷ (codes "history", codes "문화재")
    ∷ (codes "activity", codes "체험")
    ∷ (codes "shopping", codes "쇼핑")
    ∷ (codes "night", codes "야경")
    ∷ []

-- `table.get(key, default)`
abbrev pub text_at : Str → Str → List (Str × Str) → Str
text_at default key [] = default
text_at default key ((k, v) ∷ table) = if str_eq k key then v else text_at default key table

-- One round of the loop of `_theme_keywords`
unfoldable pub add_keyword : List Str → Str → List Str
add_keyword seen t =
    let kw = text_at (strip t) (lowered (strip t)) theme_table in
    if is_blank t || mem_str kw seen then seen else seen ++ kw ∷ []

unfoldable pub keywords_of : List Str → List Str → List Str
keywords_of seen [] = seen
keywords_of seen (t ∷ ts) = keywords_of (add_keyword seen t) ts

unfoldable pub or_no_keyword : List Str → List (Option Str)
or_no_keyword [] = none ∷ []
or_no_keyword (k ∷ ks) = map some (k ∷ ks)

abbrev pub theme_query_max : ℕ
theme_query_max = 8

-- `_theme_keywords`
unfoldable pub theme_keywords : Option (List Str) → List (Option Str)
theme_keywords themes = or_no_keyword (keywords_of [] (take theme_query_max (or_empty themes)))

-- A value that can be in a set
abbrev pub is_hashable : Json → Bool
is_hashable (arr vs) = false
is_hashable (obj fs) = false
is_hashable _ = true

abbrev pub id_of : Json → Json
id_of c = get "content_id" c

-- What the loop does with a candidate.
pub data Fate : Type 0 where
  pass_over : Fate
  take_unnamed : Fate
  take_new : Fate
  break_off : Fate

-- `resp.get("places", [])`, if it is a list
unfoldable pub places_in : Json → List Json
places_in (arr vs) = to_list vs
places_in _ = []

unfoldable pub all_places : List Json → List Json
all_places [] = []
all_places (resp ∷ results) = places_in (get "places" resp) ++ all_places results

-- `not isinstance(result, dict) or not isinstance(result.get("places"), list)`
unfoldable pub has_places : Json → Bool
has_places (arr vs) = true
has_places _ = false

unfoldable pub is_malformed : Json → Bool
is_malformed result = not (is_obj result) || not (has_places (get "places" result))

-- `c.get("content_id") not in exclude`
unfoldable pub is_excluded : List Str → Json → Bool
is_excluded exclude (str cid) = mem_str cid exclude
is_excluded exclude _ = false

unfoldable pub without_excluded : List Str → List Json → List Json
without_excluded [] cs = cs
without_excluded (e ∷ es) cs = keep (λ c. not (is_excluded (e ∷ es) (id_of c))) cs

-- `state["candidates"] = []` and `state["grounded"] = False`
unfoldable pub no_candidates : AgentState → AgentState
no_candidates s = record s { candidates = some []; grounded = some false }

unfoldable pub with_candidates : AgentState → List Json → AgentState
with_candidates s [] = no_candidates s
with_candidates s (c ∷ cs) = record s { candidates = some (c ∷ cs); grounded = some true }

-- The failure that is left in the state: an unclassified one becomes an outage.
unfoldable pub or_outage : Failure → Code → Failure
or_outage f generation_failed = failure upstream_unavailable false
or_outage f _ = f

unfoldable pub search_failure : Exc → Failure
search_failure e = or_outage (exception_failure e) (exception_failure e).code

-- `except (httpx.HTTPError, ValueError)`
unfoldable pub is_search_error : Exc → Bool
is_search_error value_error = true
is_search_error e = is_http_error e

module _ (same : Json → Json → Bool) where
  unfoldable pub fate_of_id : List Json → Json → Fate
  fate_of_id seen cid =
      if is_null cid
      then take_unnamed
      else if not (is_hashable cid)
      then break_off
      else if any (λ i. same i cid) seen
      then pass_over
      else take_new

  unfoldable pub fate : List Json → Json → Fate
  fate seen c = if is_obj c then fate_of_id seen (id_of c) else pass_over

  -- The loops of `_merge_place_results`; an id that cannot be hashed raises.
  unfoldable pub merge_from : List Json → List Json → Result (List Json)
  merge_from seen [] = returned []
  merge_from seen (c ∷ cs) = elim (fate seen c) [
    | pass_over ↦ merge_from seen cs
    | take_unnamed ↦ merge_from seen cs >>= λ merged. returned (c ∷ merged)
    | take_new ↦ merge_from (id_of c ∷ seen) cs >>= λ merged. returned (c ∷ merged)
    | break_off ↦ raised type_error
  ]

  -- `_merge_place_results`
  unfoldable pub merge_place_results : List Json → Result (List Json)
  merge_place_results results = merge_from [] (all_places results)

  unfoldable pub with_results : AgentState → List Json → Result AgentState
  with_results s results =
      if any is_malformed results
      then returned (no_candidates (update_failure (failure upstream_unavailable false) s))
      else merge_place_results results >>= λ cs.
          returned (with_candidates s (without_excluded (or_empty s.request.exclude) cs))

  unfoldable pub after_search : AgentState → Result (List Json) → Result AgentState
  after_search s (returned results) = with_results s results
  after_search s (raised e) =
      if is_search_error e
      then returned (no_candidates (update_failure (search_failure e) s))
      else raised e

  -- `search_places`
  unfoldable pub search_places :
      (search : AgentRequest → List (Option Str) → Result (List Json))
      → AgentState
      → Result AgentState
  search_places search s =
      if has_error s
      then returned s
      else after_search s (search s.request (theme_keywords s.request.theme))
