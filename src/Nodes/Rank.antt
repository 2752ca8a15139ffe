-- ===== src/Nodes/Rank.antt =====
-- app/nodes/agent_nodes.py: `rules_filter` and `score_and_rank`. The two calls of the hub's rules,
-- floating point arithmetic, and how Python compares and adds numbers of JSON are parameters.
pub mod Loops
pub mod Filtered
pub mod Order
pub mod Ranked
use map_service_agent.Prelude.{
  ℕ, suc, Bool, true, false, not, ◌&&◌, ◌||◌, Option, none, some, List, [], ◌∷◌, map, keep, any,
  leb, if◌then◌else◌,
}
use map_service_agent.Value.{
  Str, Json, null, bool, int, float, str, arr, obj, to_list, pos, negsuc, get, truthy, is_obj,
  is_null, Float, FloatOps, float_le, hundred, zero_float,
}
use map_service_agent.Failure.{
  Exc, value_error, type_error, key_error, Result, returned, raised, ◌>>=◌,
}
use map_service_agent.Schema.Model.{Mobility}
use map_service_agent.Nodes.State.{AgentState, Settings, Plan, DayPlan, has_error, or_empty}
use map_service_agent.Nodes.Strategy.{is_http_error}
use map_service_agent.Nodes.Candidates.{is_indoor}
use map_service_agent.Nodes.Search.{is_hashable, id_of, no_candidates}
use map_service_agent.Nodes.Affinity.{one, float_max, affinity, segment_gain, segment_for}

-- `except (httpx.HTTPError, ValueError, KeyError)`
unfoldable pub is_rule_error : Exc → Bool
is_rule_error value_error = true
is_rule_error key_error = true
is_rule_error e = is_http_error e

-- `for x in v` where `v` is `resp.get(key) or []`: the items of a dict or a text are texts, which
-- every loop here skips.
unfoldable pub not_iterable : Bool → Result (List Json)
not_iterable true = raised type_error
not_iterable false = returned []

unfoldable pub iterated : Json → Result (List Json)
iterated (arr vs) = returned (to_list vs)
iterated (obj fs) = returned []
iterated (str s) = returned []
iterated v = not_iterable (truthy v)

abbrev pub dicts : List Json → List Json
dicts cs = keep is_obj cs

-- `coords`
unfoldable pub coords_of : List Json → List (Json × Json)
coords_of [] = []
coords_of (c ∷ cs) =
    if not (is_null (get "lat" c)) && not (is_null (get "lng" c))
    then (get "lat" c, get "lng" c) ∷ coords_of cs
    else coords_of cs

unfoldable pub with_filtered : AgentState → List Json → AgentState
with_filtered s [] = no_candidates s
with_filtered s (c ∷ cs) = record s { candidates = some (c ∷ cs) }

-- What follows the call of `filter_mobility_radius`
unfoldable pub after_filter : AgentState → Result Json → Result AgentState
after_filter s (raised e) = if is_rule_error e then returned s else raised e
after_filter s (returned resp) =
    iterated (get "filtered" resp) >>= λ cs. returned (with_filtered s (dicts cs))

-- The nodes work on candidates that are grounded, where no error is set and the rules are on.
unfoldable pub is_idle : Settings → AgentState → Bool
is_idle settings s = has_error s || not settings.rules_enabled

abbrev pub is_grounded : Option Bool → Bool
is_grounded none = false
is_grounded (some b) = b

module _ {Origin : Type 0} where
  module _ (origin_of : List (Json × Json) → Result Origin)
      (filter_mobility_radius : Origin → Mobility → List Json → Result Json) where
    unfoldable pub filter_around :
        AgentState → Mobility → List Json → List (Json × Json) → Result AgentState
    filter_around s m cs [] = returned s
    filter_around s m cs (p ∷ ps) =
        origin_of (p ∷ ps) >>= λ origin. after_filter s (filter_mobility_radius origin m cs)

    unfoldable pub filter_for : AgentState → Option Mobility → List Json → Result AgentState
    filter_for s none cs = returned s
    filter_for s (some m) cs = filter_around s m cs (coords_of cs)

    unfoldable pub filter_candidates : AgentState → List Json → Result AgentState
    filter_candidates s [] = returned s
    filter_candidates s (c ∷ cs) =
        if is_grounded s.grounded then filter_for s s.request.mobility (c ∷ cs) else returned s

    -- `rules_filter`
    unfoldable pub rules_filter : Settings → AgentState → Result AgentState
    rules_filter settings s =
        if is_idle settings s then returned s else filter_candidates s (or_empty s.candidates)

-- One entry of `pois`
pub record Poi : Type 0 where
  pub content_id : Json
  pub indoor_flag : Bool
  pub base_score : Float

-- A probability as JSON has it: a number from 0 to 100, and no `bool`
unfoldable pub is_percent : Json → Bool
is_percent (int (pos n)) = leb n 100
is_percent (float x) = float_le zero_float x && float_le x hundred
is_percent _ = false

unfoldable pub pops_of_plan : List DayPlan → List Json
pops_of_plan [] = []
pops_of_plan (d ∷ ds) = elim d.precipitation_prob [
  | none ↦ pops_of_plan ds
  | some p ↦ if leb p 100 then int (pos p) ∷ pops_of_plan ds else pops_of_plan ds
]

abbrev pub days_of : Option Plan → List DayPlan
days_of none = []
days_of (some p) = p.days

abbrev pub weather_of : Option Json → Json
weather_of none = null
weather_of (some w) = w

abbrev pub is_number : Json → Bool
is_number (bool b) = true
is_number (int z) = true
is_number (float x) = true
is_number _ = false

-- The entries of `scored` that have a score: ids with scores, the later ones first
unfoldable pub is_scored : Json → Bool
is_scored s = is_obj s && not (is_null (id_of s)) && is_number (get "score" s)

unfoldable pub scores_from : List (Json × Json) → List Json → List (Json × Json)
scores_from scores [] = scores
scores_from scores (s ∷ ss) =
    scores_from (if is_scored s then (id_of s, get "score" s) ∷ scores else scores) ss

-- `less` is `<` on numbers.
module _ (less : Json → Json → Bool) where
  -- `max(pops, default=None)`
  unfoldable pub max_of : Option Json → List Json → Option Json
  max_of best [] = best
  max_of none (p ∷ ps) = max_of (some p) ps
  max_of (some best) (p ∷ ps) = max_of (some (if less best p then p else best)) ps

  unfoldable pub pop_of_daily : List Json → Option Json
  pop_of_daily daily = max_of none (keep is_percent (map (get "precipitation_prob") (dicts daily)))

  -- `day_pop_max`
  unfoldable pub day_pop_max : List DayPlan → Option Json → Result (Option Json)
  day_pop_max [] weather =
      iterated (get "daily" (weather_of weather)) >>= λ daily. returned (pop_of_daily daily)
  day_pop_max (d ∷ ds) weather = returned (max_of none (pops_of_plan (d ∷ ds)))

  -- The stable sort by falling scores; any other stable sort agrees where no score is NaN.
  unfoldable pub insert_ranked : Json × Json → List (Json × Json) → List (Json × Json)
  insert_ranked x [] = x ∷ []
  insert_ranked x (y ∷ ys) = if less x.0 y.0 then y ∷ insert_ranked x ys else x ∷ y ∷ ys

  unfoldable pub ranked : List (Json × Json) → List (Json × Json)
  ranked [] = []
  ranked (x ∷ xs) = insert_ranked x (ranked xs)

-- `same` is `==` on what can be a key.
module _ (same : Json → Json → Bool) where
  -- `scores.get(cid, default)`
  unfoldable pub score_at : Json → Json → List (Json × Json) → Json
  score_at default cid [] = default
  score_at default cid ((j, score) ∷ scores) =
      if same j cid then score else score_at default cid scores

module _ (fl : FloatOps) where
  -- `1.0 - 0.01 * i`
  unfoldable pub rank_score : ℕ → Float
  rank_score i = fl.sub one (fl.mul (record { bits = 0x3f847ae147ae147b }) (fl.of_nat i))

module _ (fl : FloatOps) (same : Json → Json → Bool) where
  -- The candidates with the numbers that they are sorted by
  unfoldable pub keyed : List (Json × Json) → ℕ → List Json → List (Json × Json)
  keyed scores i [] = []
  keyed scores i (c ∷ cs) =
      (score_at same (float (rank_score fl i)) (id_of c) scores, c) ∷ keyed scores (suc i) cs

-- An id that cannot be hashed cannot be looked up.
unfoldable pub all_hashable : List Json → Bool
all_hashable cs = not (any (λ c. not (is_hashable (id_of c))) cs)

module _ (fl : FloatOps) (number : Json → Option Float) (less same : Json → Json → Bool) where
  unfoldable pub poi_of : Option (List Str) → Json → ℕ → Json → Poi
  poi_of themes segment i c = record {
    content_id = id_of c;
    indoor_flag = is_indoor (get "category_group_code" c);
    base_score =
        fl.add (rank_score fl i)
          (float_max (affinity fl c themes) (segment_gain fl number c segment));
  }

  unfoldable pub pois_from : Option (List Str) → Json → ℕ → List Json → List Poi
  pois_from themes segment i [] = []
  pois_from themes segment i (c ∷ cs) =
      if is_obj c && truthy (id_of c)
      then poi_of themes segment i c ∷ pois_from themes segment (suc i) cs
      else pois_from themes segment (suc i) cs

  unfoldable pub with_scores : AgentState → List Json → List (Json × Json) → Result AgentState
  with_scores s cs [] = returned s
  with_scores s cs (e ∷ es) =
      if all_hashable cs
      then returned (record s {
        scores = some (e ∷ es);
        candidates = some (map (λ k. k.1) (ranked less (keyed fl same (e ∷ es) 0 cs)));
      })
      else raised type_error

  -- What follows the call of `score_indoor_bonus`
  unfoldable pub after_scores : AgentState → List Json → Result Json → Result AgentState
  after_scores s cs (raised e) = if is_rule_error e then returned s else raised e
  after_scores s cs (returned resp) = iterated (get "scored" resp) >>= λ scored.
      if any (λ e. is_scored e && not (is_hashable (id_of e))) scored
      then raised type_error
      else with_scores s cs (scores_from [] scored)

  module _ (score_indoor_bonus : List Poi → Option Json → Result Json) where
    unfoldable pub score_pois : AgentState → List Json → Option Json → List Poi → Result AgentState
    score_pois s cs pop [] = returned s
    score_pois s cs pop (p ∷ ps) = after_scores s cs (score_indoor_bonus (p ∷ ps) pop)

    unfoldable pub rank_grounded :
        Settings → Option Json → AgentState → List Json → Result AgentState
    rank_grounded settings stats s cs = day_pop_max less (days_of s.plan) s.weather >>= λ pop.
        score_pois s cs pop (
          if settings.personalization_enabled
          then pois_from s.request.theme (segment_for stats) 0 cs
          else pois_from none null 0 cs)

    unfoldable pub rank_candidates :
        Settings → Option Json → AgentState → List Json → Result AgentState
    rank_candidates settings stats s [] = returned s
    rank_candidates settings stats s (c ∷ cs) =
        if is_grounded s.grounded then rank_grounded settings stats s (c ∷ cs) else returned s

    -- `score_and_rank`; `stats` is what the file of statistics holds.
    unfoldable pub score_and_rank : Settings → Option Json → AgentState → Result AgentState
    score_and_rank settings stats s =
        if is_idle settings s
        then returned s
        else rank_candidates settings stats s (or_empty s.candidates)
