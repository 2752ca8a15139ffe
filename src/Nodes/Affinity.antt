-- ===== src/Nodes/Affinity.antt =====
-- app/nodes/agent_nodes.py, what taste adds to a score: `_affinity`, `_segment_stats`,
-- `_segment_for` and `_segment_gain`. What the file of statistics holds is a parameter, as are
-- floating point arithmetic and `float`.
use map_service_agent.Prelude.{
  ℕ, suc, Bool, true, false, ◌&&◌, ◌||◌, Option, none, some, List, [], ◌∷◌, take, any,
  if◌then◌else◌,
}
use map_service_agent.Value.{
  Str, codes, str_eq, includes, strip, Json, bool, str, obj, Fields, end, field, find, get, truthy,
  is_obj, Float, FloatOps, is_finite, float_le, float_lt, zero_float,
}
use map_service_agent.Nodes.State.{or_empty}
use map_service_agent.Nodes.Candidates.{lowered}
use map_service_agent.Nodes.Search.{theme_query_max}

abbrev affinity_max : Float
affinity_max = record { bits = 0x3fb999999999999a }

abbrev affinity_decay : Float
affinity_decay = record { bits = 0x3fe6666666666666 }

abbrev pub one : Float
one = record { bits = 0x3ff0000000000000 }

-- The group code and the pieces of text that fit a theme; every theme has one code.
pub record Spec : Type 0 where
  pub theme : Str
  pub code : Str
  pub needles : List Str

-- `_THEME_AFFINITY`
abbrev specs : List Spec
specs =
    record {
      theme = codes "food";
      code = codes "FD6";
      needles = codes "음식점" ∷ codes "한식" ∷ codes "일식" ∷ codes "중식" ∷ codes "양식" ∷ [];
    }
    ∷ record {
      theme = codes "cafe";
      code = codes "CE7";
      needles = codes "카페" ∷ codes "디저트" ∷ codes "베이커리" ∷ codes "제과" ∷ [];
    }
    ∷ record {
      theme = codes "photo";
      code = codes "AT4";
      needles = codes "명소" ∷ codes "전망" ∷ codes "테마파크" ∷ [];
    }
    ∷ record {
      theme = codes "nature";
      code = codes "AT4";
      needles =
          codes "공원"
          ∷ codes "해수욕장"
          ∷ codes "계곡"
          ∷ codes "수목원"
          ∷ codes "등산"
          ∷ codes "산책로"
          ∷ codes "걷기길"
          ∷ [];
    }
    ∷ record {
      theme = codes "history";
      code = codes "CT1";
      needles =
          codes "문화유적"
          ∷ codes "고궁"
          ∷ codes "궁궐"
          ∷ codes "박물관"
          ∷ codes "미술관"
          ∷ codes "사찰"
          ∷ codes "유적"
          ∷ [];
    }
    ∷ record {
      theme = codes "activity";
      code = codes "AT4";
      needles = codes "레저" ∷ codes "체험" ∷ codes "스포츠" ∷ codes "자전거길" ∷ [];
    }
    ∷ record {
      theme = codes "shopping";
      code = codes "MT1";
      needles = codes "쇼핑" ∷ codes "시장" ∷ codes "백화점" ∷ codes "마트" ∷ codes "아울렛" ∷ [];
    }
    ∷ record { theme = codes "night"; code = codes "AT4"; needles = codes "야경" ∷ codes "전망" ∷ [] }
    ∷ []

abbrev spec_of : Str → List Spec → Option Spec
spec_of theme [] = none
spec_of theme (s ∷ ss) = if str_eq s.theme theme then some s else spec_of theme ss

-- `code in codes`, and `candidate.get("category") or ""`, which the hub gives as a text
abbrev is_code : Str → Json → Bool
is_code code (str s) = str_eq s code
is_code code _ = false

abbrev text_of : Json → Str
text_of (str s) = s
text_of _ = []

unfoldable pub fits : Option Spec → Json → Bool
fits none c = false
fits (some s) c =
    is_code s.code (get "category_group_code" c)
    || any (λ needle. includes (text_of (get "category" c)) needle) s.needles

-- `max(a, b)`
abbrev pub float_max : Float → Float → Float
float_max a b = if float_lt a b then b else a

-- `segments.values()` and `places.values()`, with the checks of `_segment_stats`
unfoldable pub all_dicts : Fields → Bool
all_dicts end = true
all_dicts (field k v fs) = is_obj v && all_dicts fs

abbrev or_no_fields : Option Json → Json
or_no_fields none = obj end
or_no_fields (some v) = v

unfoldable pub fields_are_dicts : Json → Bool
fields_are_dicts (obj fs) = all_dicts fs
fields_are_dicts _ = false

-- `segment.get("places", {})` of a segment that has to be a dict
unfoldable pub segment_valid : Json → Bool
segment_valid (obj fs) = fields_are_dicts (or_no_fields (find (codes "places") fs))
segment_valid _ = false

unfoldable pub segments_valid : Fields → Bool
segments_valid end = true
segments_valid (field k v fs) = segment_valid v && segments_valid fs

unfoldable pub segments_dict_valid : Json → Bool
segments_dict_valid (obj fs) = segments_valid fs
segments_dict_valid _ = false

unfoldable pub stats_valid : Json → Bool
stats_valid (obj fs) = segments_dict_valid (or_no_fields (find (codes "segments") fs))
stats_valid _ = false

-- `_segment_stats`, of what `json.load` gave; `none` where there is no path, or reading it failed
unfoldable pub segment_stats : Option Json → Json
segment_stats none = obj end
segment_stats (some stats) = if stats_valid stats then stats else obj end

-- `_segment_for(None, None)`
unfoldable pub segment_for : Option Json → Json
segment_for file = get "unknown|unknown" (get "segments" (segment_stats file))

module _ (fl : FloatOps) where
  unfoldable pub affinity_from : ℕ → Float → Json → List Str → Float
  affinity_from i best c [] = best
  affinity_from i best c (raw ∷ themes) =
      affinity_from (suc i)
        (if fits (spec_of (lowered (strip raw)) specs) c
          then float_max best (fl.mul affinity_max (fl.pow_nat affinity_decay i))
          else best)
        c themes

  -- `_affinity`
  unfoldable pub affinity : Json → Option (List Str) → Float
  affinity c themes = affinity_from 0 zero_float c (take theme_query_max (or_empty themes))

  -- The gain of a rate that `float` could read
  unfoldable pub gain_of_rate : Option Float → Float
  gain_of_rate none = zero_float
  gain_of_rate (some rate) =
      if is_finite rate && float_le zero_float rate && float_le rate one
      then fl.mul affinity_max rate
      else zero_float

  unfoldable pub gain_of : (number : Json → Option Float) → Json → Float
  gain_of number (bool b) = zero_float
  gain_of number raw_rate = gain_of_rate (number raw_rate)

  unfoldable pub entry_gain : (number : Json → Option Float) → Option Json → Float
  entry_gain number (some (obj fs)) = gain_of number (get "rate" (obj fs))
  entry_gain number _ = zero_float

  unfoldable pub place_gain : (number : Json → Option Float) → Json → Json → Float
  place_gain number (str cid) (obj places) = entry_gain number (find cid places)
  place_gain number _ _ = zero_float

  -- `_segment_gain`: the keys of JSON are texts, so that no other id finds an entry
  unfoldable pub segment_gain : (number : Json → Option Float) → Json → Json → Float
  segment_gain number c segment =
      if is_obj segment && truthy (get "content_id" c)
      then place_gain number (get "content_id" c) (get "places" segment)
      else zero_float
