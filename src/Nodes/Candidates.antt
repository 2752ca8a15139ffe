-- ===== src/Nodes/Candidates.antt =====
-- app/nodes/agent_nodes.py, candidates from the hub: `_place_from_candidate` and
-- `_cap_candidates`. How pydantic and `float` read a number is a parameter. `none` stands for the
-- exceptions of a candidate that is no place, which the callers skip; the OverflowError of `float` on
-- an integer that is too large for it, which they do not catch, is not told apart.
pub mod Cap
pub mod Origin
use map_service_agent.Prelude.{
  ℕ, zero, suc, ◌+◌, ◌-◌, ◌/◌, Bool, true, false, ◌&&◌, ◌||◌, not, Option, none, some, List, [],
  ◌∷◌, ◌++◌, if◌then◌else◌, ltb, leb, ◌==◌, between, length, get_elem?, take, drop, sort_by,
}
use map_service_agent.Value.{
  Str, codes, str_eq, includes, mem_str, is_blank, Json, null, bool, int, float, str, arr, obj, ℤ,
  find, get, truthy, is_obj, Float,
}
use map_service_agent.Sanitize.{neutralize, neutralize_tags}
use map_service_agent.Schema.Model.{Place}
use map_service_agent.Schema.Check.{validated}

abbrev pub and_then {ℓ κ} : {A : Type ℓ} {B : Type κ} → Option A → (A → Option B) → Option B
and_then none f = none
and_then (some a) f = f a

-- How numbers are read: `float(v)`, and the optional fields of `Place`.
pub record Reader : Type 0 where
  pub number : Json → Option Float
  pub optional_float : Json → Option (Option Float)
  pub optional_int : Json → Option (Option ℤ)

-- What a candidate gives for a place.
pub record Source : Type 0 where
  pub name : Str
  pub address : Str
  pub lat : Float
  pub lng : Float
  pub content_id : Str
  pub source : Option Str
  pub category : Option Str
  pub category_group_code : Option Str
  pub phone : Option Str
  pub place_url : Option Str
  pub crs_dstnc_km : Option Float
  pub crs_total_min : Option ℤ
  pub crs_level : Option ℤ
  pub brd_div : Option Str
  pub gpx_url : Option Str
  pub route_idx : Option Str

-- One character of `text.lower()`, as far as it matters for `"stub"`
abbrev pub lower : ℕ → ℕ
lower c = if between b'A' b'Z' c then c + 32 else c

abbrev pub lowered : Str → Str
lowered [] = []
lowered (c ∷ s) = lower c ∷ lowered s

-- An optional text field
abbrev pub optional_text : Json → Option (Option Str)
optional_text null = some none
optional_text (str s) = some (some s)
optional_text _ = none

-- `(c.get(key) or "")[:n]`
abbrev pub text_up_to : ℕ → Json → Option Str
text_up_to n (str s) = some (take n s)
text_up_to n v = if truthy v then none else some []

-- The first two checks of `_place_from_candidate`.
unfoldable pub source_id : Json → Option Str
source_id (str s) = if is_blank s || includes (lowered s) (codes "stub") then none else some s
source_id _ = none

unfoldable pub is_verified_source : Json → Bool
is_verified_source (str s) = str_eq s (codes "kakao") || str_eq s (codes "durunubi")
is_verified_source _ = false

unfoldable pub source_of : Reader → Json → Option Source
source_of r c =
    if is_obj c && is_verified_source (get "source" c)
    then and_then (source_id (get "content_id" c)) (λ content_id.
      and_then (text_up_to 80 (get "name" c)) (λ name.
        and_then (text_up_to 200 (get "address" c)) (λ address.
          and_then (r.number (get "lat" c)) (λ lat. and_then (r.number (get "lng" c)) (λ lng.
            and_then (optional_text (get "source" c)) (λ source.
              and_then (optional_text (neutralize_tags (get "category" c))) (λ category.
                and_then (optional_text (get "category_group_code" c)) (λ category_group_code.
                  and_then (optional_text (get "phone" c)) (λ phone.
                    and_then (optional_text (get "place_url" c)) (λ place_url.
                      and_then (r.optional_float (get "crs_dstnc_km" c)) (λ crs_dstnc_km.
                        and_then (r.optional_int (get "crs_total_min" c)) (λ crs_total_min.
                          and_then (r.optional_int (get "crs_level" c)) (λ crs_level.
                            and_then (optional_text (get "brd_div" c)) (λ brd_div.
                              and_then (optional_text (get "gpx_url" c)) (λ gpx_url.
                                and_then (optional_text (get "route_idx" c)) (λ route_idx.
                                  some (record {
                                    name = name;
                                    address = address;
                                    lat = lat;
                                    lng = lng;
                                    content_id = content_id;
                                    source = source;
                                    category = category;
                                    category_group_code = category_group_code;
                                    phone = phone;
                                    place_url = place_url;
                                    crs_dstnc_km = crs_dstnc_km;
                                    crs_total_min = crs_total_min;
                                    crs_level = crs_level;
                                    brd_div = brd_div;
                                    gpx_url = gpx_url;
                                    route_idx = route_idx;
                                  })))))))))))))))))
    else none

-- The arguments of `Place(…)`
unfoldable pub place_of : ℕ → Str → ℕ → Source → Place
place_of place_id visit_time day c = record {
  place_id = place_id;
  day = day;
  name = c.name;
  address = c.address;
  lat = c.lat;
  lng = c.lng;
  recommended_visit_time = neutralize visit_time;
  content_id = some c.content_id;
  source = c.source;
  category = c.category;
  category_group_code = c.category_group_code;
  phone = c.phone;
  place_url = c.place_url;
  crs_dstnc_km = c.crs_dstnc_km;
  crs_total_min = c.crs_total_min;
  crs_level = c.crs_level;
  brd_div = c.brd_div;
  gpx_url = c.gpx_url;
  route_idx = c.route_idx;
  grounded = true;
  stay_minutes = none;
  visit_start = none;
  visit_end = none;
  stay_source = none;
  reason = none;
  bullets = none;
}

-- `_place_from_candidate`
unfoldable pub place_from_candidate : Reader → ℕ → Json → Str → ℕ → Option Place
place_from_candidate r place_id c visit_time day =
    and_then (source_of r c) (λ source. validated (place_of place_id visit_time day source))

-- `code in _INDOOR_CATEGORY_GROUPS`, of a code that can be hashed: the hub gives texts
abbrev indoor_groups : List Str
indoor_groups = codes "CE7" ∷ codes "FD6" ∷ codes "CT1" ∷ codes "MT1" ∷ codes "AD5" ∷ []

unfoldable pub is_indoor : Json → Bool
is_indoor (str code) = mem_str code indoor_groups
is_indoor _ = false

-- The indices of the candidates that are indoor, or outdoor.
unfoldable pub indices_of : Bool → ℕ → List Json → List ℕ
indices_of indoor i [] = []
indices_of indoor i (c ∷ cs) = elim (is_indoor (get "category_group_code" c)) [
  | true ↦ elim indoor [
    | true ↦ i ∷ indices_of indoor (suc i) cs
    | false ↦ indices_of indoor (suc i) cs
  ]
  | false ↦ elim indoor [
    | true ↦ indices_of indoor (suc i) cs
    | false ↦ i ∷ indices_of indoor (suc i) cs
  ]
]

abbrev pub with_found : Option Json → List Json → List Json
with_found none cs = cs
with_found (some c) cs = c ∷ cs

-- `[candidates[i] for i in keep]`; every index is in the list.
unfoldable pub elements : List Json → List ℕ → List Json
elements cs [] = []
elements cs (i ∷ is) = with_found (get_elem? cs i) (elements cs is)

-- `keep`: the indices that are taken, half of them indoor if there are so many
unfoldable pub kept_indices : ℕ → (indoor outdoor : List ℕ) → List ℕ
kept_indices limit indoor outdoor =
    let take_in = take (limit / 2) indoor in
    let take_out = take (limit - length take_in) outdoor in
    let short = limit - length take_in - length take_out in
    sort_by (λ i. i) ((take_in ++ take short (drop (length take_in) indoor)) ++ take_out)

-- `_cap_candidates`
unfoldable pub cap_candidates : List Json → ℕ → List Json
cap_candidates cs limit =
    if limit == 0 || leb (length cs) limit
    then cs
    else elements cs (kept_indices limit (indices_of true 0 cs) (indices_of false 0 cs))
