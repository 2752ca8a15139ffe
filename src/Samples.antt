-- ===== src/Samples.antt =====
-- Requests, places, states and services on which the theorems are tried.
mod Jobs
mod Timetables
mod Limits
mod Texts
mod Selections
mod Services
mod Summaries
mod Searches
mod Seals
mod Statistics
mod Reviews
use map_service_agent.Prelude.{
  ℕ, zero, suc, ◌+◌, ◌-◌, ◌*◌, ◌/◌, Bool, true, false, Option, none, some, List, [], ◌∷◌, max,
}
use map_service_agent.Value.{
  Str, codes, Float, FloatOps, Json, null, int, float, str, arr, obj, nil, cons, end, field, pos,
}
use map_service_agent.Schema.Calendar.{Date, Time}
use map_service_agent.Schema.Model.{
  AgentRequest, DateRange, Place, Leg, SelectedPlace, Stage, init, mode1, route, Mobility, walk,
  car,
}
use map_service_agent.Nodes.State.{AgentState, Settings, initial, Slot}

-- Numbers that are whole stand for themselves in these operations.
abbrev pub whole : ℕ → Float
whole n = record { bits = n }

abbrev pub ops : FloatOps
ops = record {
  add = λ x y. whole (x.bits + y.bits);
  sub = λ x y. whole (x.bits - y.bits);
  mul = λ x y. whole (x.bits * y.bits);
  div = λ x y. x;
  of_nat = whole;
  pow_nat = λ x n. x;
  radians = λ x. x;
  sin = λ x. x;
  cos = λ x. x;
  asin = λ x. x;
  sqrt = λ x. x;
  round_nat = λ x. x.bits;
  round_2 = λ x. x;
  trunc_nat = λ x. x.bits;
}

abbrev pub dates : DateRange
dates = record {
  date_start = record { year = 2026; month = 7; day = 31 };
  date_end = record { year = 2026; month = 8; day = 1 };
  time_start = record { hour = 9; minute = 0; micros = 0 };
  time_end = record { hour = 18; minute = 30; micros = 0 };
}

abbrev pub request : Stage → AgentRequest
request stage = record {
  date = dates;
  budget = none;
  theme = none;
  mobility = some car;
  province = codes "Gangwon";
  city = codes "Sokcho";
  schedule_id = none;
  stage = stage;
  optimize = false;
  exclude = none;
  places = none;
  loc = none;
}

abbrev pub place : (id day : ℕ) → Option Str → Place
place id day content_id = record {
  place_id = id;
  day = day;
  name = codes "place";
  address = [];
  lat = whole (10 * id);
  lng = whole 7;
  recommended_visit_time = [];
  content_id = content_id;
  source = none;
  category = none;
  category_group_code = none;
  phone = none;
  place_url = none;
  crs_dstnc_km = none;
  crs_total_min = none;
  crs_level = none;
  brd_div = none;
  gpx_url = none;
  route_idx = none;
  grounded = true;
  stay_minutes = none;
  visit_start = none;
  visit_end = none;
  stay_source = none;
  reason = none;
  bullets = none;
}

abbrev pub places : List Place
places =
    place 0 2 none
    ∷ place 1 1 (some (codes "c1"))
    ∷ place 2 1 none
    ∷ place 3 1 none
    ∷ place 4 1 none
    ∷ []

abbrev pub leg : (a b minutes : ℕ) → Leg
leg a b minutes = record {
  from_place_id = a;
  to_place_id = b;
  mode = car;
  estimated_distance_km = whole 1;
  estimated_duration_min = minutes;
}

abbrev pub settings : Settings
settings = record {
  gemini_max_calls_per_request = 3;
  reviews_enrich_enabled = false;
  reviews_max_places = 0;
  reviews_display = 0;
  reviews_fetch_cap_per_job = 0;
  candidates_max_base = 20;
  candidates_per_day = 5;
  personalization_enabled = false;
  rules_enabled = false;
  timeline_enabled = true;
  timeline_buffer_minutes = pos 10;
}

abbrev pub started : Stage → AgentState
started stage = initial (codes "job-1") (request stage)

abbrev pub long_stay : Slot
long_stay = record {
  stay_minutes = 300;
  visit_start = [];
  visit_end = [];
  stay_source = some (codes "rule");
}

-- A plan whose first day is too long; the user pinned a place of it.
abbrev pub routed : AgentState
routed = record (started init) {
  places = some places;
  pinned_content_ids = some (codes "c1" ∷ []);
  visit_order = some (1 ∷ 2 ∷ 3 ∷ 4 ∷ 0 ∷ []);
  legs = some (leg 1 2 20 ∷ leg 2 3 20 ∷ leg 3 4 20 ∷ leg 4 0 20 ∷ []);
  timeline = some ((1, long_stay) ∷ (2, long_stay) ∷ (3, long_stay) ∷ (4, long_stay) ∷ []);
  timeline_overflow_days = some (1 ∷ []);
}

abbrev pub rain : Json
rain = obj (
    field (codes "date") (str (codes "2026-08-01"))
      (field (codes "precipitation_prob") (int (pos 80)) end))

abbrev pub weather : Json
weather = obj (field (codes "daily") (arr (cons rain nil)) end)

-- A place in Seoul, as the hub's search gives it, and as the user chose it.
abbrev pub seoul_lat : Float
seoul_lat = record { bits = 0x4042c00000000000 }

abbrev pub seoul_lng : Float
seoul_lng = record { bits = 0x405fc00000000000 }

abbrev pub candidate : Json
candidate = obj (
    field (codes "content_id") (str (codes "k1")) (
      field (codes "source") (str (codes "kakao")) (
        field (codes "name") (str (codes "Cafe"))
          (field (codes "lat") (float seoul_lat) (field (codes "lng") (float seoul_lng) end)))))

abbrev pub answer : Json
answer = obj (field (codes "places") (arr (cons candidate nil)) end)

abbrev pub given : SelectedPlace
given = record {
  name = codes "Cafe";
  address = [];
  lat = seoul_lat;
  lng = seoul_lng;
  day = 2;
  content_id = some (codes "k1");
  category = none;
}
