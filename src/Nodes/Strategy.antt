-- ===== src/Nodes/Strategy.antt =====
-- app/nodes/agent_nodes.py, the plan of the days: `fetch_weather` and `plan_strategy`. The hub's
-- weather is a parameter, and so are `str` of a JSON value and `date.fromisoformat`.
pub mod Entries
pub mod Plans
use map_service_agent.Prelude.{
  ℕ, zero, suc, ◌+◌, ◌-◌, ◌*◌, ◌/◌, Bool, true, false, ◌&&◌, ◌||◌, not, Option, none, some, List,
  [], ◌∷◌, ◌++◌, map, if◌then◌else◌, ltb, leb, ◌==◌, min, max,
}
use map_service_agent.Value.{
  Str, codes, str_eq, Json, null, bool, int, float, str, arr, obj, ℤ, pos, negsuc, Items, Fields,
  nil, cons, end, field, to_list, get, is_obj, truthy, FloatOps, float_le, zero_float, hundred,
}
use map_service_agent.Failure.{
  Exc, Result, returned, raised, ◌>>=◌, timeout_exception, http_status_error, request_error,
  type_error,
}
use map_service_agent.Schema.Calendar.{Date, next_day, plus_days, isoformat, minutes_of}
use map_service_agent.Schema.Model.{AgentRequest}
use map_service_agent.Nodes.State.{
  AgentState, DayPlan, Plan, Pace, relaxed, normal, tight, add_warning, has_error, num_days,
}
use map_service_agent.Nodes.Input.{date_key}

abbrev pub weather_unavailable : Str
weather_unavailable = codes "날씨 정보를 확인하지 못해 일정에 반영하지 못했습니다"

abbrev missing_forecast : Str
missing_forecast = codes " 는 날씨 예보를 확인하지 못해 해당 날짜에 날씨 조건을 반영하지 못했습니다"

-- `except httpx.HTTPStatusError` and `except httpx.HTTPError`
abbrev pub is_http_error : Exc → Bool
is_http_error timeout_exception = true
is_http_error (http_status_error status body) = true
is_http_error request_error = true
is_http_error _ = false

-- Texts in the order of `sorted`.
abbrev pub text_le : Str → Str → Bool
text_le [] t = true
text_le (a ∷ s) [] = false
text_le (a ∷ s) (b ∷ t) = ltb a b || (a == b && text_le s t)

abbrev insert_text : Str → List Str → List Str
insert_text s [] = s ∷ []
insert_text s (t ∷ ts) = if text_le s t then s ∷ t ∷ ts else t ∷ insert_text s ts

abbrev sort_texts : List Str → List Str
sort_texts [] = []
sort_texts (s ∷ ss) = insert_text s (sort_texts ss)

-- `', '.join(…)`
abbrev join_commas : List Str → Str
join_commas [] = []
join_commas (s ∷ []) = s
join_commas (s ∷ t ∷ ss) = s ++ (b',' ∷ b' ' ∷ join_commas (t ∷ ss))

-- `_target_stops`
unfoldable pub target_stops : ℕ → ℕ
target_stops active_minutes =
    if active_minutes == 0 then 2 else max 2 (min 5 (active_minutes / 100))

-- `_indoor_ratio`, in tenths
unfoldable pub indoor_ratio : Option ℕ → ℕ
indoor_ratio none = 0
indoor_ratio (some pop) =
    if leb 70 pop then 7 else if leb 50 pop then 5 else if leb 30 pop then 3 else 0

-- `_pace`: the quotient is compared by its product
unfoldable pub pace : ℕ → ℕ → Pace
pace active_minutes stops =
    if stops == 0
    then relaxed
    else if ltb active_minutes (90 * stops)
    then tight
    else if ltb (150 * stops) active_minutes
    then relaxed
    else normal

-- The minutes of a day; a difference below 0 counts as 0, which all that reads it does too.
abbrev pub active_minutes_of : AgentRequest → ℕ
active_minutes_of req = minutes_of req.date.time_end - minutes_of req.date.time_start

-- `by_date.get(key)`: of two entries for a date the last one holds.
unfoldable pub pop_on : Str → List (Str × ℕ) → Option ℕ
pop_on key [] = none
pop_on key ((date, pop) ∷ entries) = elim (pop_on key entries) [
  | some p ↦ some p
  | none ↦ if str_eq date key then some pop else none
]

unfoldable pub pops_from : List (Str × ℕ) → Date → ℕ → List (Option ℕ)
pops_from entries d zero = []
pops_from entries d (suc n) = pop_on (isoformat d) entries ∷ pops_from entries (next_day d) n

unfoldable pub day_plans : (active : ℕ) → (day : ℕ) → List (Option ℕ) → List DayPlan
day_plans active day [] = []
day_plans active day (pop ∷ pops) =
    record {
      day = day;
      target_stops = target_stops active;
      indoor_ratio = indoor_ratio pop;
      precipitation_prob = pop;
    }
    ∷ day_plans active (suc day) pops

module _ (fl : FloatOps) (str_of : Json → Str) (from_iso : Str → Option Date) where
  -- A number from 0 to 100, made an integer; a `bool` is none.
  unfoldable pub percent_of : Json → Option ℕ
  percent_of (int (pos n)) = if leb n 100 then some n else none
  percent_of (float x) =
      if float_le zero_float x && float_le x hundred then some (fl.trunc_nat x) else none
  percent_of _ = none

  -- `str(d.get("date") or "")`
  unfoldable pub date_text : Json → Str
  date_text d = let v = get "date" d in if truthy v then str_of v else []

  -- What one entry of `daily` adds to `by_date`
  unfoldable pub entry_of : Json → List (Str × ℕ)
  entry_of d =
      if is_obj d
      then elim (date_text d) [
        | [] ↦ []
        | c ∷ s ↦ elim (percent_of (get "precipitation_prob" d)) [
          | none ↦ []
          | some p ↦ (c ∷ s, p) ∷ []
        ]
      ]
      else []

  unfoldable pub entries_of : List Json → List (Str × ℕ)
  entries_of [] = []
  entries_of (d ∷ ds) = entry_of d ++ entries_of ds

  -- `weather.get("daily") or []`: the items of a dict or a text are texts, which are skipped, and
  -- a number cannot be iterated.
  unfoldable pub daily_of : Json → Result (List Json)
  daily_of v =
      if truthy v
      then elim v [
        | arr items ↦ returned (to_list items)
        | obj fields ↦ returned []
        | str text ↦ returned []
        | null ↦ returned []
        | bool b ↦ raised type_error
        | int n ↦ raised type_error
        | float x ↦ raised type_error
      ]
      else returned []

  -- `_daily_pops`
  unfoldable pub daily_pops : Option Json → Date → ℕ → Result (List (Option ℕ))
  daily_pops none start n = returned (pops_from [] start n)
  daily_pops (some weather) start n =
      daily_of (get "daily" weather) >>= λ ds. returned (pops_from (entries_of ds) start n)

  unfoldable pub plan_with : AgentState → List (Option ℕ) → AgentState
  plan_with s pops =
      let active = active_minutes_of s.request in
      record s {
        plan =
            some
              (record { days = day_plans active 1 pops; pace = pace active (target_stops active) });
      }

  unfoldable pub plan_strategy : AgentState → Result AgentState
  plan_strategy s =
      if has_error s
      then returned s
      else daily_pops s.weather s.request.date.date_start (num_days s.request) >>= λ pops.
          returned (plan_with s pops)

  -- The keys of `missing_dates` that name a day of the trip
  unfoldable pub missing_on_trip : AgentRequest → List Json → List Str
  missing_on_trip req [] = []
  missing_on_trip req (raw ∷ raws) =
      let rest = missing_on_trip req raws in
      elim (from_iso (str_of raw)) [
        | none ↦ rest
        | some d ↦
            if leb (date_key req.date.date_start) (date_key d)
              && leb (date_key d) (date_key req.date.date_end)
            then str_of raw ∷ rest
            else rest
      ]

  -- `_warn_missing_forecast_days`
  unfoldable pub warn_missing : AgentState → Json → AgentState
  warn_missing s weather = elim (get "missing_dates" weather) [
    | arr items ↦ elim (missing_on_trip s.request (to_list items)) [
      | [] ↦ s
      | hit ∷ hits ↦ add_warning (join_commas (sort_texts (hit ∷ hits)) ++ missing_forecast) s
    ]
    | null ↦ s
    | bool b ↦ s
    | int n ↦ s
    | float x ↦ s
    | str text ↦ s
    | obj fields ↦ s
  ]

  unfoldable pub after_weather : AgentState → Result Json → Result AgentState
  after_weather s (returned weather) =
      returned (warn_missing (record s { weather = some weather }) weather)
  after_weather s (raised e) =
      if is_http_error e
      then returned (add_warning weather_unavailable (record s { weather = none }))
      else raised e

  -- `fetch_weather`, with the hub's answer to the request's region and dates
  unfoldable pub fetch_weather : (hub : AgentRequest → Result Json) → AgentState → Result AgentState
  fetch_weather hub s = if has_error s then returned s else after_weather s (hub s.request)
