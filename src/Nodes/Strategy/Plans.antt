-- ===== src/Nodes/Strategy/Plans.antt =====
-- app/nodes/agent_nodes.py, `plan_strategy` and `fetch_weather`: the plan has a day for each day
-- of the trip, and no weather fails a job.
use map_service_agent.Prelude.{
  ℕ, zero, suc, ◌≤◌, ◌≡◌, refl, ap, true, false, Option, none, some, List, [], ◌∷◌, map, length,
  range, All, inl, inr, Bool-cases, ◌≢◌, if◌then◌else◌, arith, ◌++◌, get_elem?,
}
use map_service_agent.Value.{Str, mem_str, str_eq, str_eq→eq, str_eq_self, FloatOps, Json, get}
use map_service_agent.Failure.{Exc, Result, returned, raised}
use map_service_agent.Schema.Calendar.{Date, next_day, plus_days, isoformat}
use map_service_agent.Schema.Model.{AgentRequest}
use map_service_agent.Nodes.State.{AgentState, DayPlan, Plan, add_warning, num_days, or_empty}
use map_service_agent.Nodes.Strategy.Entries.{
  AreEntries, AreItems, daily_of-AreItems, entries_of-AreEntries,
}
use map_service_agent.Nodes.Strategy.{
  active_minutes_of, after_weather, daily_pops, day_plans, fetch_weather, indoor_ratio,
  is_http_error, pace, plan_strategy, plan_with, pop_on, pops_from, target_stops,
  weather_unavailable, entries_of, daily_of,
}

-- One day: two to five stops, at most seven tenths indoors, and no weight without a forecast.
pub record IsDay (d : DayPlan) : Type 0 where
  at_least_two : 2 ≤ d.target_stops
  at_most_five : d.target_stops ≤ 5
  indoors : d.indoor_ratio ≤ 7
  unweighted : d.precipitation_prob ≡ none → d.indoor_ratio ≡ 0

-- The more likely the rain, the more indoors.
indoor_ratio_mono : (p q : ℕ) → p ≤ q → indoor_ratio (some p) ≤ indoor_ratio (some q)
unfolding indoor_ratio
indoor_ratio_mono p q h = ground arith

target_stops-bounds : (m : ℕ) → (2 ≤ target_stops m) × (target_stops m ≤ 5)
unfolding target_stops
target_stops-bounds m = ground arith

indoor_ratio-le : (p : Option ℕ) → indoor_ratio p ≤ 7
unfolding indoor_ratio
indoor_ratio-le none = omega arith
indoor_ratio-le (some p) = ground arith

indoor_ratio-none : (p : Option ℕ) → p ≡ none → indoor_ratio p ≡ 0
unfolding indoor_ratio
indoor_ratio-none none h = refl
indoor_ratio-none (some p) h = absurd (cc)

day_plans-IsDay : (active day : ℕ) (pops : List (Option ℕ)) → All IsDay (day_plans active day pops)
unfolding day_plans
day_plans-IsDay active day [] = tt
day_plans-IsDay active day (p ∷ pops) =
    let bounds = target_stops-bounds active in
    (
      record {
        at_least_two = bounds.0;
        at_most_five = bounds.1;
        indoors = indoor_ratio-le p;
        unweighted = indoor_ratio-none p;
      },
      day_plans-IsDay active (suc day) pops,
    )

day_plans-days :
    (active day : ℕ) (pops : List (Option ℕ))
    → map (λ d. d.day) (day_plans active day pops) ≡ range day (length pops)
unfolding day_plans
day_plans-days active day [] = refl
day_plans-days active day (p ∷ pops) = ap (λ r. day ∷ r) (day_plans-days active (suc day) pops)

day_plans-pops :
    (active day : ℕ) (pops : List (Option ℕ))
    → map (λ d. d.precipitation_prob) (day_plans active day pops) ≡ pops
unfolding day_plans
day_plans-pops active day [] = refl
day_plans-pops active day (p ∷ pops) = ap (λ r. p ∷ r) (day_plans-pops active (suc day) pops)

length-pops_from :
    (entries : List (Str × ℕ)) (d : Date) (n : ℕ) → length (pops_from entries d n) ≡ n
unfolding pops_from
length-pops_from entries d zero = refl
length-pops_from entries d (suc n) = ap suc (length-pops_from entries (next_day d) n)

-- What a forecast has for a date: the chance of its last entry for that date, or nothing where it has
-- no entry for it.
abbrev pub IsForecast : Str → List (Str × ℕ) → Option ℕ → Type 0
IsForecast date entries none = All (λ e. e.0 ≢ date) entries
IsForecast date entries (some pop) =
    (before : List (Str × ℕ)) × (later : List (Str × ℕ)) × (entries ≡ before ++ (date, pop) ∷ later)
    × All (λ e. e.0 ≢ date) later

other_date : (s t : Str) → str_eq s t ≡ false → s ≢ t
other_date s t h e = let k = rw e at h in cc (k, str_eq_self t)

pop_on-IsForecast :
    (date : Str) (entries : List (Str × ℕ)) → IsForecast date entries (pop_on date entries)
unfolding pop_on
pop_on-IsForecast date [] = tt
pop_on-IsForecast date ((day, pop) ∷ entries) =
    with_later (pop_on date entries) (pop_on-IsForecast date entries)
  where
    with_later :
        (o : Option ℕ)
        → IsForecast date entries o
        → IsForecast date
            ((day, pop) ∷ entries)
            (elim o [ some p ↦ some p | none ↦ if str_eq day date then some pop else none ])
    with_later (some p) (before, later, e, h) =
        ((day, pop) ∷ before, later, ap (λ es. (day, pop) ∷ es) e, h)
    with_later none h = elim (Bool-cases (str_eq day date)) [
      | inl e ↦ rw e ([], entries, ap (λ d. (d, pop) ∷ entries) (str_eq→eq day date e), h)
      | inr e ↦ rw e (other_date day date e, h)
    ]

-- The chance of rain of a day is that of its own date, wherever the forecast lists it.
pops_from-date :
    (entries : List (Str × ℕ)) (d : Date) (n i : ℕ)
    → suc i ≤ n
    → (pop : Option ℕ) × (get_elem? (pops_from entries d n) i ≡ some pop)
      × IsForecast (isoformat (plus_days d i)) entries pop
unfolding pops_from plus_days
pops_from-date entries d zero i h = absurd (omega arith)
pops_from-date entries d (suc n) zero h = (_, refl, pop_on-IsForecast (isoformat d) entries)
pops_from-date entries d (suc n) (suc i) h = pops_from-date entries (next_day d) n i (omega arith)

-- The plan of a trip: its days are numbered from 1 to the last, each is a day as above, and the
-- chance of rain of each is that of its own date in the forecast.
pub record IsPlanOf (req : AgentRequest) (entries : List (Str × ℕ)) (p : Plan) : Type 0 where
  numbered : map (λ d. d.day) p.days ≡ range 1 (num_days req)
  each : All IsDay p.days
  forecast :
      (i : ℕ)
      → suc i ≤ num_days req
      → (pop : Option ℕ) × (get_elem? (map (λ d. d.precipitation_prob) p.days) i ≡ some pop)
        × IsForecast (isoformat (plus_days req.date.date_start i)) entries pop

module _ (fl : FloatOps) (str_of : Json → Str) (from_iso : Str → Option Date) where
  plan_with-IsPlanOf :
      (s : AgentState) (entries : List (Str × ℕ))
      → (p : Plan) × ((plan_with fl str_of from_iso s
            (pops_from entries s.request.date.date_start (num_days s.request))).plan
          ≡ some p)
        × IsPlanOf s.request entries p
  unfolding plan_with
  plan_with-IsPlanOf s entries =
      let pops = pops_from entries s.request.date.date_start (num_days s.request) in
      let active = active_minutes_of s.request in
      let n = length-pops_from entries s.request.date.date_start (num_days s.request) in
      (
        record { days = day_plans active 1 pops; pace = pace active (target_stops active) },
        refl,
        record {
          numbered = rw n at (day_plans-days active 1 pops);
          each = day_plans-IsDay active 1 pops;
          forecast = λ i h.
              rw (day_plans-pops active 1 pops)
                (pops_from-date entries s.request.date.date_start (num_days s.request) i h);
        },
      )

  -- Without weather the plan is made all the same, as if no day had a forecast.
  pub plan_strategy-unknown :
      (s : AgentState)
      → s.error ≡ none
      → s.weather ≡ none
      → (t : AgentState) × (p : Plan) × (plan_strategy fl str_of from_iso s ≡ returned t)
        × (t.plan ≡ some p)
        × IsPlanOf s.request [] p
  unfolding plan_strategy daily_pops
  plan_strategy-unknown s clean unknown =
      let (p, written, plan) = plan_with-IsPlanOf s [] in
      (
        plan_with fl str_of from_iso s
            (pops_from [] s.request.date.date_start (num_days s.request)),
        p,
        simp (clean, unknown),
        written,
        plan,
      )

  -- Where no error is set, with weather whose daily entries can be read, the plan has a day for each
  -- day of the trip, numbered from 1, with two to five stops, no indoor weight without a forecast, and
  -- the chance of rain of the last of the entries for that very date, or none where there is none. The
  -- entries that count are the dicts in the list, in their order, with a date and with a number from
  -- 0 to 100, made an integer.
  pub plan_strategy-IsPlanOf :
      (s : AgentState) (weather : Json) (ds : List Json)
      → s.error ≡ none
      → s.weather ≡ some weather
      → daily_of fl str_of from_iso (get "daily" weather) ≡ returned ds
      → (t : AgentState) × (p : Plan) × (plan_strategy fl str_of from_iso s ≡ returned t)
        × (t.plan ≡ some p)
        × (entries : List (Str × ℕ)) × AreItems (get "daily" weather) ds
        × AreEntries fl str_of ds entries
        × IsPlanOf s.request entries p
  unfolding plan_strategy daily_pops
  plan_strategy-IsPlanOf s weather ds clean known read =
      let entries = entries_of fl str_of from_iso ds in
      let (p, written, plan) = plan_with-IsPlanOf s entries in
      (
        plan_with fl str_of from_iso s
            (pops_from entries s.request.date.date_start (num_days s.request)),
        p,
        simp (clean, known, read),
        written,
        entries,
        daily_of-AreItems fl str_of from_iso (get "daily" weather) ds read,
        entries_of-AreEntries fl str_of from_iso ds,
        plan,
      )

mem_str-snoc : (m : Str) (ws : List Str) → mem_str m (ws ++ m ∷ []) ≡ true
mem_str-snoc m [] = rw (str_eq_self m) refl
mem_str-snoc m (w ∷ ws) = ground (arith, mem_str-snoc m ws)

add_warning-warns :
    (m : Str) (s : AgentState)
    → (mem_str m (or_empty (add_warning m s).warnings) ≡ true) × ((add_warning m s).error ≡ s.error)
unfolding add_warning
add_warning-warns m s = elim (Bool-cases (mem_str m (or_empty s.warnings))) [
  | inl e ↦ (rw e e, refl)
  | inr e ↦ (rw e (mem_str-snoc m (or_empty s.warnings)), refl)
]

module _ (fl : FloatOps) (str_of : Json → Str) (from_iso : Str → Option Date) where
  -- An HTTP failure of the weather service fails no job: the node goes on without weather, warns
  -- the user, and sets no error.
  fetch_weather-degrades :
      (hub : AgentRequest → Result Json) (s : AgentState) (e : Exc)
      → s.error ≡ none
      → hub s.request ≡ raised e
      → is_http_error e ≡ true
      → (t : AgentState) × (fetch_weather fl str_of from_iso hub s ≡ returned t)
        × (t.weather ≡ none)
        × (t.error ≡ none)
        × (mem_str weather_unavailable (or_empty t.warnings) ≡ true)
  unfolding fetch_weather after_weather add_warning
  fetch_weather-degrades hub s e clean down http =
      let (warned, same) = add_warning-warns weather_unavailable (record s { weather = none }) in
      (
        add_warning weather_unavailable (record s { weather = none }),
        simp (clean, down, http),
        refl,
        clean,
        warned,
      )
