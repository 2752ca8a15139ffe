-- ===== src/Nodes/Timeline/Visits.antt =====
-- app/nodes/agent_nodes.py, `_minutes_to_hhmm`, `_leg_minutes` and `_plan_timeline`: the visits in
-- the order of the route, from the start of each day. The local variables of one round of the
-- loop are a `Visit`, from which the slots and the days that overflow are taken.
use map_service_agent.Prelude.{
  ℕ, ◌+◌, ◌*◌, ◌/◌, ◌%◌, Bool, false, ◌&&◌, not, Option, none, some, List, [], ◌∷◌, ◌++◌,
  if◌then◌else◌, ltb, ◌==◌, contains, min,
}
use map_service_agent.Value.{Str, ℤ, pos, negsuc}
use map_service_agent.Schema.Calendar.{two_digits, minutes_of}
use map_service_agent.Schema.Model.{Place, Leg, AgentRequest}
use map_service_agent.Nodes.State.{Settings, Slot}
use map_service_agent.Nodes.Route.{find_place}

-- `_minutes_to_hhmm`; no minute is below 0
unfoldable pub minutes_to_hhmm : ℕ → Str
minutes_to_hhmm minutes =
    let capped = min minutes (23 * 60 + 59) in
    two_digits (capped / 60) ++ b':' ∷ two_digits (capped % 60)

-- `_leg_minutes`: of two entries for a place the later one holds.
unfoldable pub leg_minutes : List Leg → List ℕ → ℕ → Option ℕ
leg_minutes [] order pid = none
leg_minutes (l ∷ ls) [] pid = none
leg_minutes (l ∷ ls) (p ∷ order) pid = elim (leg_minutes ls order pid) [
  | some m ↦ some m
  | none ↦ if p == pid then some l.estimated_duration_min else none
]

-- `d.get(key, 0)`
abbrev pub or_zero : Option ℕ → ℕ
or_zero none = 0
or_zero (some n) = n

-- `max(0, value)`
abbrev pub at_least_zero : ℤ → ℕ
at_least_zero (pos n) = n
at_least_zero (negsuc n) = 0

pub record Visit : Type 0 where
  pub place_id : ℕ
  pub day : ℕ
  pub visit_start : ℕ
  pub visit_end : ℕ

-- What the loop reads: the start of a day, the buffer, the places, the stays and the travel times.
pub record Walk : Type 0 where
  pub start_min : ℕ
  pub buffer_min : ℕ
  pub places : List Place
  pub stay : ℕ → ℕ
  pub travel : ℕ → ℕ

-- `place.day == current_day`
abbrev pub on_day : ℕ → Option ℕ → Bool
on_day d none = false
on_day d (some e) = d == e

-- `next_place is not None and next_place.day == current_day`
abbrev pub stays_on : ℕ → Option Place → Bool
stays_on d none = false
stays_on d (some p) = p.day == d

unfoldable pub next_place : Walk → List ℕ → Option Place
next_place w [] = none
next_place w (pid ∷ order) = find_place pid w.places

-- The loop of `_plan_timeline`.
unfoldable pub visits : Walk → (cursor : ℕ) (current_day : Option ℕ) → List ℕ → List Visit
visits w cursor current_day [] = []
visits w cursor current_day (pid ∷ order) = elim (find_place pid w.places) [
  | none ↦ visits w cursor current_day order
  | some place ↦
      let from = if on_day place.day current_day then cursor else w.start_min in
      let until = from + w.stay pid in
      let next =
        if stays_on place.day (next_place w order)
        then until + w.travel pid + w.buffer_min
        else until in
      record { place_id = pid; day = place.day; visit_start = from; visit_end = until }
      ∷ visits w next (some place.day) order
]

-- `timeline[pid] = …`
unfoldable pub put_slot : ℕ → Slot → List (ℕ × Slot) → List (ℕ × Slot)
put_slot pid slot [] = (pid, slot) ∷ []
put_slot pid slot ((q, old) ∷ timeline) =
    if q == pid then (q, slot) ∷ timeline else (q, old) ∷ put_slot pid slot timeline

unfoldable pub find_slot : ℕ → List (ℕ × Slot) → Option Slot
find_slot pid [] = none
find_slot pid ((q, slot) ∷ timeline) = if q == pid then some slot else find_slot pid timeline

unfoldable pub slots : (stay : ℕ → ℕ) → List Visit → List (ℕ × Slot) → List (ℕ × Slot)
slots stay [] timeline = timeline
slots stay (v ∷ vs) timeline = slots stay vs (
    put_slot v.place_id
      (record {
        stay_minutes = stay v.place_id;
        visit_start = minutes_to_hhmm v.visit_start;
        visit_end = minutes_to_hhmm v.visit_end;
        stay_source = none;
      })
      timeline)

-- `overflowed`, in the order in which the days are first exceeded
unfoldable pub overflowed : (end_min : ℕ) → List Visit → List ℕ → List ℕ
overflowed end_min [] days = days
overflowed end_min (v ∷ vs) days =
    overflowed end_min vs
      (if ltb end_min v.visit_end && not (contains days v.day) then days ++ v.day ∷ [] else days)

-- The parts of the state that `_plan_timeline` reads.
unfoldable pub walk_of : Settings → AgentRequest → List Place → List ℕ → List Leg → (ℕ → ℕ) → Walk
walk_of settings req places order legs stay = record {
  start_min = minutes_of req.date.time_start;
  buffer_min = at_least_zero settings.timeline_buffer_minutes;
  places = places;
  stay = stay;
  travel = λ pid. or_zero (leg_minutes legs order pid);
}

unfoldable pub planned : Walk → List ℕ → List Visit
planned w order = visits w w.start_min none order

unfoldable pub end_of : AgentRequest → ℕ
end_of req = minutes_of req.date.time_end

-- `_plan_timeline`, on the places, the order and the legs of a state or of a probe
unfoldable pub plan_timeline :
    Settings → AgentRequest → List Place → List ℕ → List Leg → (ℕ → ℕ) → List (ℕ × Slot) × List ℕ
plan_timeline settings req places order legs stay =
    let vs = planned (walk_of settings req places order legs stay) order in
    (slots stay vs [], overflowed (end_of req) vs [])
