-- ===== src/Nodes/Timeline/Fit.antt =====
-- app/nodes/agent_nodes.py, `_plan_timeline_with` and `fit_time_budget`.
use mathlib.Core.List.{reverse}
use map_service_agent.Prelude.{
  ℕ, zero, suc, Bool, true, false, ◌&&◌, ◌||◌, not, Option, none, some, List, [], ◌∷◌, ◌++◌,
  if◌then◌else◌, ltb, leb, ◌==◌, contains, length, keep,
}
use map_service_agent.Value.{Str, codes, mem_str, FloatOps}
use map_service_agent.Failure.{invalid_request}
use map_service_agent.Schema.Model.{Place, init, mode1, route, trimmed, unverified}
use map_service_agent.Nodes.State.{
  AgentState, Settings, Slot, add_warning, fail_with, has_error, is_some, or_empty,
  selected_places_exceed_the_time_budget, verified_places_exceed_the_time_budget,
}
use map_service_agent.Nodes.Route.{find_place, mobility_or_walk, rebuild_legs}
use map_service_agent.Nodes.Timeline.Visits.{find_slot, plan_timeline}
use map_service_agent.Nodes.Timeline.Build.{is_empty_list, with_source}

abbrev pub floor_min : ℕ
floor_min = 10

abbrev pub keep_min : ℕ
keep_min = 2

abbrev pub budget_warning : Str
budget_warning = codes "하루 활동 시간에 맞춰 일부 일정을 줄였습니다"

-- `[pid for pid in order if pid not in dropped]`
abbrev pub left_in : List ℕ → List ℕ → List ℕ
left_in dropped order = keep (λ pid. not (contains dropped pid)) order

-- `[p for p in places if p.place_id not in dropped]`
abbrev pub places_left : List ℕ → List Place → List Place
places_left dropped places = keep (λ p. not (contains dropped p.place_id)) places

-- `pid in by_id and by_id[pid].day == day`
abbrev pub is_on_day : List Place → ℕ → ℕ → Bool
is_on_day places day pid = elim (find_place pid places) [ none ↦ false | some p ↦ p.day == day ]

-- `day_order`
abbrev pub day_order_of : List Place → ℕ → List ℕ → List ℕ → List ℕ
day_order_of places day dropped order =
    keep (λ pid. is_on_day places day pid && not (contains dropped pid)) order

-- The loop that sets the stays of a day to the floor.
unfoldable pub floored : List ℕ → (ℕ → ℕ) → ℕ → ℕ
floored day_order stay pid =
    if contains day_order pid && ltb floor_min (stay pid) then floor_min else stay pid

-- `by_id[pid].content_id not in pinned_ids`
abbrev pub is_free : List Str → Option Place → Bool
is_free pinned none = true
is_free pinned (some p) = elim p.content_id [ none ↦ true | some c ↦ not (mem_str c pinned) ]

unfoldable pub first_free : List Place → List Str → List ℕ → Option ℕ
first_free places pinned [] = none
first_free places pinned (pid ∷ pids) =
    if is_free pinned (find_place pid places) then some pid else first_free places pinned pids

-- `day_order.remove(removed)`
unfoldable pub remove_first : ℕ → List ℕ → List ℕ
remove_first pid [] = []
remove_first pid (q ∷ qs) = if q == pid then qs else q ∷ remove_first pid qs

-- The stays and the places left out so far.
pub record Cut : Type 0 where
  pub stay : ℕ → ℕ
  pub dropped : List ℕ

-- `request.stage == "route" or (request.stage == "mode1" and request.places and …)`
abbrev pub is_manual : AgentState → Bool
is_manual s = elim s.request.stage [
  | route ↦ true
  | mode1 ↦ not (is_empty_list (or_empty s.request.places)) && not (is_some s.pinned_content_ids)
  | init ↦ false
]

abbrev pub stay_in_slot : Option Slot → ℕ
stay_in_slot none = 0
stay_in_slot (some slot) = slot.stay_minutes

abbrev pub source_in_slot : Option Slot → Str
source_in_slot none = codes "default"
source_in_slot (some slot) = elim slot.stay_source [ none ↦ codes "default" | some source ↦ source ]

-- The candidate to leave out: the last of the day that is not the user's own
unfoldable pub last_free : AgentState → List ℕ → Option ℕ
last_free s day_order =
    first_free (or_empty s.places) (or_empty s.pinned_content_ids) (reverse day_order)

-- The end of the node: the new timetable, or the failure.
unfoldable pub finish : AgentState → List (ℕ × Slot) × List ℕ → AgentState
finish s (timeline, []) = add_warning budget_warning (record s {
  timeline =
      some (with_source (λ pid. source_in_slot (find_slot pid (or_empty s.timeline))) timeline);
  timeline_status = some trimmed;
  timeline_overflow_days = none;
})
finish s (timeline, day ∷ days) =
    fail_with verified_places_exceed_the_time_budget invalid_request
      (record s { timeline_status = some unverified; timeline_overflow_days = some (day ∷ days) })

-- The guards at the start of the node
unfoldable pub is_skipped : Settings → AgentState → Bool
is_skipped settings s =
    has_error s
    || not settings.timeline_enabled
    || is_empty_list (or_empty s.timeline_overflow_days)

-- The failure of a plan that is the user's own
unfoldable pub over_budget : AgentState → AgentState
over_budget s =
    fail_with selected_places_exceed_the_time_budget invalid_request
      (record s { timeline_status = some unverified })

module _ (fl : FloatOps) (settings : Settings) where
  -- `_plan_timeline_with`
  unfoldable pub plan_timeline_with :
      AgentState → (ℕ → ℕ) → List ℕ → List ℕ → List (ℕ × Slot) × List ℕ
  plan_timeline_with s stay order dropped =
      let probe_order = left_in dropped order in
      let places = or_empty s.places in
      plan_timeline settings s.request (places_left dropped places) probe_order
        (rebuild_legs fl (mobility_or_walk s.request) places (or_empty s.legs) probe_order) stay

  unfoldable pub still_over : AgentState → ℕ → List ℕ → Cut → Bool
  still_over s day order cut = contains (plan_timeline_with s cut.stay order cut.dropped).1 day

  -- The two tests that end the inner loop
  unfoldable pub is_settled : AgentState → List ℕ → ℕ → List ℕ → Cut → Bool
  is_settled s order day day_order cut =
      not (still_over s day order cut) || leb (length day_order) keep_min

  -- The inner loop on one day, with the rounds that are left.
  unfoldable pub trim_day : AgentState → (order : List ℕ) → (day : ℕ) → ℕ → List ℕ → Cut → Cut
  trim_day s order day zero day_order cut = cut
  trim_day s order day (suc rounds) day_order cut =
      let low = record cut { stay = floored day_order cut.stay } in
      elim (is_settled s order day day_order low) [
        | true ↦ low
        | false ↦ elim (last_free s day_order) [
          | none ↦ low
          | some removed ↦
              trim_day s order day rounds (remove_first removed day_order)
                (record low { dropped = low.dropped ++ removed ∷ [] })
        ]
      ]

  -- The loop over the days.
  unfoldable pub trim_days : AgentState → List ℕ → List ℕ → Cut → Cut
  trim_days s order [] cut = cut
  trim_days s order (day ∷ days) cut =
      let day_order = day_order_of (or_empty s.places) day cut.dropped order in
      trim_days s order days (trim_day s order day (length day_order) day_order cut)

  -- `if dropped: …`
  unfoldable pub without_dropped : AgentState → List ℕ → List ℕ → AgentState
  without_dropped s order [] = s
  without_dropped s order (d ∷ ds) =
      let left = left_in (d ∷ ds) order in
      let places = places_left (d ∷ ds) (or_empty s.places) in
      record s {
        places = some places;
        visit_order = some left;
        legs = some (rebuild_legs fl (mobility_or_walk s.request) places (or_empty s.legs) left);
      }

  unfoldable pub fit : AgentState → List ℕ → AgentState
  fit s days =
      let order = or_empty s.visit_order in
      let stay : ℕ → ℕ = λ pid. stay_in_slot (find_slot pid (or_empty s.timeline)) in
      let cut = trim_days s order days (record { stay = stay; dropped = [] }) in
      let t = without_dropped s order cut.dropped in
      finish t (plan_timeline_with t cut.stay (left_in cut.dropped order) cut.dropped)

  unfoldable pub fit_time_budget : AgentState → AgentState
  fit_time_budget s =
      if is_skipped settings s
      then s
      else if is_manual s
      then over_budget s
      else fit s (or_empty s.timeline_overflow_days)
