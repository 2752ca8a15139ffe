-- ===== src/Samples/Timetables.antt =====
-- The route and the timetable, on the plan of two days.
use mathlib.Core.List.{Perm}
use map_service_agent.Prelude.{
  ◌≡◌, refl, ◌&&◌, ◌||◌, none, some, List, [], ◌∷◌, map, any, ◌==◌, ltb, contains, IsSorted, arith,
}
use map_service_agent.Failure.{returned}
use map_service_agent.Schema.Model.{Place, init}
use map_service_agent.Nodes.State.{AgentState, initial, or_empty}
use map_service_agent.Nodes.Route.{order_places, recommend_route, find_place}
use map_service_agent.Nodes.Route.Tour.{order_places-visits}
use map_service_agent.Nodes.Route.Legs.{IsRoute, recommend_route-IsRoute}
use map_service_agent.Nodes.Timeline.Visits.{Walk, Visit, planned, visits, overflowed, next_place}
use map_service_agent.Nodes.Timeline.Overlap.{IsTimetable, planned-IsTimetable, overflowed-exact}
use map_service_agent.Nodes.Timeline.Fit.{Cut, fit_time_budget, trim_day}
use map_service_agent.Nodes.Timeline.Trim.{IsCut, has_place, visits_place, trim_day-IsCut}
use map_service_agent.Nodes.Timeline.Outcome.{fit_time_budget-keeps}
use map_service_agent.Nodes.Timeline.Fitted.{Outcome}
use map_service_agent.Samples.{ops, places, place, started, routed, settings}

order_places-visits_example :
    (ordered : List Place) × (order_places ops places ≡ map (λ p. p.place_id) ordered)
    × Perm ordered places
    × IsSorted (λ p. p.day) ordered
order_places-visits_example = order_places-visits ops places

abbrev chosen : AgentState
chosen = record (started init) { places = some (place 1 1 none ∷ place 4 1 none ∷ []) }

recommend_route-IsRoute_example :
    (t : AgentState) × (recommend_route ops chosen ≡ returned t)
    × IsRoute ops chosen (place 1 1 none ∷ place 4 1 none ∷ []) t
unfolding initial
recommend_route-IsRoute_example =
    recommend_route-IsRoute ops chosen (place 1 1 none) (place 4 1 none ∷ []) refl refl

abbrev walk_through : Walk
walk_through = record {
  start_min = 540;
  buffer_min = 10;
  places = places;
  stay = λ pid. 60;
  travel = λ pid. 20;
}

planned-IsTimetable_example : IsTimetable walk_through (planned walk_through (1 ∷ 2 ∷ 0 ∷ []))
unfolding planned visits next_place find_place
planned-IsTimetable_example =
    planned-IsTimetable walk_through (1 ∷ 2 ∷ 0 ∷ [])
      ((omega arith, (omega arith, tt)), ((omega arith, tt), (tt, tt)))

abbrev late : Visit
late = record { place_id = 3; day = 2; visit_start = 1000; visit_end = 1200 }

overflowed-exact_example :
    contains (overflowed 1110 (late ∷ []) []) 2
    ≡ (contains [] 2 || any (λ v. v.day == 2 && ltb 1110 v.visit_end) (late ∷ []))
overflowed-exact_example = overflowed-exact 1110 (late ∷ []) [] 2

abbrev uncut : Cut
uncut = record { stay = λ pid. 300; dropped = [] }

trim_day-IsCut_example :
    IsCut
      (or_empty routed.places)
      (or_empty routed.pinned_content_ids)
      (1 ∷ 2 ∷ 3 ∷ 4 ∷ [])
      uncut
      (trim_day ops settings routed (1 ∷ 2 ∷ 3 ∷ 4 ∷ 0 ∷ []) 1 4 (1 ∷ 2 ∷ 3 ∷ 4 ∷ []) uncut)
trim_day-IsCut_example =
    trim_day-IsCut ops settings routed (1 ∷ 2 ∷ 3 ∷ 4 ∷ 0 ∷ []) 1 4 (1 ∷ 2 ∷ 3 ∷ 4 ∷ []) uncut tt

fit_time_budget-keeps_example :
    (has_place (fit_time_budget ops settings routed) 1 ≡ has_place routed 1)
    × (visits_place (fit_time_budget ops settings routed) 1 ≡ visits_place routed 1)
unfolding initial find_place
fit_time_budget-keeps_example = fit_time_budget-keeps ops settings routed 1 refl
