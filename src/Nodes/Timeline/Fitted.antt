-- ===== src/Nodes/Timeline/Fitted.antt =====
-- app/nodes/agent_nodes.py, `fit_time_budget`: how the node ends.
use map_service_agent.Prelude.{
  ℕ, ◌≤◌, ◌<◌, ◌≡◌, ◌≢◌, false, not, none, some, List, [], contains, keep, All,
}
use map_service_agent.Value.{Str, FloatOps}
use map_service_agent.Failure.{invalid_request}
use map_service_agent.Schema.Model.{Place, Leg, trimmed, unverified}
use map_service_agent.Nodes.State.{
  AgentState, Settings, or_empty, selected_places_exceed_the_time_budget,
  verified_places_exceed_the_time_budget,
}
use map_service_agent.Nodes.Route.{mobility_or_walk, rebuild_legs}
use map_service_agent.Nodes.Search.Merged.{Listed}
use map_service_agent.Nodes.Timeline.Visits.{
  Visit, Walk, walk_of, planned, slots, end_of, find_slot,
}
use map_service_agent.Nodes.Timeline.Build.{with_source}
use map_service_agent.Nodes.Timeline.Fit.{
  Cut, left_in, places_left, stay_in_slot, trim_days, without_dropped,
}
use map_service_agent.Nodes.Timeline.Trim.{AllFree}
use map_service_agent.Nodes.Timeline.Guards.{IsIdle, IsManual}
use map_service_agent.Nodes.Timeline.Stays.{Stays}

module _ (fl : FloatOps) (settings : Settings) where
  old_stay : AgentState → ℕ → ℕ
  old_stay s pid = stay_in_slot (find_slot pid (or_empty s.timeline))

  -- What is left of the places and of the order, none of the user's left out, and the walk along it
  -- with stays that are cut to the floor or not.
  pub record IsTrimmed (s : AgentState) (places : List Place) (order : List ℕ) (legs : List Leg)
      (walk : Walk) : Type 0 where
    dropped : List ℕ
    stay : ℕ → ℕ
    free : AllFree (or_empty s.places) (or_empty s.pinned_content_ids) dropped
    stays : Stays (λ pid. stay_in_slot (find_slot pid (or_empty s.timeline))) stay
    kept : places ≡ keep (λ p. not (contains dropped p.place_id)) (or_empty s.places)
    left : order ≡ keep (λ pid. not (contains dropped pid)) (or_empty s.visit_order)
    walked :
        walk
        ≡ walk_of settings s.request places order
            (rebuild_legs fl (mobility_or_walk s.request) places legs order)
            stay

  -- How the node ends.
  pub data Outcome (s : AgentState) : AgentState → Type 0 where
    skipped : IsIdle settings s → Outcome s s
    refused :
        ¬ IsIdle settings s
        → IsManual s
        → Outcome s (record s {
          timeline_status = some unverified;
          error = some selected_places_exceed_the_time_budget;
          code = some invalid_request;
          retryable = some false;
        })
    too_long :
        (t : AgentState) (walk : Walk) (v : Visit)
        → ¬ IsIdle settings s
        → ¬ IsManual s
        → IsTrimmed s (or_empty t.places) (or_empty t.visit_order) (or_empty t.legs) walk
        → Listed (planned walk (or_empty t.visit_order)) v
        → end_of s.request < v.visit_end
        → t.error ≡ some verified_places_exceed_the_time_budget
        → t.code ≡ some invalid_request
        → t.retryable ≡ some false
        → t.timeline_status ≡ some unverified
        → or_empty t.timeline_overflow_days ≢ []
        → Outcome s t
    fitted :
        (t : AgentState) (walk : Walk) (source : ℕ → Str)
        → ¬ IsIdle settings s
        → ¬ IsManual s
        → IsTrimmed s (or_empty t.places) (or_empty t.visit_order) (or_empty t.legs) walk
        → t.timeline
          ≡ some (with_source source (slots walk.stay (planned walk (or_empty t.visit_order)) []))
        → All (λ v. v.visit_end ≤ end_of s.request) (planned walk (or_empty t.visit_order))
        → t.error ≡ s.error
        → t.timeline_status ≡ some trimmed
        → t.timeline_overflow_days ≡ none
        → Outcome s t

  module _ (s : AgentState) (busy : ¬ IsIdle settings s) (own : ¬ IsManual s) where
    abbrev walk_left : List ℕ → (ℕ → ℕ) → Walk
    walk_left dropped stay =
        let order = or_empty s.visit_order in
        let t = without_dropped fl settings s order dropped in
        let left = left_in dropped (left_in dropped order) in
        let places = or_empty t.places in
        walk_of settings s.request (places_left dropped places) left
          (rebuild_legs fl (mobility_or_walk s.request) places (or_empty t.legs) left) stay

    cut_of : List ℕ → Cut
    cut_of days =
        trim_days fl settings s (or_empty s.visit_order) days
          (record { stay = old_stay s; dropped = [] })
