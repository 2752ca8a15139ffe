-- ===== src/Nodes/Timeline/Outcome.antt =====
-- app/nodes/agent_nodes.py, `fit_time_budget`: the places that it keeps.
use map_service_agent.Prelude.{
  ℕ, ◌≡◌, refl, ap, ◌∙◌, false, List, [], ◌∷◌, contains, any, ◌==◌, Bool-cases, inl, inr,
}
use map_service_agent.Value.{FloatOps}
use map_service_agent.Schema.Model.{Place}
use map_service_agent.Nodes.State.{AgentState, Settings, Slot, add_warning, fail_with, or_empty}
use map_service_agent.Nodes.Route.{find_place}
use map_service_agent.Nodes.Timeline.Visits.{find_slot}
use map_service_agent.Nodes.Timeline.Fit.{
  Cut, is_free, is_manual, is_skipped, over_budget, left_in, plan_timeline_with, stay_in_slot,
  trim_days, without_dropped, finish, fit, fit_time_budget,
}
use map_service_agent.Nodes.Timeline.Trim.{
  AllFree-contains, any-places_left, contains-left_in, has_place, trim_days-AllFree, visits_place,
}

finish-places :
    (s : AgentState) (planning : List (ℕ × Slot) × List ℕ)
    → ((finish s planning).places ≡ s.places) × ((finish s planning).visit_order ≡ s.visit_order)
unfolding finish fail_with add_warning
finish-places s (timeline, []) = (refl, refl)
finish-places s (timeline, d ∷ ds) = (refl, refl)

module _ (fl : FloatOps) (settings : Settings) where
  abbrev first_cut : AgentState → Cut
  first_cut s = record {
    stay = λ pid. stay_in_slot (find_slot pid (or_empty s.timeline));
    dropped = [];
  }

  without_dropped-keeps :
      (s : AgentState) (dropped : List ℕ) (i : ℕ)
      → contains dropped i ≡ false
      → (has_place (without_dropped fl settings s (or_empty s.visit_order) dropped) i
          ≡ has_place s i)
        × (visits_place (without_dropped fl settings s (or_empty s.visit_order) dropped) i
            ≡ visits_place s i)
  unfolding without_dropped
  without_dropped-keeps s [] i h = (refl, refl)
  without_dropped-keeps s (d ∷ ds) i h = (
    any-places_left (d ∷ ds) (or_empty s.places) i h,
    contains-left_in (d ∷ ds) (or_empty s.visit_order) i h,
  )

  over_budget-keeps :
      (s : AgentState) (i : ℕ)
      → (has_place (over_budget s) i ≡ has_place s i)
        × (visits_place (over_budget s) i ≡ visits_place s i)
  unfolding over_budget fail_with
  over_budget-keeps s i = (refl, refl)

  fit-keeps :
      (s : AgentState) (days : List ℕ) (i : ℕ)
      → is_free (or_empty s.pinned_content_ids) (find_place i (or_empty s.places)) ≡ false
      → (has_place (fit fl settings s days) i ≡ has_place s i)
        × (visits_place (fit fl settings s days) i ≡ visits_place s i)
  unfolding fit
  fit-keeps s days i h =
      let order = or_empty s.visit_order in
      let cut = trim_days fl settings s order days (first_cut s) in
      let t = without_dropped fl settings s order cut.dropped in
      let free = trim_days-AllFree fl settings s order days (first_cut s) tt in
      let out =
        AllFree-contains (or_empty s.places) (or_empty s.pinned_content_ids) cut.dropped i free h in
      let kept = without_dropped-keeps s cut.dropped i out in
      let (ps, os) =
        finish-places t
          (plan_timeline_with fl settings t cut.stay (left_in cut.dropped order) cut.dropped) in
      (
        ap (λ q. any (λ (p : Place). p.place_id == i) (or_empty q)) ps ∙ kept.0,
        ap (λ q. contains (or_empty q) i) os ∙ kept.1,
      )

  -- Whatever the node does, the places that the user pinned stay: such a place is in the places,
  -- and in the order of the visit, exactly if it was there before.
  pub fit_time_budget-keeps :
      (s : AgentState) (i : ℕ)
      → is_free (or_empty s.pinned_content_ids) (find_place i (or_empty s.places)) ≡ false
      → (has_place (fit_time_budget fl settings s) i ≡ has_place s i)
        × (visits_place (fit_time_budget fl settings s) i ≡ visits_place s i)
  unfolding fit_time_budget
  fit_time_budget-keeps s i h = elim (Bool-cases (is_skipped settings s)) [
    | inl e ↦ rw e (refl, refl)
    | inr e ↦ elim (Bool-cases (is_manual s)) [
      | inl m ↦ rw (e, m) (over_budget-keeps s i)
      | inr m ↦ rw (e, m) (fit-keeps s (or_empty s.timeline_overflow_days) i h)
    ]
  ]
