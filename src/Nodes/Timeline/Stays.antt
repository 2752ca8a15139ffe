-- ===== src/Nodes/Timeline/Stays.antt =====
-- app/nodes/agent_nodes.py, `fit_time_budget`: what trimming does to the stays.
use map_service_agent.Prelude.{
  ℕ, zero, suc, ◌≡◌, ◌⊎◌, refl, sym, subst, ◌&&◌, List, [], ◌∷◌, contains, ltb, Bool-cases,
  Option-cases, inl, inr, length,
}
use map_service_agent.Value.{FloatOps}
use map_service_agent.Nodes.State.{AgentState, Settings, or_empty}
use map_service_agent.Nodes.Timeline.Fit.{
  Cut, floored, is_settled, last_free, day_order_of, remove_first, trim_day, trim_days,
}
use map_service_agent.Nodes.Timeline.Trim.{
  lowered, without, trim_day-settled, trim_day-stuck, trim_day-removes,
}

-- Each stay is as it was, or the floor of 10 minutes.
abbrev pub Stays : (old stay : ℕ → ℕ) → Type 0
Stays old stay = (pid : ℕ) → (stay pid ≡ old pid) ⊎ (stay pid ≡ 10)

floored-Stays :
    (old stay : ℕ → ℕ) (day_order : List ℕ) → Stays old stay → Stays old (floored day_order stay)
unfolding floored
floored-Stays old stay day_order h pid =
    elim (Bool-cases (contains day_order pid && ltb 10 (stay pid))) [
      | inl e ↦ rw (floored, e) (inr refl)
      | inr e ↦ rw (floored, e) (h pid)
    ]

module _ (fl : FloatOps) (settings : Settings) where
  trim_day-Stays :
      (s : AgentState) (order : List ℕ) (day rounds : ℕ) (day_order : List ℕ) (old : ℕ → ℕ)
      (cut : Cut)
      → Stays old cut.stay
      → Stays old (trim_day fl settings s order day rounds day_order cut).stay
  unfolding trim_day
  trim_day-Stays s order day zero day_order old cut h = h
  trim_day-Stays s order day (suc rounds) day_order old cut h =
      let low = floored-Stays old cut.stay day_order h in
      elim (Bool-cases (is_settled fl settings s order day day_order (lowered day_order cut))) [
        | inl e ↦
            subst (λ c. Stays old c.stay)
              (sym (trim_day-settled fl settings s order day rounds day_order cut e)) low
        | inr e ↦ elim (Option-cases (last_free s day_order)) [
          | inl f ↦
              subst (λ c. Stays old c.stay)
                (sym (trim_day-stuck fl settings s order day rounds day_order cut e f)) low
          | inr (r, f) ↦
              subst (λ c. Stays old c.stay)
                (sym (trim_day-removes fl settings s order day rounds day_order cut r e f))
                (trim_day-Stays s order day rounds (remove_first r day_order) old
                  (without r (lowered day_order cut)) low)
        ]
      ]

  pub trim_days-Stays :
      (s : AgentState) (order days : List ℕ) (old : ℕ → ℕ) (cut : Cut)
      → Stays old cut.stay
      → Stays old (trim_days fl settings s order days cut).stay
  unfolding trim_days
  trim_days-Stays s order [] old cut h = h
  trim_days-Stays s order (d ∷ days) old cut h =
      let day_order = day_order_of (or_empty s.places) d cut.dropped order in
      trim_days-Stays s order days old
        (trim_day fl settings s order d (length day_order) day_order cut)
        (trim_day-Stays s order d (length day_order) day_order old cut h)
