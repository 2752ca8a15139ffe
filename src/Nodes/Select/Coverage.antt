-- ===== src/Nodes/Select/Coverage.antt =====
-- app/nodes/agent_nodes.py, `_remaining_targets` and the last check of `recommend_places`: whether the
-- places of the user fill the plan, and whether the days of the trip have places.
use map_service_agent.Prelude.{
  ℕ, ◌≤◌, ◌<◌, ◌≡◌, ◌≢◌, ◌⊎◌, ◌↔◌, keep, ltb, ◌==◌, ◌||◌, not, any, any-found, any-none, All-imp,
  refl, sym, ◌∙◌, true, false, Option, none, some, List, [], ◌∷◌, length, range, All, Bool-cases,
  inl, inr, arith,
}
use map_service_agent.Schema.Model.{AgentRequest, Place}
use map_service_agent.Nodes.State.{DayPlan, Plan, num_days}
use map_service_agent.Nodes.Search.Merged.{Listed}
use map_service_agent.Nodes.Select.{has_day, reduced, remaining_targets, targets}

-- The places that the user keeps fill the plan: it has days, and for each as many of them as it plans.
abbrev pub Fills : List Place → Option Plan → Type 0
Fills pinned plan =
    (p : Plan) × (plan ≡ some p)
    × (p.days ≢ [])
    × All (λ d. d.target_stops ≤ length (keep (λ q. q.day == d.day) pinned)) p.days

abbrev pub HasRoom : List Place → Option Plan → Type 0
HasRoom pinned plan = (pinned ≡ []) ⊎ (¬ Fills pinned plan)

targets-zero :
    (pinned : List Place) (ds : List DayPlan)
    → (targets (reduced pinned ds) ≡ 0)
      ↔ All (λ d. d.target_stops ≤ length (keep (λ q. q.day == d.day) pinned)) ds
unfolding reduced
targets-zero pinned [] = (λ h. tt, λ h. refl)
targets-zero pinned (d ∷ ds) =
    let (to, from) = targets-zero pinned ds in
    (λ h. (omega arith, to (omega arith)), λ h. omega (arith, h.0, from h.1))

pub remaining-Fills :
    (pinned : List Place) (plan : Option Plan)
    → (remaining_targets pinned plan).1 ≡ false
    → Fills pinned plan
unfolding remaining_targets
remaining-Fills pinned none h = cc h
remaining-Fills pinned (some p) h = filled p.days refl
  where
    filled : (ds : List DayPlan) → p.days ≡ ds → Fills pinned (some p)
    filled [] e = let k = rw e at h in cc k
    filled (d ∷ ds) e =
        let k : ltb 0 (targets (reduced pinned (d ∷ ds))) ≡ false = rw e at h in
        (
          p,
          refl,
          λ z. let bad : d ∷ ds ≡ [] = sym e ∙ z in cc bad,
          rw e ((targets-zero pinned (d ∷ ds)).0 (ground arith)),
        )

pub remaining-HasRoom :
    (pinned : List Place) (plan : Option Plan)
    → (remaining_targets pinned plan).1 ≡ true
    → ¬ Fills pinned plan
unfolding remaining_targets
remaining-HasRoom pinned none h (p, e, f, a) = cc e
remaining-HasRoom pinned (some r) h (p, e, f, a) =
    let same : p ≡ r = cc in open_days r.days refl (rw same at f) (rw same at a)
  where
    open_days :
        (ds : List DayPlan)
        → r.days ≡ ds
        → r.days ≢ []
        → All (λ d. d.target_stops ≤ length (keep (λ q. q.day == d.day) pinned)) r.days
        → ⊥
    open_days [] e f a = f e
    open_days (d ∷ ds) e f a =
        let k : ltb 0 (targets (reduced pinned (d ∷ ds))) ≡ true = rw e at h in
        let z = (targets-zero pinned (d ∷ ds)).1 (rw e at a) in absurd (ground (arith, k, z))

-- The days of the trip, each with a place, and a lack of places.
abbrev pub AreCovered : AgentRequest → List Place → Type 0
AreCovered req ps =
    (2 ≤ length ps) × All (λ d. (p : Place) × Listed ps p × (p.day ≡ d)) (range 1 (num_days req))

abbrev pub IsLacking : AgentRequest → List Place → Type 0
IsLacking req ps =
    (length ps < 2) ⊎ ((d : ℕ) × Listed (range 1 (num_days req)) d × All (λ p. p.day ≢ d) ps)

has_day-Listed :
    (ps : List Place) (d : ℕ) → has_day ps d ≡ true → (p : Place) × Listed ps p × (p.day ≡ d)
has_day-Listed ps d h =
    let (p, l, e) = any-found (λ (p : Place). p.day == d) ps h in (p, l, ground arith)

pub test-AreCovered :
    (req : AgentRequest) (ps : List Place)
    → (ltb (length ps) 2 || any (λ d. not (has_day ps d)) (range 1 (num_days req))) ≡ false
    → AreCovered req ps
test-AreCovered req ps h = (
  ground arith,
  All-imp {Q = λ (d : ℕ). (p : Place) × Listed ps p × (p.day ≡ d)}
      (λ d (k : not (has_day ps d) ≡ false). has_day-Listed ps d (ground arith))
      (range 1 (num_days req))
      (any-none (λ d. not (has_day ps d)) (range 1 (num_days req)) (ground arith)),
)

no_day-All : (ps : List Place) (d : ℕ) → has_day ps d ≡ false → All (λ p. p.day ≢ d) ps
no_day-All ps d h =
    All-imp {Q = λ (p : Place). p.day ≢ d} (λ p (k : (p.day == d) ≡ false) e. absurd (ground arith))
      ps (any-none (λ (p : Place). p.day == d) ps h)

pub test-IsLacking :
    (req : AgentRequest) (ps : List Place)
    → (ltb (length ps) 2 || any (λ d. not (has_day ps d)) (range 1 (num_days req))) ≡ true
    → IsLacking req ps
test-IsLacking req ps h = elim (Bool-cases (ltb (length ps) 2)) [
  | inl e ↦ inl (ground arith)
  | inr e ↦
      let (d, l, k) = any-found (λ d. not (has_day ps d)) (range 1 (num_days req)) (ground arith) in
      inr (d, l, no_day-All ps d (ground arith))
]
