-- ===== src/Nodes/Route/Legs.antt =====
-- app/nodes/agent_nodes.py, `_rebuild_legs` and the route that the node leaves: the legs join the
-- places in the order of the visit.
use mathlib.Core.List.Perm
use mathlib.Core.List.{Perm}
use map_service_agent.Prelude.{
  ℕ, ◌≡◌, refl, Option, none, some, List, [], ◌∷◌, map, ◌&&◌, ◌==◌, not, arith, Bool-cases, inl,
  inr, Option-cases,
}
use map_service_agent.Value.{FloatOps}
use map_service_agent.Failure.{returned}
use map_service_agent.Schema.Model.{Place, Leg, Mobility, AgentRequest}
use map_service_agent.Nodes.State.{AgentState}
use map_service_agent.Nodes.Input.{is_route}
use map_service_agent.Nodes.Route.{
  find_leg, find_place, leg_or, new_leg, leg_between, mobility_or_walk, rebuild_legs,
  visit_order_of, route_on, recommend_route,
}
use map_service_agent.Nodes.Route.Tour.{order_places-visits}

abbrev Joins : ℕ → ℕ → Leg → Type 0
Joins a b l = (l.from_place_id ≡ a) × (l.to_place_id ≡ b)

-- A leg for each two places that follow each other, and no other.
pub data IsPath : List ℕ → List Leg → Type 0 where
  nowhere : IsPath [] []
  at_end : {a : ℕ} → IsPath (a ∷ []) []
  step :
      {a b : ℕ} {order : List ℕ} {l : Leg} {legs : List Leg}
      → Joins a b l
      → IsPath (b ∷ order) legs
      → IsPath (a ∷ b ∷ order) (l ∷ legs)

find_leg-Joins : (a b : ℕ) (ls : List Leg) (l : Leg) → find_leg a b ls ≡ some l → Joins a b l
unfolding find_leg
find_leg-Joins a b [] l h = absurd (cc)
find_leg-Joins a b (m ∷ ls) l h = elim (Option-cases (find_leg a b ls)) [
  | inl e ↦ elim (Bool-cases (m.from_place_id == a && m.to_place_id == b)) [
    | inl t ↦ let k = rw (e, t) at h in ground arith
    | inr t ↦ let k = rw (e, t) at h in absurd (cc)
  ]
  | inr (n, e) ↦ let k = rw e at h in find_leg-Joins a b ls l (cc)
]

module _ (fl : FloatOps) where
  new_leg-Joins : (m : Mobility) (a b : ℕ) (p q : Option Place) → Joins a b (new_leg fl m a b p q)
  unfolding new_leg
  new_leg-Joins m a b none q = (refl, refl)
  new_leg-Joins m a b (some p) none = (refl, refl)
  new_leg-Joins m a b (some p) (some q) = (refl, refl)

  leg_between-Joins :
      (m : Mobility) (places : List Place) (old : List Leg) (a b : ℕ)
      → Joins a b (leg_between fl m places old a b)
  unfolding leg_between
  leg_between-Joins m places old a b =
      leg_or-Joins (find_leg a b old) (new_leg fl m a b (find_place a places) (find_place b places))
        (find_leg-Joins a b old) (new_leg-Joins m a b (find_place a places) (find_place b places))
    where
      leg_or-Joins :
          (o : Option Leg) (fresh : Leg)
          → ((l : Leg) → o ≡ some l → Joins a b l)
          → Joins a b fresh
          → Joins a b (leg_or o fresh)
      leg_or-Joins (some l) fresh h j = h l refl
      leg_or-Joins none fresh h j = j

  -- The legs of an order lead from each place to the next one, whether they are taken over from
  -- the old legs, computed, or left empty for an unknown place.
  rebuild_legs-IsPath :
      (m : Mobility) (places : List Place) (old : List Leg) (order : List ℕ)
      → IsPath order (rebuild_legs fl m places old order)
  unfolding rebuild_legs
  rebuild_legs-IsPath m places old [] = nowhere
  rebuild_legs-IsPath m places old (a ∷ []) = at_end
  rebuild_legs-IsPath m places old (a ∷ b ∷ order) =
      step (leg_between-Joins m places old a b) (rebuild_legs-IsPath m places old (b ∷ order))

  -- What the node writes for places that are there.
  pub record IsRoute (s : AgentState) (places : List Place) (t : AgentState) : Type 0 where
    order : List ℕ
    legs : List Leg
    visited : List Place
    writes : t ≡ record s { visit_order = some order; legs = some legs }
    ids : order ≡ map (λ p. p.place_id) visited
    visits : Perm visited places
    path : IsPath order legs

  visit_order_of-visits :
      (req : AgentRequest) (places : List Place)
      → (visited : List Place) × (visit_order_of fl req places ≡ map (λ p. p.place_id) visited)
        × Perm visited places
  unfolding visit_order_of
  visit_order_of-visits req places = elim (Bool-cases (is_route req.stage && not req.optimize)) [
    | inl e ↦ (places, rw e refl, Perm.refl places)
    | inr e ↦
        let (visited, ids, visits, _) = order_places-visits fl places in (visited, rw e ids, visits)
  ]

  recommend_route-found :
      (s : AgentState) (places : List Place)
      → s.error ≡ none
      → s.places ≡ some places
      → recommend_route fl s ≡ route_on fl s places
  unfolding recommend_route
  recommend_route-found s places clean found = simp (clean, found)

  -- On places that are there the route node succeeds: it writes an order that visits each place
  -- once and the legs along it, and nothing else of the state.
  pub recommend_route-IsRoute :
      (s : AgentState) (p : Place) (ps : List Place)
      → s.error ≡ none
      → s.places ≡ some (p ∷ ps)
      → (t : AgentState) × (recommend_route fl s ≡ returned t) × IsRoute s (p ∷ ps) t
  unfolding route_on
  recommend_route-IsRoute s p ps clean found =
      let (visited, ids, visits) = visit_order_of-visits s.request (p ∷ ps) in
      let order = visit_order_of fl s.request (p ∷ ps) in
      let legs = rebuild_legs fl (mobility_or_walk s.request) (p ∷ ps) [] order in
      let t = record s { visit_order = some order; legs = some legs } in
      (
        t,
        recommend_route-found s (p ∷ ps) clean found,
        record {
          order = order;
          legs = legs;
          visited = visited;
          writes = refl;
          ids = ids;
          visits = visits;
          path = rebuild_legs-IsPath (mobility_or_walk s.request) (p ∷ ps) [] order;
        },
      )
