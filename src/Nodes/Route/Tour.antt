-- ===== src/Nodes/Route/Tour.antt =====
-- app/nodes/agent_nodes.py, `_order_places`: the groups of the days, one after the other.
use mathlib.Core.List.Perm
use mathlib.Core.List.{Perm, perm_middle, append_assoc, append-nil, map-append, perm_append_comm}
use native.Mathlib.Nat.{ℕ_set}
use map_service_agent.Prelude.{
  ℕ, ◌≤◌, ◌≡◌, refl, ap, List, [], ◌∷◌, ◌++◌, map, ◌==◌, sort_by, arith, Bool-cases, inl, inr, All,
  All-append, All-perm, All-sort_by, IsSorted, sort_by-IsSorted, AtLeast, insert_by, leb,
}
use map_service_agent.Value.{FloatOps}
use map_service_agent.Schema.Model.{Place}
use map_service_agent.Nodes.Route.{add_to_day, by_day, tour_places, tour, extend_all, order_places}
use map_service_agent.Nodes.Route.Trips.{Keeps, tour_places-Keeps}

-- All the places of the groups.
abbrev in_groups : List (ℕ × List Place) → List Place
in_groups [] = []
in_groups ((d, ps) ∷ groups) = ps ++ in_groups groups

-- Each group holds places of its day.
abbrev OfDay : ℕ × List Place → Type 0
OfDay (d, ps) = All (λ p. p.day ≡ d) ps

abbrev IsGrouped : List (ℕ × List Place) → Type 0
IsGrouped = All OfDay

in_groups-add_to_day :
    (p : Place) (gs : List (ℕ × List Place)) → Perm (in_groups (add_to_day p gs)) (p ∷ in_groups gs)
unfolding add_to_day
in_groups-add_to_day p [] = Perm.refl (p ∷ [])
in_groups-add_to_day p ((d, ps) ∷ gs) = elim (Bool-cases (d == p.day)) [
  | inl e ↦ rw e (rw append_assoc (perm_middle ps (in_groups gs)))
  | inr e ↦
      rw e (
        Perm.trans (Perm.append_left ps (in_groups-add_to_day p gs))
          (perm_middle ps (in_groups gs)))
]

add_to_day-IsGrouped :
    (p : Place) (gs : List (ℕ × List Place)) → IsGrouped gs → IsGrouped (add_to_day p gs)
unfolding add_to_day
add_to_day-IsGrouped p [] h = ((refl, tt), tt)
add_to_day-IsGrouped p ((d, ps) ∷ gs) h = elim (Bool-cases (d == p.day)) [
  | inl e ↦ rw e (All-append (λ q. q.day ≡ d) ps (p ∷ []) h.0 (ground arith, tt), h.1)
  | inr e ↦ rw e (h.0, add_to_day-IsGrouped p gs h.1)
]

in_groups-by_day :
    (ps : List Place) (gs : List (ℕ × List Place))
    → Perm (in_groups (by_day ps gs)) (ps ++ in_groups gs)
unfolding by_day
in_groups-by_day [] gs = Perm.refl (in_groups gs)
in_groups-by_day (p ∷ ps) gs =
    Perm.trans (in_groups-by_day ps (add_to_day p gs))
      (Perm.trans (Perm.append_left ps (in_groups-add_to_day p gs)) (perm_middle ps (in_groups gs)))

by_day-IsGrouped :
    (ps : List Place) (gs : List (ℕ × List Place)) → IsGrouped gs → IsGrouped (by_day ps gs)
unfolding by_day
by_day-IsGrouped [] gs h = h
by_day-IsGrouped (p ∷ ps) gs h = by_day-IsGrouped ps (add_to_day p gs) (add_to_day-IsGrouped p gs h)

abbrev day_of : ℕ × List Place → ℕ
day_of g = g.0

in_groups-insert :
    (g : ℕ × List Place) (gs : List (ℕ × List Place))
    → Perm (in_groups (insert_by day_of g gs)) (in_groups (g ∷ gs))
in_groups-insert g [] = Perm.refl (in_groups (g ∷ []))
in_groups-insert (d, ps) ((e, qs) ∷ gs) = elim (Bool-cases (leb d e)) [
  | inl h ↦ rw h (Perm.refl (ps ++ (qs ++ in_groups gs)))
  | inr h ↦ rw h (
      Perm.trans (Perm.append_left qs (in_groups-insert (d, ps) gs)) (
        let moved = Perm.append_right (in_groups gs) (perm_append_comm qs ps) in
        rw (append_assoc, append_assoc) at moved))
]

in_groups-sort : (gs : List (ℕ × List Place)) → Perm (in_groups (sort_by day_of gs)) (in_groups gs)
in_groups-sort [] = Perm.refl []
in_groups-sort ((d, ps) ∷ gs) =
    Perm.trans (in_groups-insert (d, ps) (sort_by day_of gs))
      (Perm.append_left ps (in_groups-sort gs))

AtLeast-day :
    (k d : ℕ) (ps qs : List Place)
    → k ≤ d
    → All (λ p. p.day ≡ d) ps
    → AtLeast (λ p. p.day) k qs
    → AtLeast (λ p. p.day) k (ps ++ qs)
AtLeast-day k d [] qs h o a = a
AtLeast-day k d (p ∷ ps) qs h o a = (omega (arith, o.0), AtLeast-day k d ps qs h o.1 a)

IsSorted-day :
    (d : ℕ) (ps qs : List Place)
    → All (λ p. p.day ≡ d) ps
    → AtLeast (λ p. p.day) d qs
    → IsSorted (λ p. p.day) qs
    → IsSorted (λ p. p.day) (ps ++ qs)
IsSorted-day d [] qs o a s = s
IsSorted-day d (p ∷ ps) qs o a s =
    ((rw o.0 (AtLeast-day d d ps qs (omega arith) o.1 a)), IsSorted-day d ps qs o.1 a s)

module _ (fl : FloatOps) where
  tour-OfDay : (d : ℕ) (ps : List Place) → OfDay (d, ps) → All (λ p. p.day ≡ d) (tour_places fl ps)
  tour-OfDay d ps h =
      All-perm (λ p. p.day ≡ d) (λ p. ℕ_set p.day d) (Perm.symm (tour_places-Keeps fl ps).places) h

  -- The places in the order of `extend_all`.
  abbrev toured : List (ℕ × List Place) → List Place
  toured [] = []
  toured ((d, ps) ∷ gs) = tour_places fl ps ++ toured gs

  extend_all-toured :
      (gs : List (ℕ × List Place)) → extend_all fl gs ≡ map (λ p. p.place_id) (toured gs)
  unfolding extend_all tour
  extend_all-toured [] = refl
  extend_all-toured ((d, ps) ∷ gs) = simp (map-append, extend_all-toured gs)

  toured-perm : (gs : List (ℕ × List Place)) → Perm (toured gs) (in_groups gs)
  toured-perm [] = Perm.refl []
  toured-perm ((d, ps) ∷ gs) = Perm.append (tour_places-Keeps fl ps).places (toured-perm gs)

  AtLeast-toured :
      (k : ℕ) (gs : List (ℕ × List Place))
      → AtLeast day_of k gs
      → IsGrouped gs
      → AtLeast (λ p. p.day) k (toured gs)
  AtLeast-toured k [] a g = tt
  AtLeast-toured k ((d, ps) ∷ gs) a g =
      AtLeast-day k d (tour_places fl ps) (toured gs) a.0 (tour-OfDay d ps g.0)
        (AtLeast-toured k gs a.1 g.1)

  toured-IsSorted :
      (gs : List (ℕ × List Place))
      → IsSorted day_of gs
      → IsGrouped gs
      → IsSorted (λ p. p.day) (toured gs)
  toured-IsSorted [] s g = tt
  toured-IsSorted ((d, ps) ∷ gs) s g =
      IsSorted-day d (tour_places fl ps) (toured gs) (tour-OfDay d ps g.0)
        (AtLeast-toured d gs s.0 g.1) (toured-IsSorted gs s.1 g.1)

  -- The order visits every place exactly once, and the days in turn: it lists the ids of a
  -- permutation of the places whose days do not fall.
  pub order_places-visits :
      (places : List Place)
      → (ordered : List Place) × (order_places fl places ≡ map (λ p. p.place_id) ordered)
        × Perm ordered places
        × IsSorted (λ p. p.day) ordered
  unfolding order_places
  order_places-visits places =
      let groups = by_day places [] in
      let sorted = sort_by day_of groups in
      let grouped = All-sort_by day_of OfDay groups (by_day-IsGrouped places [] tt) in
      let all = in_groups-by_day places [] in
      (
        toured sorted,
        extend_all-toured sorted,
        Perm.trans (toured-perm sorted) (Perm.trans (in_groups-sort groups) (rw append-nil at all)),
        toured-IsSorted sorted (sort_by-IsSorted day_of groups) grouped,
      )

  -- A day's tour visits its places once and starts at the first of them, the best ranked.
  tour-starts :
      (p : Place) (ps : List Place)
      → (ordered : List Place) × (tour fl (p ∷ ps) ≡ p.place_id ∷ map (λ q. q.place_id) ordered)
        × Perm (p ∷ ordered) (p ∷ ps)
  unfolding tour
  tour-starts p ps = starts (tour_places fl (p ∷ ps)) (tour_places-Keeps fl (p ∷ ps))
    where
      starts :
          (t : List Place)
          → Keeps fl t (p ∷ ps)
          → (ordered : List Place) × (map (λ q. q.place_id) t
              ≡ p.place_id ∷ map (λ q. q.place_id) ordered)
            × Perm (p ∷ ordered) (p ∷ ps)
      starts [] k = let e = k.start in absurd (cc)
      starts (q ∷ t) k =
          let start = k.start in
          let e : q ≡ p = cc in
          (t, ap (λ (r : Place). r.place_id ∷ map (λ q. q.place_id) t) e, rw e at k.places)
