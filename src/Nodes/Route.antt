-- ===== src/Nodes/Route.antt =====
-- app/nodes/agent_nodes.py, the route: `recommend_route`, the order of the places of each day, and
-- the legs between them.
pub mod Trips
pub mod Tour
pub mod Legs
use map_service_agent.Prelude.{
  ℕ, zero, suc, ◌+◌, ◌-◌, ◌<◌, Bool, true, false, not, ◌&&◌, Option, none, some, List, [], ◌∷◌,
  ◌++◌, map, if◌then◌else◌, ltb, ◌==◌, length, get_elem?, take, drop, max, sort_by, range,
}
use mathlib.Core.List.{reverse}
use map_service_agent.Value.{Float, FloatOps, float_lt}
use map_service_agent.Failure.{Result, returned, raised, key_error, selection_invalid}
use map_service_agent.Schema.Model.{
  Place, Leg, Mobility, walk, bicycle, scooter, car, transit, AgentRequest, route,
}
use map_service_agent.Nodes.State.{
  AgentState, has_error, or_empty, fail_with, recommend_route_has_no_places,
}
use map_service_agent.Nodes.Input.{is_route}

-- The constants 6371.0, 2.0, 1e-9, 60.0, 1.3 and the speeds.
abbrev earth_radius : Float
earth_radius = record { bits = 0x40b8e30000000000 }

abbrev two : Float
two = record { bits = 0x4000000000000000 }

abbrev epsilon : Float
epsilon = record { bits = 0x3e112e0be826d695 }

abbrev sixty : Float
sixty = record { bits = 0x404e000000000000 }

abbrev detour_factor : Float
detour_factor = record { bits = 0x3ff4cccccccccccd }

abbrev pub zero_km : Float
zero_km = record { bits = 0 }

abbrev speed_kmh : Mobility → Float
speed_kmh walk = record { bits = 0x4012000000000000 }
speed_kmh bicycle = record { bits = 0x402e000000000000 }
speed_kmh scooter = record { bits = 0x4034000000000000 }
speed_kmh car = record { bits = 0x403e000000000000 }
speed_kmh transit = record { bits = 0x4034000000000000 }

-- A dict over the place ids: of two entries for an id the last one holds.
unfoldable pub find_place : ℕ → List Place → Option Place
find_place i [] = none
find_place i (p ∷ ps) = elim (find_place i ps) [
  | some q ↦ some q
  | none ↦ if p.place_id == i then some p else none
]

-- `old_by_pair`
unfoldable pub find_leg : ℕ → ℕ → List Leg → Option Leg
find_leg a b [] = none
find_leg a b (l ∷ ls) = elim (find_leg a b ls) [
  | some m ↦ some m
  | none ↦ if l.from_place_id == a && l.to_place_id == b then some l else none
]

-- `if reused is not None`
abbrev pub leg_or : Option Leg → Leg → Leg
leg_or (some reused) fresh = reused
leg_or none fresh = fresh

-- `remaining.remove(nearest)`: the element at an index, and the others
unfoldable pub extract : ℕ → Place → List Place → Place × List Place
extract zero x xs = (x, xs)
extract (suc i) x [] = (x, [])
extract (suc i) x (y ∷ ys) = let (z, rest) = extract i y ys in (z, x ∷ rest)

-- `tour[i + 1:k + 1] = reversed(tour[i + 1:k + 1])`
unfoldable pub reverse_between : ℕ → ℕ → List Place → List Place
reverse_between i k tour =
    take (i + 1) tour
    ++ (reverse (take (k - i) (drop (i + 1) tour)) ++ drop (k - i) (drop (i + 1) tour))

-- `by_day.setdefault(p.day, []).append(p)`
unfoldable pub add_to_day : Place → List (ℕ × List Place) → List (ℕ × List Place)
add_to_day p [] = (p.day, p ∷ []) ∷ []
add_to_day p ((d, ps) ∷ groups) =
    if d == p.day then (d, ps ++ p ∷ []) ∷ groups else (d, ps) ∷ add_to_day p groups

unfoldable pub by_day : List Place → List (ℕ × List Place) → List (ℕ × List Place)
by_day [] groups = groups
by_day (p ∷ ps) groups = by_day ps (add_to_day p groups)

abbrev pub mobility_or_walk : AgentRequest → Mobility
mobility_or_walk req = elim req.mobility [ none ↦ walk | some m ↦ m ]

abbrev pub max_rounds : ℕ
max_rounds = 20

module _ (fl : FloatOps) where
  abbrev square : Float → Float
  square x = fl.mul x x

  -- `_straight_km`, the haversine
  unfoldable pub straight_km : Float → Float → Float → Float → Float
  straight_km lat1 lng1 lat2 lng2 =
      let dp = fl.radians (fl.sub lat2 lat1) in
      let dl = fl.radians (fl.sub lng2 lng1) in
      let a = fl.add (square (fl.sin (fl.div dp two))) (
        fl.mul (fl.mul (fl.cos (fl.radians lat1)) (fl.cos (fl.radians lat2)))
          (square (fl.sin (fl.div dl two)))) in
      fl.mul (fl.mul two earth_radius) (fl.asin (fl.sqrt a))

  abbrev pub km_between : Place → Place → Float
  km_between p q = straight_km p.lat p.lng q.lat q.lng

  -- `_walk_minutes`
  unfoldable pub walk_minutes : Float → Mobility → ℕ
  walk_minutes km mobility =
      max 1 (fl.round_nat (fl.mul (fl.div (fl.mul km detour_factor) (speed_kmh mobility)) sixty))

  -- `min(remaining, key=…)`: the index of the first of the nearest
  unfoldable pub nearest_index :
      (last : Place) (best : Place) (best_index index : ℕ) → List Place → ℕ
  nearest_index last best best_index index [] = best_index
  nearest_index last best best_index index (p ∷ ps) =
      let nearer = float_lt (km_between last p) (km_between last best) in
      nearest_index last (if nearer then p else best) (if nearer then index else best_index)
        (suc index) ps

  -- The `while remaining` loop, on the count of places that remain.
  unfoldable pub nearest_tour : ℕ → Place → List Place → List Place
  nearest_tour zero last remaining = []
  nearest_tour (suc n) last [] = []
  nearest_tour (suc n) last (x ∷ xs) =
      let (nearest, remaining) = extract (nearest_index last x 0 1 xs) x xs in
      nearest ∷ nearest_tour n nearest remaining

  -- The test of the inner loop: `after < before - 1e-9`
  unfoldable pub shorter : Place → Place → Place → Option Place → Bool
  shorter a b c none = float_lt (km_between a c) (fl.sub (km_between a b) epsilon)
  shorter a b c (some d) =
      float_lt (fl.add (km_between a c) (km_between b d))
        (fl.sub (fl.add (km_between a b) (km_between c d)) epsilon)

  -- The body of the inner loop, with the places that it reads. The first three are in the list,
  -- since `i + 1 < k < n`.
  unfoldable pub swap_between :
      (i k : ℕ) → List Place → Bool → (a b c d : Option Place) → List Place × Bool
  swap_between i k tour improved none b c d = (tour, improved)
  swap_between i k tour improved (some a) none c d = (tour, improved)
  swap_between i k tour improved (some a) (some b) none d = (tour, improved)
  swap_between i k tour improved (some a) (some b) (some c) d =
      if shorter a b c d then (reverse_between i k tour, true) else (tour, improved)

  unfoldable pub try_swap : ℕ → ℕ → List Place × Bool → List Place × Bool
  try_swap i k (tour, improved) =
      swap_between i k tour improved (get_elem? tour i) (get_elem? tour (i + 1)) (get_elem? tour k)
        (get_elem? tour (k + 1))

  -- The loop over `k`, and the loop over `i`.
  unfoldable pub inner_loop : ℕ → List ℕ → List Place × Bool → List Place × Bool
  inner_loop i [] t = t
  inner_loop i (k ∷ ks) t = inner_loop i ks (try_swap i k t)

  unfoldable pub outer_loop : ℕ → List ℕ → List Place × Bool → List Place × Bool
  outer_loop n [] t = t
  outer_loop n (i ∷ is) t = outer_loop n is (inner_loop i (range (i + 2) (n - (i + 2))) t)

  -- `_two_opt`, with the rounds that are left
  unfoldable pub two_opt : ℕ → List Place → List Place
  two_opt zero tour = tour
  two_opt (suc rounds) tour =
      let n = length tour in
      let (next, improved) = outer_loop n (range 0 (n - 2)) (tour, false) in
      elim improved [ true ↦ two_opt rounds next | false ↦ next ]

  -- `_tour`, before it takes the ids
  unfoldable pub tour_places : List Place → List Place
  tour_places [] = []
  tour_places (p ∷ []) = p ∷ []
  tour_places (p ∷ q ∷ []) = p ∷ q ∷ []
  tour_places (p ∷ rest) = two_opt max_rounds (p ∷ nearest_tour (length rest) p rest)

  unfoldable pub tour : List Place → List ℕ
  tour places = map (λ p. p.place_id) (tour_places places)

  unfoldable pub extend_all : List (ℕ × List Place) → List ℕ
  extend_all [] = []
  extend_all ((d, ps) ∷ groups) = tour ps ++ extend_all groups

  -- `_order_places`
  unfoldable pub order_places : List Place → List ℕ
  order_places places = extend_all (sort_by (λ g. g.0) (by_day places []))

  -- A leg that was not there before, with the places that it joins.
  unfoldable pub new_leg : Mobility → (a b : ℕ) → Option Place → Option Place → Leg
  new_leg mobility a b (some pa) (some pb) = record {
    from_place_id = a;
    to_place_id = b;
    mode = mobility;
    estimated_distance_km = fl.round_2 (km_between pa pb);
    estimated_duration_min = walk_minutes (km_between pa pb) mobility;
  }
  new_leg mobility a b _ _ = record {
    from_place_id = a;
    to_place_id = b;
    mode = mobility;
    estimated_distance_km = zero_km;
    estimated_duration_min = 0;
  }

  -- One leg of `_rebuild_legs`.
  unfoldable pub leg_between : Mobility → List Place → List Leg → ℕ → ℕ → Leg
  leg_between mobility places old a b =
      leg_or (find_leg a b old) (new_leg mobility a b (find_place a places) (find_place b places))

  -- `_rebuild_legs`, of the parts of the state that it reads
  unfoldable pub rebuild_legs : Mobility → List Place → List Leg → List ℕ → List Leg
  rebuild_legs mobility places old [] = []
  rebuild_legs mobility places old (a ∷ []) = []
  rebuild_legs mobility places old (a ∷ b ∷ order) =
      leg_between mobility places old a b ∷ rebuild_legs mobility places old (b ∷ order)

  -- The order that the node takes: the user's own on a route, unless it asks for another.
  unfoldable pub visit_order_of : AgentRequest → List Place → List ℕ
  visit_order_of req places =
      if is_route req.stage && not req.optimize
      then map (λ p. p.place_id) places
      else order_places places

  unfoldable pub route_on : AgentState → List Place → Result AgentState
  route_on s [] = returned (fail_with recommend_route_has_no_places selection_invalid s)
  route_on s (p ∷ ps) =
      let order = visit_order_of s.request (p ∷ ps) in
      returned (record s {
        visit_order = some order;
        legs = some (rebuild_legs (mobility_or_walk s.request) (p ∷ ps) [] order);
      })

  unfoldable pub recommend_route : AgentState → Result AgentState
  recommend_route s =
      if has_error s
      then returned s
      else elim s.places [ none ↦ raised key_error | some places ↦ route_on s places ]
