-- ===== src/Nodes/Input/Accept.antt =====
-- app/nodes/agent_nodes.py, `parse_input`: which requests pass.
use map_service_agent.Prelude.{
  ℕ, ◌-◌, ◌≤◌, ◌≡◌, refl, ap, sym, ◌∙◌, some, ◌↔◌, ◌⊎◌, inl, inr, Bool, true, false, not, ◌&&◌,
  none, List, [], ◌∷◌, map, if◌then◌else◌, ltb, any, length, sort_by, arith, All, IsSorted, AtLeast,
  sort_by-IsSorted, sort_by-eq_self, ==_self,
}
use map_service_agent.Failure.{invalid_request}
use map_service_agent.Schema.Calendar.{ordinal, time_lt}
use map_service_agent.Schema.Model.{AgentRequest, SelectedPlace, Stage, init, mode1, route}
use map_service_agent.Nodes.State.{AgentState, ErrorText, fail_with, num_days, or_empty}
use map_service_agent.Nodes.Input.{
  max_range_days, date_key, is_route, is_empty, nat_list_eq, in_day_order, check_places,
  parse_input,
}

-- What the documentation of `parse_input` asks of a request.
pub record IsAcceptable (req : AgentRequest) : Type 0 where
  pub dates : date_key req.date.date_start ≤ date_key req.date.date_end
  pub length_of_trip : num_days req ≤ 15
  pub times : time_lt req.date.time_start req.date.time_end ≡ true
  pub days : All (λ p. p.day ≤ num_days req) (or_empty req.places)
  pub order : req.stage ≡ route → IsSorted (λ p. p.day) (or_empty req.places)
  pub count : req.stage ≡ route → 2 ≤ length (or_empty req.places)

nat_list_eq→eq : (xs ys : List ℕ) → nat_list_eq xs ys ≡ true → xs ≡ ys
nat_list_eq→eq [] [] h = refl
nat_list_eq→eq (x ∷ xs) (y ∷ ys) h = ground (arith, nat_list_eq→eq xs ys)
nat_list_eq→eq [] (y ∷ ys) h = ground arith
nat_list_eq→eq (x ∷ xs) [] h = ground arith

nat_list_eq_self : (xs : List ℕ) → nat_list_eq xs xs ≡ true
nat_list_eq_self [] = refl
nat_list_eq_self (x ∷ xs) = rw (==_self x) (nat_list_eq_self xs)

no_late_day :
    (n : ℕ) (ps : List SelectedPlace)
    → (any (λ p. ltb n p.day) ps ≡ false) ↔ All (λ p. p.day ≤ n) ps
no_late_day n [] = (λ h. tt, λ h. refl)
no_late_day n (p ∷ ps) =
    let (to, from) = no_late_day n ps in (λ h. ground (arith, to), λ h. ground (arith, from))

AtLeast-days :
    (k : ℕ) (ps : List SelectedPlace)
    → AtLeast (λ p. p.day) k ps ↔ AtLeast (λ d. d) k (map (λ p. p.day) ps)
AtLeast-days k [] = (λ h. h, λ h. h)
AtLeast-days k (p ∷ ps) =
    let (to, from) = AtLeast-days k ps in (λ h. (h.0, to h.1), λ h. (h.0, from h.1))

IsSorted-days :
    (ps : List SelectedPlace) → IsSorted (λ p. p.day) ps ↔ IsSorted (λ d. d) (map (λ p. p.day) ps)
IsSorted-days [] = (λ h. h, λ h. h)
IsSorted-days (p ∷ ps) =
    let (to, from) = IsSorted-days ps in
    let (low, high) = AtLeast-days p.day ps in (λ h. (low h.0, to h.1), λ h. (high h.0, from h.1))

in_day_order_iff : (ps : List SelectedPlace) → (in_day_order ps ≡ true) ↔ IsSorted (λ p. p.day) ps
unfolding in_day_order
in_day_order_iff ps =
    let days = map (λ (p : SelectedPlace). p.day) ps in
    (
      λ h.
          (IsSorted-days ps).1
            (rw (nat_list_eq→eq days (sort_by (λ d. d) days) h) (sort_by-IsSorted (λ d. d) days)),
      λ h. rw (sort_by-eq_self (λ d. d) days ((IsSorted-days ps).0 h)) (nat_list_eq_self days),
    )

module _ (s : AgentState) (clean : s.error ≡ none) where
  abbrev places : List SelectedPlace
  places = or_empty s.request.places

  abbrev route_only : Bool → Bool
  route_only b = is_route s.request.stage && b

  -- The four tests of `check_places`, none of which may hold.
  abbrev TestsFail : Type 0
  TestsFail =
      (any (λ p. ltb (num_days s.request) p.day) places ≡ false)
      × (route_only (not (in_day_order places)) ≡ false)
      × (route_only (is_empty places) ≡ false)
      × (route_only (ltb (length places) 2) ≡ false)

  check_places_tests : ((check_places s).error ≡ none) ↔ TestsFail
  unfolding check_places fail_with
  check_places_tests = (λ h. ground arith, λ h. ground arith)

  check_places-pass :
      (check_places s).error ≡ none
      → All (λ p. p.day ≤ num_days s.request) places
        × (s.request.stage ≡ route → IsSorted (λ p. p.day) places)
        × (s.request.stage ≡ route → 2 ≤ length places)
  check_places-pass h =
      let (late, unsorted, empty, few) = check_places_tests.0 h in
      (
        (no_late_day (num_days s.request) places).0 late,
        (λ r. (in_day_order_iff places).0 (ground arith)),
        λ r. ground arith,
      )

  few-is_empty : (ps : List SelectedPlace) → 2 ≤ length ps → is_empty ps ≡ false
  few-is_empty [] h = absurd (omega arith)
  few-is_empty (p ∷ ps) h = refl

  check_places-accept : IsAcceptable s.request → (check_places s).error ≡ none
  check_places-accept a = check_places_tests.1 (
    (no_late_day (num_days s.request) places).1 a.days,
    on_route s.request.stage a.order a.count,
    on_route_empty s.request.stage a.count,
    on_route_few s.request.stage a.count,
  )
    where
      on_route :
          (t : Stage)
          → (t ≡ route → IsSorted (λ p. p.day) places)
          → (t ≡ route → 2 ≤ length places)
          → (is_route t && not (in_day_order places)) ≡ false
      on_route route f g = rw ((in_day_order_iff places).1 (f refl))
      on_route init f g = refl
      on_route mode1 f g = refl

      on_route_empty :
          (t : Stage) → (t ≡ route → 2 ≤ length places) → (is_route t && is_empty places) ≡ false
      on_route_empty route g = few-is_empty places (g refl)
      on_route_empty init g = refl
      on_route_empty mode1 g = refl

      on_route_few :
          (t : Stage)
          → (t ≡ route → 2 ≤ length places)
          → (is_route t && ltb (length places) 2) ≡ false
      on_route_few route g = let two = g refl in ground arith
      on_route_few init g = refl
      on_route_few mode1 g = refl

  -- The tests that stand before `check_places`.
  date_tests : ((parse_input s).error ≡ none) ↔ (
      (date_key s.request.date.date_start ≤ date_key s.request.date.date_end)
      × (ordinal s.request.date.date_end - ordinal s.request.date.date_start ≤ max_range_days)
      × (time_lt s.request.date.time_start s.request.date.time_end ≡ true)
      × ((check_places s).error ≡ none))
  unfolding parse_input fail_with
  date_tests = (λ h. ground arith, λ h. ground arith)

  -- A request passes exactly if it is acceptable: its dates are in order and span 15 days at most,
  -- its times are in order, no chosen place has a day after the trip, and a route has two places
  -- or more, in the order of their days.
  pub parse_input-exact : ((parse_input s).error ≡ none) ↔ IsAcceptable s.request
  parse_input-exact = (to, from)
    where
      to : (parse_input s).error ≡ none → IsAcceptable s.request
      to h =
          let (dates, range, times, rest) = date_tests.0 h in
          let (days, order, count) = check_places-pass rest in
          record {
            dates = dates;
            length_of_trip = unfold num_days in omega arith;
            times = times;
            days = days;
            order = order;
            count = count;
          }

      from : IsAcceptable s.request → (parse_input s).error ≡ none
      from a =
          let range : num_days s.request ≤ 15 = a.length_of_trip in
          date_tests.1 (a.dates, (unfold num_days in omega arith), a.times, check_places-accept a)

-- What `parse_input` makes of a state: the same state, or that state with a complaint.
data Verdict (s : AgentState) : AgentState → Type 0 where
  pass : Verdict s s
  complain : (e : ErrorText) → Verdict s (fail_with e invalid_request s)

Verdict-if :
    {s t u : AgentState} (b : Bool) → Verdict s t → Verdict s u → Verdict s (if b then t else u)
Verdict-if true v w = v
Verdict-if false v w = w

read-Verdict :
    {s t : AgentState}
    → Verdict s t
    → (t ≡ s) ⊎ ((e : ErrorText) × (t ≡ fail_with e invalid_request s))
read-Verdict pass = inl refl
read-Verdict (complain e) = inr (e, refl)

parse_input-Verdict : (s : AgentState) → Verdict s (parse_input s)
unfolding parse_input check_places
parse_input-Verdict s = search (Verdict-if, pass, complain) depth 10

-- On a state without an error, a request that is acceptable leaves the state as it is. One that is
-- not ends the job as an invalid request that is not worth repeating, and nothing else in the state
-- changes.
pub parse_input-verdict :
    (s : AgentState)
    → s.error ≡ none
    → (IsAcceptable s.request × (parse_input s ≡ s))
      ⊎ ((¬ IsAcceptable s.request)
          × (e : ErrorText) × (parse_input s
              ≡ record s { error = some e; code = some invalid_request; retryable = some false }))
unfolding fail_with
parse_input-verdict s clean = elim (read-Verdict (parse_input-Verdict s)) [
  | inl same ↦ inl ((parse_input-exact s clean).0 (ap (λ t. t.error) same ∙ clean), same)
  | inr (e, failed) ↦ inr (
    λ fine.
        let passed = (parse_input-exact s clean).1 fine in
        let bad : some e ≡ none = sym (ap (λ t. t.error) failed) ∙ passed in cc bad,
    e,
    failed,
  )
]
