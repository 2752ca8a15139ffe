-- ===== src/Nodes/Timeline/Trim.antt =====
-- app/nodes/agent_nodes.py, `fit_time_budget`: what is left out, and what a success and a failure
-- leave behind.
use mathlib.Core.List.{reverse, reverse-cons}
use map_service_agent.Prelude.{
  ℕ, zero, suc, ◌+◌, ◌≤◌, ◌<◌, ◌≡◌, refl, sym, ap, ◌∙◌, Bool, true, false, none, some, List, [],
  ◌∷◌, ◌++◌, ◌==◌, min, contains, contains-append, any, length, length-append, All, arith,
  Bool-cases, Option-cases, inl, inr,
}
use map_service_agent.Value.{Str, FloatOps}
use map_service_agent.Schema.Model.{Place}
use map_service_agent.Nodes.State.{AgentState, Settings, or_empty}
use map_service_agent.Nodes.Route.{find_place}
use map_service_agent.Nodes.Timeline.Fit.{
  Cut, first_free, remove_first, is_free, left_in, places_left, day_order_of, floored, keep_min,
  is_settled, last_free, trim_day, trim_days,
}

contains-reverse : (xs : List ℕ) (n : ℕ) → contains (reverse xs) n ≡ contains xs n
contains-reverse [] n = refl
contains-reverse (x ∷ xs) n = rw reverse-cons (
    let ca = contains-append (reverse xs) (x ∷ []) n in
    let ih = contains-reverse xs n in ground arith)

first_free-contains :
    (places : List Place) (pinned : List Str) (xs : List ℕ) (r : ℕ)
    → first_free places pinned xs ≡ some r
    → (contains xs r ≡ true) × (is_free pinned (find_place r places) ≡ true)
unfolding first_free
first_free-contains places pinned [] r h = absurd (cc)
first_free-contains places pinned (x ∷ xs) r h =
    elim (Bool-cases (is_free pinned (find_place x places))) [
      | inl e ↦ let k = rw e at h in let same : x ≡ r = ground arith in (ground arith, rw same at e)
      | inr e ↦
          let k = rw e at h in
          let ih = first_free-contains places pinned xs r k in (ground arith, ih.1)
    ]

length-remove_first :
    (r : ℕ) (xs : List ℕ) → contains xs r ≡ true → length xs ≡ suc (length (remove_first r xs))
unfolding remove_first
length-remove_first r [] h = absurd (cc)
length-remove_first r (x ∷ xs) h = elim (Bool-cases (x == r)) [
  | inl e ↦ rw e refl
  | inr e ↦
      rw e (let k : contains xs r ≡ true = ground arith in ap suc (length-remove_first r xs k))
]

-- The places that are left out are not among those of the user.
abbrev pub AllFree : List Place → List Str → List ℕ → Type 0
AllFree places pinned = All (λ pid. is_free pinned (find_place pid places) ≡ true)

AllFree-snoc :
    (places : List Place) (pinned : List Str) (xs : List ℕ) (r : ℕ)
    → AllFree places pinned xs
    → is_free pinned (find_place r places) ≡ true
    → AllFree places pinned (xs ++ r ∷ [])
AllFree-snoc places pinned [] r a f = (f, tt)
AllFree-snoc places pinned (x ∷ xs) r a f = (a.0, AllFree-snoc places pinned xs r a.1 f)

-- What trimming one day keeps: nothing of the user's is left out, and two places of the day stay.
pub record IsCut (places : List Place) (pinned : List Str) (day_order : List ℕ) (old new : Cut)
    : Type 0 where
  free : AllFree places pinned new.dropped
  rest :
      length new.dropped + min keep_min (length day_order) ≤ length old.dropped + length day_order

abbrev pub lowered : List ℕ → Cut → Cut
lowered day_order cut = record cut { stay = floored day_order cut.stay }

abbrev pub without : ℕ → Cut → Cut
without r cut = record cut { dropped = cut.dropped ++ r ∷ [] }

module _ (fl : FloatOps) (settings : Settings) where
  pub trim_day-settled :
      (s : AgentState) (order : List ℕ) (day rounds : ℕ) (day_order : List ℕ) (cut : Cut)
      → is_settled fl settings s order day day_order (lowered day_order cut) ≡ true
      → trim_day fl settings s order day (suc rounds) day_order cut ≡ lowered day_order cut
  unfolding trim_day
  trim_day-settled s order day rounds day_order cut e = rw (trim_day, e) refl

  pub trim_day-stuck :
      (s : AgentState) (order : List ℕ) (day rounds : ℕ) (day_order : List ℕ) (cut : Cut)
      → is_settled fl settings s order day day_order (lowered day_order cut) ≡ false
      → last_free s day_order ≡ none
      → trim_day fl settings s order day (suc rounds) day_order cut ≡ lowered day_order cut
  unfolding trim_day
  trim_day-stuck s order day rounds day_order cut e f = rw (trim_day, e, f) refl

  pub trim_day-removes :
      (s : AgentState) (order : List ℕ) (day rounds : ℕ) (day_order : List ℕ) (cut : Cut) (r : ℕ)
      → is_settled fl settings s order day day_order (lowered day_order cut) ≡ false
      → last_free s day_order ≡ some r
      → trim_day fl settings s order day (suc rounds) day_order cut
        ≡ trim_day fl settings s order day rounds
            (remove_first r day_order)
            (without r (lowered day_order cut))
  unfolding trim_day
  trim_day-removes s order day rounds day_order cut r e f = rw (trim_day, e, f) refl

  last_free-lem :
      (s : AgentState) (day_order : List ℕ) (r : ℕ)
      → last_free s day_order ≡ some r
      → (contains day_order r ≡ true)
        × (is_free (or_empty s.pinned_content_ids) (find_place r (or_empty s.places)) ≡ true)
  unfolding last_free
  last_free-lem s day_order r f =
      let (found, free) =
        first_free-contains (or_empty s.places) (or_empty s.pinned_content_ids) (reverse day_order)
          r f in
      (sym (contains-reverse day_order r) ∙ found, free)

  is_settled-room :
      (s : AgentState) (order : List ℕ) (day : ℕ) (day_order : List ℕ) (cut : Cut)
      → is_settled fl settings s order day day_order cut ≡ false
      → keep_min < length day_order
  unfolding is_settled
  is_settled-room s order day day_order cut e = ground arith

  -- Trimming a day, whatever the rounds: nothing of the user's is left out, and at least two
  -- places of the day stay, or all of them where there are fewer.
  pub trim_day-IsCut :
      (s : AgentState) (order : List ℕ) (day rounds : ℕ) (day_order : List ℕ) (cut : Cut)
      → AllFree (or_empty s.places) (or_empty s.pinned_content_ids) cut.dropped
      → IsCut
          (or_empty s.places)
          (or_empty s.pinned_content_ids)
          day_order
          cut
          (trim_day fl settings s order day rounds day_order cut)
  unfolding trim_day
  trim_day-IsCut s order day zero day_order cut a = record { free = a; rest = omega arith }
  trim_day-IsCut s order day (suc rounds) day_order cut a =
      elim (Bool-cases (is_settled fl settings s order day day_order (lowered day_order cut))) [
        | inl e ↦
            rw (trim_day-settled s order day rounds day_order cut e)
              (record { free = a; rest = omega arith })
        | inr e ↦ elim (Option-cases (last_free s day_order)) [
          | inl f ↦
              rw (trim_day-stuck s order day rounds day_order cut e f)
                (record { free = a; rest = omega arith })
          | inr (r, f) ↦
              let (found, free) = last_free-lem s day_order r f in
              let fewer = length-remove_first r day_order found in
              let room = is_settled-room s order day day_order (lowered day_order cut) e in
              let ih =
                trim_day-IsCut s order day rounds (remove_first r day_order)
                  (without r (lowered day_order cut))
                  (AllFree-snoc (or_empty s.places) (or_empty s.pinned_content_ids) cut.dropped r a
                    free) in
              let one = length-append cut.dropped (r ∷ []) in
              rw (trim_day-removes s order day rounds day_order cut r e f)
                (record { free = ih.free; rest = omega (arith, ih.rest) })
        ]
      ]

  pub trim_days-AllFree :
      (s : AgentState) (order days : List ℕ) (cut : Cut)
      → AllFree (or_empty s.places) (or_empty s.pinned_content_ids) cut.dropped
      → AllFree
          (or_empty s.places)
          (or_empty s.pinned_content_ids)
          (trim_days fl settings s order days cut).dropped
  unfolding trim_days
  trim_days-AllFree s order [] cut a = a
  trim_days-AllFree s order (d ∷ days) cut a =
      let day_order = day_order_of (or_empty s.places) d cut.dropped order in
      let one = trim_day-IsCut s order d (length day_order) day_order cut a in
      trim_days-AllFree s order days
        (trim_day fl settings s order d (length day_order) day_order cut) one.free

-- The places and the order hold a place.
abbrev pub has_place : AgentState → ℕ → Bool
has_place s i = any (λ p. p.place_id == i) (or_empty s.places)

abbrev pub visits_place : AgentState → ℕ → Bool
visits_place s i = contains (or_empty s.visit_order) i

pub any-places_left :
    (dropped : List ℕ) (ps : List Place) (i : ℕ)
    → contains dropped i ≡ false
    → any (λ p. p.place_id == i) (places_left dropped ps) ≡ any (λ p. p.place_id == i) ps
any-places_left dropped [] i h = refl
any-places_left dropped (p ∷ ps) i h = elim (Bool-cases (contains dropped p.place_id)) [
  | inl e ↦
      let other : p.place_id ≡ i → true ≡ false = λ same. sym e ∙ (rw same h) in
      rw e (let ih = any-places_left dropped ps i h in grind arith)
  | inr e ↦ rw e (let ih = any-places_left dropped ps i h in ground arith)
]

pub contains-left_in :
    (dropped order : List ℕ) (i : ℕ)
    → contains dropped i ≡ false
    → contains (left_in dropped order) i ≡ contains order i
contains-left_in dropped [] i h = refl
contains-left_in dropped (q ∷ qs) i h = elim (Bool-cases (contains dropped q)) [
  | inl e ↦
      let other : q ≡ i → true ≡ false = λ same. sym e ∙ (rw same h) in
      rw e (let ih = contains-left_in dropped qs i h in grind arith)
  | inr e ↦ rw e (let ih = contains-left_in dropped qs i h in ground arith)
]

pub AllFree-contains :
    (places : List Place) (pinned : List Str) (dropped : List ℕ) (i : ℕ)
    → AllFree places pinned dropped
    → is_free pinned (find_place i places) ≡ false
    → contains dropped i ≡ false
AllFree-contains places pinned [] i a h = refl
AllFree-contains places pinned (d ∷ ds) i a h = elim (Bool-cases (d == i)) [
  | inl e ↦ let same : d ≡ i = ground arith in let f = rw same at a.0 in absurd (cc)
  | inr e ↦ rw e (AllFree-contains places pinned ds i a.1 h)
]
