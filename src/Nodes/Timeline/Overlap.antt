-- ===== src/Nodes/Timeline/Overlap.antt =====
-- app/nodes/agent_nodes.py, `_plan_timeline`: the visits of a day come one after the other.
use map_service_agent.Prelude.{
  ℕ, ◌+◌, ◌≤◌, ◌≡◌, refl, false, ◌&&◌, ◌||◌, not, Option, none, some, List, [], ◌∷◌, ◌++◌, ◌==◌,
  ltb, contains, contains-append, any, All, All-imp, AtLeast, IsSorted, arith, Bool-cases,
  Option-cases, inl, inr, if◌then◌else◌,
}
use map_service_agent.Schema.Model.{Place}
use map_service_agent.Nodes.Route.{find_place}
use map_service_agent.Nodes.Timeline.Visits.{
  Visit, Walk, on_day, stays_on, next_place, visits, overflowed, planned,
}

abbrev pub day : Visit → ℕ
day v = v.day

-- No visit of a day starts before an earlier one of that day ends.
abbrev pub NoOverlap : List Visit → Type 0
NoOverlap [] = Unit
NoOverlap (v ∷ vs) = All (λ u. u.day ≡ v.day → v.visit_end ≤ u.visit_start) vs × NoOverlap vs

-- One round of the loop, at a place that is there.
abbrev from_of : Walk → ℕ → Option ℕ → Place → ℕ
from_of w cursor d p = if on_day p.day d then cursor else w.start_min

abbrev until_of : Walk → ℕ → Option ℕ → ℕ → Place → ℕ
until_of w cursor d pid p = from_of w cursor d p + w.stay pid

abbrev cursor_of : Walk → ℕ → Option ℕ → ℕ → List ℕ → Place → ℕ
cursor_of w cursor d pid order p =
    if stays_on p.day (next_place w order)
    then until_of w cursor d pid p + w.travel pid + w.buffer_min
    else until_of w cursor d pid p

until-le-cursor :
    (w : Walk) (cursor : ℕ) (d : Option ℕ) (pid : ℕ) (order : List ℕ) (p : Place)
    → until_of w cursor d pid p ≤ cursor_of w cursor d pid order p
until-le-cursor w cursor d pid order p = ground arith

visits-found :
    (w : Walk) (cursor : ℕ) (d : Option ℕ) (pid : ℕ) (order : List ℕ) (p : Place)
    → find_place pid w.places ≡ some p
    → visits w cursor d (pid ∷ order)
      ≡ record {
        place_id = pid;
        day = p.day;
        visit_start = from_of w cursor d p;
        visit_end = until_of w cursor d pid p;
      }
        ∷ visits w (cursor_of w cursor d pid order p) (some p.day) order
unfolding visits
visits-found w cursor d pid order p e = rw (visits, e) refl

visits-missing :
    (w : Walk) (cursor : ℕ) (d : Option ℕ) (pid : ℕ) (order : List ℕ)
    → find_place pid w.places ≡ none
    → visits w cursor d (pid ∷ order) ≡ visits w cursor d order
unfolding visits
visits-missing w cursor d pid order e = rw (visits, e) refl

-- The later visits of the current day start at the cursor or after it.
visits-after :
    (w : Walk) (cursor d : ℕ) (order : List ℕ)
    → AtLeast day d (visits w cursor (some d) order)
    → IsSorted day (visits w cursor (some d) order)
    → All (λ v. v.day ≡ d → cursor ≤ v.visit_start) (visits w cursor (some d) order)
unfolding visits
visits-after w cursor d [] a s = tt
visits-after w cursor d (pid ∷ order) a s = elim (Option-cases (find_place pid w.places)) [
  | inl e ↦
      let m = visits-missing w cursor (some d) pid order e in
      let a' = rw m at a in let s' = rw m at s in rw m (visits-after w cursor d order a' s')
  | inr (p, e) ↦
      let m = visits-found w cursor (some d) pid order p e in
      let a' = rw m at a in
      let s' = rw m at s in
      let next = cursor_of w cursor (some d) pid order p in
      let le = until-le-cursor w cursor (some d) pid order p in
      let after = visits-after w next p.day order s'.0 s'.1 in
      let rest : All (λ v. (p.day ≤ v.day) × (v.day ≡ p.day → next ≤ v.visit_start))
          (visits w next (some p.day) order) =
        both p.day next (visits w next (some p.day) order) s'.0 after in
      rw m
        (ground arith, All-imp (λ v h same. ground arith) (visits w next (some p.day) order) rest)
]
  where
    both :
        (k c : ℕ) (vs : List Visit)
        → AtLeast day k vs
        → All (λ v. v.day ≡ k → c ≤ v.visit_start) vs
        → All (λ v. (k ≤ v.day) × (v.day ≡ k → c ≤ v.visit_start)) vs
    both k c [] a h = tt
    both k c (v ∷ vs) a h = ((a.0, h.0), both k c vs a.1 h.1)

visits-NoOverlap :
    (w : Walk) (cursor : ℕ) (d : Option ℕ) (order : List ℕ)
    → IsSorted day (visits w cursor d order)
    → NoOverlap (visits w cursor d order)
unfolding visits
visits-NoOverlap w cursor d [] s = tt
visits-NoOverlap w cursor d (pid ∷ order) s = elim (Option-cases (find_place pid w.places)) [
  | inl e ↦
      let m = visits-missing w cursor d pid order e in
      let s' = rw m at s in rw m (visits-NoOverlap w cursor d order s')
  | inr (p, e) ↦
      let m = visits-found w cursor d pid order p e in
      let s' = rw m at s in
      let next = cursor_of w cursor d pid order p in
      let le = until-le-cursor w cursor d pid order p in
      let after = visits-after w next p.day order s'.0 s'.1 in
      rw m (
        All-imp (λ v h same. omega (arith, h same)) (visits w next (some p.day) order) after,
        visits-NoOverlap w next (some p.day) order s'.1,
      )
]

abbrev pub IsTimed : Walk → Visit → Type 0
IsTimed w v = (w.start_min ≤ v.visit_start) × (v.visit_end ≡ v.visit_start + w.stay v.place_id)

visits-IsTimed :
    (w : Walk) (cursor : ℕ) (d : Option ℕ) (order : List ℕ)
    → w.start_min ≤ cursor
    → All (IsTimed w) (visits w cursor d order)
unfolding visits
visits-IsTimed w cursor d [] h = tt
visits-IsTimed w cursor d (pid ∷ order) h = elim (Option-cases (find_place pid w.places)) [
  | inl e ↦ rw (visits-missing w cursor d pid order e) (visits-IsTimed w cursor d order h)
  | inr (p, e) ↦
      let le = until-le-cursor w cursor d pid order p in
      let from : w.start_min ≤ from_of w cursor d p = ground arith in
      rw (visits-found w cursor d pid order p e) (
        (from, refl),
        visits-IsTimed w (cursor_of w cursor d pid order p) (some p.day) order (omega arith),
      )
]

-- A timetable: each visit lasts for the stay of its place and starts no sooner than the day does,
-- and no two visits of a day overlap.
pub record IsTimetable (w : Walk) (vs : List Visit) : Type 0 where
  timed : All (IsTimed w) vs
  apart : NoOverlap vs

-- Where the order takes the days in turn, the visits that `_plan_timeline` computes are a
-- timetable: every visit lasts for its stay, starts no sooner than the day, and two visits of one
-- day never overlap.
pub planned-IsTimetable :
    (w : Walk) (order : List ℕ) → IsSorted day (planned w order) → IsTimetable w (planned w order)
unfolding planned
planned-IsTimetable w order s = record {
  timed = visits-IsTimed w w.start_min none order (omega arith);
  apart = visits-NoOverlap w w.start_min none order s;
}

-- A day is reported exactly if a visit of it ends after the end of the active time.
pub overflowed-exact :
    (end_min : ℕ) (vs : List Visit) (days : List ℕ) (d : ℕ)
    → contains (overflowed end_min vs days) d
      ≡ (contains days d || any (λ v. v.day == d && ltb end_min v.visit_end) vs)
unfolding overflowed
overflowed-exact end_min [] days d = ground arith
overflowed-exact end_min (v ∷ vs) days d =
    elim (Bool-cases (ltb end_min v.visit_end && not (contains days v.day))) [
      | inl e ↦
          let ih = overflowed-exact end_min vs (days ++ v.day ∷ []) d in
          let ca = contains-append days (v.day ∷ []) d in rw e (ground arith)
      | inr e ↦
          let ih = overflowed-exact end_min vs days d in
          let seen : v.day ≡ d → contains days v.day ≡ contains days d = λ same. rw same refl in
          rw e (ground arith)
    ]

-- Where no day is reported, every visit ends in time.
pub overflowed-none :
    (end_min : ℕ) (vs : List Visit)
    → overflowed end_min vs [] ≡ []
    → All (λ v. v.visit_end ≤ end_min) vs
overflowed-none end_min vs h = all_in vs (λ d. ground (arith, overflowed-exact end_min vs [] d, h))
  where
    all_in :
        (us : List Visit)
        → ((d : ℕ) → any (λ v. v.day == d && ltb end_min v.visit_end) us ≡ false)
        → All (λ v. v.visit_end ≤ end_min) us
    all_in [] k = tt
    all_in (u ∷ us) k =
        ((let t = k u.day in ground arith), all_in us (λ d. let t = k d in ground arith))
