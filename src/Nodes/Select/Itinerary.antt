-- ===== src/Nodes/Select/Itinerary.antt =====
-- app/nodes/agent_nodes.py, the selection: the places that come out of an answer.

use map_service_agent.Prelude.{
  ℕ, suc, ◌≤◌, ◌≡◌, refl, sym, ap₂, ◌∙◌, true, ◌&&◌, not, Option, none, some, List, [], ◌∷◌, map,
  length, range, contains, All, All-imp, subst, All-sort_by, AtLeast, IsSorted, sort_by,
  sort_by-IsSorted, get_elem?, between, ltb, Bool-cases, Option-cases, inl, inr, arith,
}
use map_service_agent.Value.{Json}
use map_service_agent.Schema.Model.{Place, PlaceSelection}
use map_service_agent.Nodes.Candidates.{Reader}
use map_service_agent.Nodes.Candidates.Cap.{IsGrounded, place_from_candidate-IsGrounded}
use map_service_agent.Nodes.Candidates.Origin.{place_from_candidate-IsFrom}
use map_service_agent.Nodes.Search.Merged.{Listed}
use map_service_agent.Nodes.Select.Choices.{IsAt, IsTaken, IsValid, places_chosen-IsTaken}
use map_service_agent.Nodes.Select.{Chosen, build, choose, chosen_place, places_chosen}

-- What is chosen stands in the answer of the model, on a day of the trip.
abbrev InTrip : ℕ → List PlaceSelection → Chosen → Type 0
InTrip days sels c =
    (1 ≤ c.day)
    × (c.day ≤ days)
    × (sel : PlaceSelection) × Listed sels sel
    × (sel.index ≡ c.index)
    × (sel.day ≡ c.day)

InTrip-later :
    (days : ℕ) (sel : PlaceSelection) (sels : List PlaceSelection) (c : Chosen)
    → InTrip days sels c
    → InTrip days (sel ∷ sels) c
InTrip-later days sel sels c (low, high, t, (n, g), i, d) = (low, high, t, (suc n, g), i, d)

choose-InTrip :
    (days count : ℕ) (seen : List ℕ) (sels : List PlaceSelection)
    → All (InTrip days sels) (choose days count seen sels)
unfolding choose
choose-InTrip days count seen [] = tt
choose-InTrip days count seen (sel ∷ sels) =
    elim (Bool-cases
      (between 1 days sel.day && (ltb sel.index count && not (contains seen sel.index)))) [
        | inl e ↦
            rw (choose, e)
              (
                (ground arith, ground arith, sel, (0, refl), refl, refl),
                All-imp (InTrip-later days sel sels) (choose days count (sel.index ∷ seen) sels)
                    (choose-InTrip days count (sel.index ∷ seen) sels),
              )
        | inr e ↦
            rw (choose, e)
              (All-imp (InTrip-later days sel sels) (choose days count seen sels)
                (choose-InTrip days count seen sels))
      ]

-- Places numbered from a number on, each from a candidate, on the day that was chosen for it.
data AreBuilt (r : Reader) (candidates : List Json) : ℕ → List Chosen → List Place → Type 0 where
  at_end : {n : ℕ} → AreBuilt r candidates n [] []
  skipped :
      {n : ℕ} {c : Chosen} {cs : List Chosen} {ps : List Place}
      → AreBuilt r candidates n cs ps
      → AreBuilt r candidates n (c ∷ cs) ps
  built :
      {n : ℕ} {c : Chosen} {cs : List Chosen} {p : Place} {ps : List Place}
      → IsAt r candidates c.index p
      → IsGrounded n c.day p
      → AreBuilt r candidates (suc n) cs ps
      → AreBuilt r candidates n (c ∷ cs) (p ∷ ps)

chosen_place-IsGrounded :
    (r : Reader) (n : ℕ) (c : Chosen) (o : Option Json) (p : Place)
    → chosen_place r n c o ≡ some p
    → IsGrounded n c.day p
chosen_place-IsGrounded r n c none p h = absurd (cc)
chosen_place-IsGrounded r n c (some json) p h =
    place_from_candidate-IsGrounded r n json c.visit_time c.day p h

chosen_place-IsAt :
    (r : Reader) (candidates : List Json) (n : ℕ) (c : Chosen) (o : Option Json) (p : Place)
    → get_elem? candidates c.index ≡ o
    → chosen_place r n c o ≡ some p
    → IsAt r candidates c.index p
chosen_place-IsAt r candidates n c none p g h = absurd (cc)
chosen_place-IsAt r candidates n c (some json) p g h =
    (json, g, place_from_candidate-IsFrom r n json c.visit_time c.day p h)

build-AreBuilt :
    (r : Reader) (candidates : List Json) (n : ℕ) (cs : List Chosen)
    → AreBuilt r candidates n cs (build r candidates n cs)
unfolding build
build-AreBuilt r candidates n [] = at_end
build-AreBuilt r candidates n (c ∷ cs) =
    elim (Option-cases (chosen_place r n c (get_elem? candidates c.index))) [
      | inl e ↦ rw (build, e) (skipped (build-AreBuilt r candidates n cs))
      | inr (p, e) ↦
          rw (build, e)
            (built (chosen_place-IsAt r candidates n c (get_elem? candidates c.index) p refl e)
              (chosen_place-IsGrounded r n c (get_elem? candidates c.index) p e)
              (build-AreBuilt r candidates (suc n) cs))
    ]

-- A place of the trip that the model chose: of one of its selections, on the day of that selection,
-- and from the candidate at its index.
pub record IsPick (r : Reader) (days : ℕ) (candidates : List Json) (sels : List PlaceSelection)
    (p : Place) : Type 0 where
  selection : PlaceSelection
  listed : Listed sels selection
  from : IsAt r candidates selection.index p
  on_day : p.day ≡ selection.day
  first : 1 ≤ p.day
  last : p.day ≤ days
  grounded : p.grounded ≡ true

-- An itinerary: numbered from 0, day after day, of places that the model chose, with no selection
-- passed over.
pub record IsItinerary (r : Reader) (days : ℕ) (candidates : List Json) (sels : List PlaceSelection)
    (ps : List Place) : Type 0 where
  pub numbered : map (λ p. p.place_id) ps ≡ range 0 (length ps)
  pub by_day : IsSorted (λ p. p.day) ps
  picks : All (IsPick r days candidates sels) ps
  complete :
      All (λ sel. IsValid days (length candidates) sel → IsTaken r candidates days sels ps sel) sels

module _ (r : Reader) (candidates : List Json) where
  AreBuilt-numbered :
      (n : ℕ) (cs : List Chosen) (ps : List Place)
      → AreBuilt r candidates n cs ps
      → map (λ p. p.place_id) ps ≡ range n (length ps)
  AreBuilt-numbered n _ _ at_end = refl
  AreBuilt-numbered n _ ps (skipped b) = AreBuilt-numbered n _ ps b
  AreBuilt-numbered n _ _ (built {ps} f g b) =
      ap₂ (λ x xs. x ∷ xs) g.id (AreBuilt-numbered (suc n) _ ps b)

  AreBuilt-AtLeast :
      (k n : ℕ) (cs : List Chosen) (ps : List Place)
      → AreBuilt r candidates n cs ps
      → AtLeast (λ c. c.day) k cs
      → AtLeast (λ p. p.day) k ps
  AreBuilt-AtLeast k n _ _ at_end a = tt
  AreBuilt-AtLeast k n _ ps (skipped b) a = AreBuilt-AtLeast k n _ ps b a.1
  AreBuilt-AtLeast k n _ _ (built {ps} f g b) a =
      (omega (arith, g.on_day, a.0), AreBuilt-AtLeast k (suc n) _ ps b a.1)

  AreBuilt-IsSorted :
      (n : ℕ) (cs : List Chosen) (ps : List Place)
      → AreBuilt r candidates n cs ps
      → IsSorted (λ c. c.day) cs
      → IsSorted (λ p. p.day) ps
  AreBuilt-IsSorted n _ _ at_end s = tt
  AreBuilt-IsSorted n _ ps (skipped b) s = AreBuilt-IsSorted n _ ps b s.1
  AreBuilt-IsSorted n _ _ (built {c} {cs} {p} {ps} f g b) s = (
    rw g.on_day (AreBuilt-AtLeast c.day (suc n) cs ps b s.0),
    AreBuilt-IsSorted (suc n) cs ps b s.1,
  )

  AreBuilt-IsPick :
      (days n : ℕ) (sels : List PlaceSelection) (cs : List Chosen) (ps : List Place)
      → AreBuilt r candidates n cs ps
      → All (InTrip days sels) cs
      → All (IsPick r days candidates sels) ps
  AreBuilt-IsPick days n sels _ _ at_end a = tt
  AreBuilt-IsPick days n sels _ ps (skipped b) a = AreBuilt-IsPick days n sels _ ps b a.1
  AreBuilt-IsPick days n sels _ _ (built {p} {ps} f g b) a =
      let (low, high, sel, listed, i, d) = a.0 in
      (
        record {
          selection = sel;
          listed = listed;
          from = subst (λ k. IsAt r candidates k p) (sym i) f;
          on_day = g.on_day ∙ sym d;
          first = omega (arith, g.on_day, low);
          last = omega (arith, g.on_day, high);
          grounded = g.grounded;
        },
        AreBuilt-IsPick days (suc n) sels _ ps b a.1,
      )

-- Whatever the model answers, the places that are built from it are numbered in the order of their
-- days; each is that of a selection of the answer, on its day, which is one of the trip, and has the
-- id, the name and the coordinates of the candidate at its index. Of every index of a candidate that
-- is selected for a day of the trip, a selection is there with its place, or that candidate makes no
-- place.
pub places_chosen-IsItinerary :
    (r : Reader) (days : ℕ) (candidates : List Json) (sels : List PlaceSelection)
    → IsItinerary r days candidates sels (places_chosen r days candidates sels)
unfolding places_chosen
places_chosen-IsItinerary r days candidates sels =
    let chosen = choose days (length candidates) [] sels in
    let sorted = sort_by (λ c. c.day) chosen in
    let ps = build r candidates 0 sorted in
    let b = build-AreBuilt r candidates 0 sorted in
    record {
      numbered = AreBuilt-numbered r candidates 0 sorted ps b;
      by_day = AreBuilt-IsSorted r candidates 0 sorted ps b (sort_by-IsSorted (λ c. c.day) chosen);
      picks = AreBuilt-IsPick r candidates days 0 sels sorted ps b (
          All-sort_by (λ c. c.day) (InTrip days sels) chosen
            (choose-InTrip days (length candidates) [] sels));
      complete = places_chosen-IsTaken r candidates days sels;
    }
