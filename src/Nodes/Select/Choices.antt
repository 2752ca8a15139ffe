-- ===== src/Nodes/Select/Choices.antt =====
-- app/nodes/agent_nodes.py, `_select_places`: no selection of an answer is passed over.
use map_service_agent.Prelude.{
  ℕ, zero, suc, ◌≤◌, ◌<◌, ◌≡◌, ◌⊎◌, refl, sym, ◌∙◌, subst, true, false, ◌&&◌, not, Option, none,
  some, List, [], ◌∷◌, length, contains, All, All-imp, sort_by, insert_by, get_elem?, between, leb,
  ltb, ◌==◌, Bool-cases, Option-cases, inl, inr, arith,
}
use map_service_agent.Value.{Json}
use map_service_agent.Schema.Model.{Place, PlaceSelection}
use map_service_agent.Nodes.Candidates.{Reader, place_from_candidate}
use map_service_agent.Nodes.Candidates.Cap.{place_from_candidate-IsGrounded}
use map_service_agent.Nodes.Candidates.Origin.{IsFrom, place_from_candidate-IsFrom}
use map_service_agent.Nodes.Search.Merged.{Listed}
use map_service_agent.Nodes.Select.{Chosen, build, choose, chosen_place, places_chosen}

-- The candidate that an index names, from which a place is made.
abbrev pub IsAt : Reader → List Json → ℕ → Place → Type 0
IsAt r candidates i p = (json : Json) × (get_elem? candidates i ≡ some json) × IsFrom r json p

-- A selection is of a day of the trip and of a candidate.
abbrev pub IsValid : (days count : ℕ) → PlaceSelection → Type 0
IsValid days count sel = (1 ≤ sel.day) × (sel.day ≤ days) × (sel.index < count)

abbrev chosen_of : PlaceSelection → Chosen
chosen_of sel = record { index = sel.index; visit_time = sel.recommended_visit_time; day = sel.day }

-- Of the index of a selection the first that is valid is chosen, or the index was seen before.
abbrev IsMet :
    (days count : ℕ) → List ℕ → List PlaceSelection → List Chosen → PlaceSelection → Type 0
IsMet days count seen sels cs sel =
    IsValid days count sel
    → (contains seen sel.index ≡ true)
      ⊎ ((first : PlaceSelection) × Listed sels first
          × (first.index ≡ sel.index)
          × (first.index < count)
          × Listed cs (chosen_of first))

choose-takes :
    (days count : ℕ) (seen : List ℕ) (sel : PlaceSelection) (sels : List PlaceSelection)
    → (between 1 days sel.day && (ltb sel.index count && not (contains seen sel.index))) ≡ true
    → choose days count seen (sel ∷ sels)
      ≡ chosen_of sel ∷ choose days count (sel.index ∷ seen) sels
unfolding choose
choose-takes days count seen sel sels e = rw (choose, e) refl

choose-passes :
    (days count : ℕ) (seen : List ℕ) (sel : PlaceSelection) (sels : List PlaceSelection)
    → (between 1 days sel.day && (ltb sel.index count && not (contains seen sel.index))) ≡ false
    → choose days count seen (sel ∷ sels) ≡ choose days count seen sels
unfolding choose
choose-passes days count seen sel sels e = rw (choose, e) refl

choose-IsMet :
    (days count : ℕ) (seen : List ℕ) (sels : List PlaceSelection)
    → All (IsMet days count seen sels (choose days count seen sels)) sels
unfolding choose
choose-IsMet days count seen [] = tt
choose-IsMet days count seen (sel ∷ sels) =
    elim (Bool-cases
      (between 1 days sel.day && (ltb sel.index count && not (contains seen sel.index)))) [
        | inl e ↦
            let later = choose days count (sel.index ∷ seen) sels in
            let more : (s : PlaceSelection)
                → IsMet days count (sel.index ∷ seen) sels later s
                → IsMet days count seen (sel ∷ sels) (chosen_of sel ∷ later) s =
              λ s h v. elim (h v) [
                | inr (first, (i, g), q, b, (j, k)) ↦ inr (first, (suc i, g), q, b, (suc j, k))
                | inl m ↦ elim (Bool-cases (sel.index == s.index)) [
                  | inl q ↦ inr (sel, (0, refl), ground arith, ground arith, (0, refl))
                  | inr q ↦ inl (ground arith)
                ]
              ] in
            subst (λ cs. All (IsMet days count seen (sel ∷ sels) cs) (sel ∷ sels))
              (sym (choose-takes days count seen sel sels e))
              (
                λ v. inr (sel, (0, refl), refl, ground arith, (0, refl)),
                All-imp more sels (choose-IsMet days count (sel.index ∷ seen) sels),
              )
        | inr e ↦
            let later = choose days count seen sels in
            let more : (s : PlaceSelection)
                → IsMet days count seen sels later s
                → IsMet days count seen (sel ∷ sels) later s =
              λ s h v. elim (h v) [
                | inr (first, (i, g), q, b, m) ↦ inr (first, (suc i, g), q, b, m)
                | inl m ↦ inl m
              ] in
            subst (λ cs. All (IsMet days count seen (sel ∷ sels) cs) (sel ∷ sels))
              (sym (choose-passes days count seen sel sels e))
              (λ v. inl (ground arith), All-imp more sels (choose-IsMet days count seen sels))
      ]

module _ {ℓ} {A : Type ℓ} (key : A → ℕ) where
  insert-Listed : (x y : A) (xs : List A) → Listed (x ∷ xs) y → Listed (insert_by key x xs) y
  insert-Listed x y [] h = h
  insert-Listed x y (z ∷ zs) h = elim (Bool-cases (leb (key x) (key z))) [
    | inl e ↦ rw e h
    | inr e ↦ rw e (after (insert-Listed x y zs) h)
  ]
    where
      after :
          (Listed (x ∷ zs) y → Listed (insert_by key x zs) y)
          → Listed (x ∷ z ∷ zs) y
          → Listed (z ∷ insert_by key x zs) y
      after insert (zero, g) = let (n, k) = insert (0, g) in (suc n, k)
      after insert (suc zero, g) = (0, g)
      after insert (suc (suc n), g) = let (m, k) = insert (suc n, g) in (suc m, k)

  sort_by-Listed : (y : A) (xs : List A) → Listed xs y → Listed (sort_by key xs) y
  sort_by-Listed y [] h = h
  sort_by-Listed y (x ∷ xs) (zero, g) = insert-Listed x y (sort_by key xs) (0, g)
  sort_by-Listed y (x ∷ xs) (suc n, g) =
      let (m, k) = sort_by-Listed y xs (n, g) in insert-Listed x y (sort_by key xs) (suc m, k)

get_elem?-lt {ℓ} :
    {A : Type ℓ} (xs : List A) (n : ℕ) → n < length xs → (x : A) × (get_elem? xs n ≡ some x)
get_elem?-lt [] n h = absurd (omega arith)
get_elem?-lt (x ∷ xs) zero h = (x, refl)
get_elem?-lt (x ∷ xs) (suc n) h = get_elem?-lt xs n (omega arith)

module _ (r : Reader) (candidates : List Json) where
  -- What is chosen is among the places, on its day, or its candidate makes no place.
  abbrev IsMade : List Place → Chosen → Type 0
  IsMade ps c =
      ((p : Place) × Listed ps p × IsAt r candidates c.index p × (p.day ≡ c.day))
      ⊎ ((n : ℕ) × (json : Json) × (get_elem? candidates c.index ≡ some json)
          × (place_from_candidate r n json c.visit_time c.day ≡ none))

  IsMade-later : (p : Place) (ps : List Place) (c : Chosen) → IsMade ps c → IsMade (p ∷ ps) c
  IsMade-later p ps c (inl (q, (n, g), f, d)) = inl (q, (suc n, g), f, d)
  IsMade-later p ps c (inr h) = inr h

  chosen_place-some :
      (n : ℕ) (c : Chosen) (json : Json) (o : Option Json)
      → o ≡ some json
      → chosen_place r n c o ≡ place_from_candidate r n json c.visit_time c.day
  chosen_place-some n c json o e = rw e refl

  first-IsMade :
      (n : ℕ) (c : Chosen) (cs : List Chosen)
      → c.index < length candidates
      → IsMade (build r candidates n (c ∷ cs)) c
  unfolding build
  first-IsMade n c cs b =
      let (json, g) = get_elem?-lt candidates c.index b in
      let same = chosen_place-some n c json (get_elem? candidates c.index) g in
      elim (Option-cases (chosen_place r n c (get_elem? candidates c.index))) [
        | inl e ↦ inr (n, json, g, sym same ∙ e)
        | inr (p, e) ↦
            let made = sym same ∙ e in
            rw (build, e)
              (inl (
                p,
                (0, refl),
                (json, g, place_from_candidate-IsFrom r n json c.visit_time c.day p made),
                (place_from_candidate-IsGrounded r n json c.visit_time c.day p made).on_day,
              ))
      ]

  build-IsMade :
      (n : ℕ) (cs : List Chosen) (c : Chosen)
      → Listed cs c
      → c.index < length candidates
      → IsMade (build r candidates n cs) c
  unfolding build
  build-IsMade n [] c (i, g) b = cc g
  build-IsMade n (x ∷ xs) c (zero, g) b =
      let same : x ≡ c = cc g in
      subst (IsMade (build r candidates n (x ∷ xs))) same
        (first-IsMade n x xs (subst (λ d. d.index < length candidates) (sym same) b))
  build-IsMade n (x ∷ xs) c (suc i, g) b =
      elim (Option-cases (chosen_place r n x (get_elem? candidates x.index))) [
        | inl e ↦ rw (build, e) (build-IsMade n xs c (i, g) b)
        | inr (p, e) ↦
            rw (build, e)
              (IsMade-later p (build r candidates (suc n) xs) c
                (build-IsMade (suc n) xs c (i, g) b))
      ]

  -- Of the index of a selection that is valid, some selection was taken: it gave a place, from its
  -- candidate and on its day, or that candidate makes no place.
  pub record IsTaken (days : ℕ) (sels : List PlaceSelection) (ps : List Place)
      (sel : PlaceSelection) : Type 0 where
    first : PlaceSelection
    listed : Listed sels first
    same_index : first.index ≡ sel.index
    outcome :
        ((p : Place) × Listed ps p × IsAt r candidates first.index p × (p.day ≡ first.day))
        ⊎ ((n : ℕ) × (json : Json) × (get_elem? candidates first.index ≡ some json)
            × (place_from_candidate r n json first.recommended_visit_time first.day ≡ none))

  taken :
      (days : ℕ) (sels : List PlaceSelection) (sel : PlaceSelection)
      → IsMet days (length candidates) [] sels (choose days (length candidates) [] sels) sel
      → IsValid days (length candidates) sel
      → IsTaken days sels (places_chosen r days candidates sels) sel
  unfolding places_chosen
  taken days sels sel met v = elim (met v) [
    | inl m ↦ cc m
    | inr (first, l, q, b, m) ↦
        let cs = choose days (length candidates) [] sels in
        record {
          first = first;
          listed = l;
          same_index = q;
          outcome =
              build-IsMade 0 (sort_by (λ c. c.day) cs) (chosen_of first)
                (sort_by-Listed (λ (c : Chosen). c.day) (chosen_of first) cs m) b;
        }
  ]

  -- No selection that is valid is passed over.
  pub places_chosen-IsTaken :
      (days : ℕ) (sels : List PlaceSelection)
      → All
          (λ sel.
            IsValid days (length candidates) sel
            → IsTaken days sels (places_chosen r days candidates sels) sel)
          sels
  places_chosen-IsTaken days sels =
      All-imp
        {Q = λ (sel : PlaceSelection).
          IsValid days (length candidates) sel
          → IsTaken days sels (places_chosen r days candidates sels) sel}
        (taken days sels) sels (choose-IsMet days (length candidates) [] sels)
