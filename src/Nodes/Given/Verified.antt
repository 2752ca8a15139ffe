-- ===== src/Nodes/Given/Verified.antt =====
-- app/nodes/agent_nodes.py, `_verify_selected_places`: where the places that go on come from.
use mathlib.Core.Path.{subst}
use map_service_agent.Prelude.{
  ℕ, suc, ◌≡◌, refl, sym, ap, ◌∙◌, Bool, true, false, not, ◌⊎◌, Option, none, some, List, [], ◌∷◌,
  Bool-cases, Option-cases, inl, inr, take,
}
use map_service_agent.Value.{Str, Json, FloatOps}
use map_service_agent.Failure.{Result, returned, raised, ◌>>=◌}
use map_service_agent.Schema.Model.{Place, SelectedPlace, AgentRequest}
use map_service_agent.Nodes.State.{
  AgentState, fail_with, has_error, or_empty, route, update_failure,
}
use map_service_agent.Nodes.Input.{is_empty}
use map_service_agent.Nodes.Candidates.{Reader, place_from_candidate}
use map_service_agent.Nodes.Candidates.Cap.{IsGrounded, place_from_candidate-IsGrounded}
use map_service_agent.Nodes.Candidates.Origin.{IsFrom, place_from_candidate-IsFrom}
use map_service_agent.Nodes.Search.Merged.{Listed}
use map_service_agent.Nodes.Given.{
  after_verify, candidate_match, candidates_in, first_match, is_verify_error, load_given_places,
  load_verified, matches, or_next, verify_from, verify_selected, with_given, with_place,
}

>>=-returned {ℓ κ} :
    {A : Type ℓ} {B : Type κ} (r : Result A) (f : A → Result B) (b : B)
    → r >>= f ≡ returned b
    → (a : A) × (r ≡ returned a) × (f a ≡ returned b)
>>=-returned (returned a) f b h = (a, refl, h)
>>=-returned (raised e) f b h = absurd (cc)

or_next-some :
    (o next : Option Place) (p : Place) → or_next o next ≡ some p → (o ≡ some p) ⊎ (next ≡ some p)
or_next-some none next p h = inr h
or_next-some (some q) next p h = inl h

failed : Result (AgentState × List Place) → Bool
failed (returned (t, ps)) = has_error t
failed (raised e) = true

places_in : Result AgentState → Option (List Place)
places_in (returned t) = t.places
places_in (raised e) = none

grounded_in : Result AgentState → Option Bool
grounded_in (returned t) = t.grounded
grounded_in (raised e) = none

has_failed : Result AgentState → Bool
has_failed (returned t) = has_error t
has_failed (raised e) = true

module _ (fl : FloatOps) (reader : Reader) where
  -- A candidate that the hub answered to the search for a place by its name, from which the place is
  -- made.
  pub record IsAnswered (search : AgentRequest → Str → Result Json) (req : AgentRequest)
      (given : SelectedPlace) (p : Place) : Type 0 where
    response : Json
    candidates : List Json
    candidate : Json
    asked : search req (take 40 given.name) ≡ returned response
    answered : candidates_in response ≡ returned candidates
    listed : Listed candidates candidate
    from : IsFrom reader candidate p

  -- The places that the user chose, as the hub has them: each from a candidate of its answer,
  -- numbered in order, on the day that the user gave, and matched by its id, or by its name and
  -- location.
  pub data AreVerified (search : AgentRequest → Str → Result Json) (req : AgentRequest)
      : ℕ → List SelectedPlace → List Place → Type 0 where
    all_found : {n : ℕ} → AreVerified search req n [] []
    found :
        {n : ℕ} {given : SelectedPlace} {selected : List SelectedPlace} {p : Place}
        {ps : List Place}
        → IsAnswered search req given p
        → IsGrounded n given.day p
        → matches fl reader given p ≡ true
        → AreVerified search req (suc n) selected ps
        → AreVerified search req n (given ∷ selected) (p ∷ ps)

  -- What the first candidate that matches is.
  abbrev IsMatch : ℕ → SelectedPlace → List Json → Place → Type 0
  IsMatch n given cs p =
      ((c : Json) × Listed cs c × IsFrom reader c p)
      × IsGrounded n given.day p
      × (matches fl reader given p ≡ true)

  candidate_match-lem :
      (n : ℕ) (given : SelectedPlace) (o : Option Place) (p : Place)
      → candidate_match fl reader given o ≡ some p
      → (o ≡ some p) × (matches fl reader given p ≡ true)
  unfolding candidate_match
  candidate_match-lem n given none p h = absurd (cc)
  candidate_match-lem n given (some q) p h = elim (Bool-cases (matches fl reader given q)) [
    | inl e ↦ let k = rw e at h in let same : q ≡ p = cc in (ap some same, rw same at e)
    | inr e ↦ let k = rw e at h in absurd (cc)
  ]

  first_match-lem :
      (n : ℕ) (given : SelectedPlace) (cs : List Json) (p : Place)
      → first_match fl reader n given cs ≡ some p
      → IsMatch n given cs p
  unfolding first_match
  first_match-lem n given [] p h = absurd (cc)
  first_match-lem n given (c ∷ cs) p h =
      elim (or_next-some
        (candidate_match fl reader given (place_from_candidate reader n c [] given.day)) _ p h) [
          | inl e ↦
              let (made, matched) =
                candidate_match-lem n given (place_from_candidate reader n c [] given.day) p e in
              (
                (c, (0, refl), place_from_candidate-IsFrom reader n c [] given.day p made),
                place_from_candidate-IsGrounded reader n c [] given.day p made,
                matched,
              )
          | inr e ↦
              let ((d, (i, g), from), grounded, matched) = first_match-lem n given cs p e in
              ((d, (suc i, g), from), grounded, matched)
        ]

  module _ (search : AgentRequest → Str → Result Json) where
    with_place-some :
        (p : Place) (rest : Option (List Place)) (qs : List Place)
        → with_place fl reader p rest ≡ some qs
        → (ps : List Place) × (rest ≡ some ps) × (qs ≡ p ∷ ps)
    with_place-some p none qs h = absurd (cc)
    with_place-some p (some ps) qs h = (ps, refl, cc)

    verify_from-AreVerified :
        (req : AgentRequest) (n : ℕ) (selected : List SelectedPlace) (ps : List Place)
        → verify_from fl reader search req n selected ≡ returned (some ps)
        → AreVerified search req n selected ps
    unfolding verify_from
    verify_from-AreVerified req n [] ps h =
        let none_left : [] ≡ ps = cc in subst (AreVerified search req n []) none_left all_found
    verify_from-AreVerified req n (given ∷ selected) ps h =
        let (response, asked, h₁) = >>=-returned (search req (take 40 given.name)) _ (some ps) h in
        let (cs, answered, h₂) = >>=-returned (candidates_in response) _ (some ps) h₁ in
        elim (Option-cases (first_match fl reader n given cs)) [
          | inl e ↦ let k = rw e at h₂ in absurd (cc)
          | inr (p, e) ↦
              let k = rw e at h₂ in
              let (rest, more, k₁) =
                >>=-returned (verify_from fl reader search req (suc n) selected) _ (some ps) k in
              let (qs, some_rest, whole) = with_place-some p rest ps (cc) in
              let tail =
                verify_from-AreVerified req (suc n) selected qs (more ∙ ap returned some_rest) in
              let ((c, listed, from), grounded, matched) = first_match-lem n given cs p e in
              let answer : IsAnswered search req given p = record {
                response = response;
                candidates = cs;
                candidate = c;
                asked = asked;
                answered = answered;
                listed = listed;
                from = from;
              } in
              subst (AreVerified search req n (given ∷ selected)) (sym whole)
                (found answer grounded matched tail)
        ]

    after_verify-verified :
        (s : AgentState) (r : Result (Option (List Place))) (t : AgentState) (ps : List Place)
        → has_error t ≡ false
        → after_verify fl reader search s r ≡ returned (t, ps)
        → (r ≡ returned (some ps)) × (t ≡ s)
    unfolding after_verify failed fail_with update_failure
    after_verify-verified s (returned (some qs)) t ps clean h = (cc, cc)
    after_verify-verified s (returned none) t ps clean h =
        let bad : true ≡ has_error t = ap failed h in absurd (cc)
    after_verify-verified s (raised e) t ps clean h = elim (Bool-cases (is_verify_error e)) [
      | inl c ↦ let k = rw c at h in let bad : true ≡ has_error t = ap failed k in absurd (cc)
      | inr c ↦ let k = rw c at h in absurd (cc)
    ]

    load_given_places-some :
        (s : AgentState)
        → s.error ≡ none
        → is_empty (or_empty s.request.places) ≡ false
        → load_given_places fl reader search s ≡ load_verified fl reader search s
    unfolding load_given_places
    load_given_places-some s clean some_places = simp (clean, some_places)

    -- A manual route leaves the node without an error only if every place that the user chose was
    -- found: it goes on with what a candidate says that the hub answered to the search for its name,
    -- with the id, the name and the coordinates of that candidate, numbered in order, on the user's
    -- day, inside the country, and matched by its id or by its name and location.
    pub load_given_places-AreVerified :
        (s t : AgentState)
        → s.error ≡ none
        → load_given_places fl reader search s ≡ returned t
        → has_error t ≡ false
        → (ps : List Place) × (t.places ≡ some ps)
          × (t.grounded ≡ some true)
          × AreVerified search s.request 0 (or_empty s.request.places) ps
    unfolding load_given_places load_verified with_given verify_selected fail_with has_failed
        places_in grounded_in
    load_given_places-AreVerified s t clean h sound =
        elim (Bool-cases (is_empty (or_empty s.request.places))) [
          | inl e ↦
              let k = simp (clean, e) at h in
              let bad : true ≡ has_error t = ap has_failed k in absurd (cc)
          | inr e ↦
              let k : load_verified fl reader search s ≡ returned t =
                sym (load_given_places-some s clean e) ∙ h in
              let started : AgentState = record s { selection_path = some route } in
              let ((u, ps), v, w) =
                >>=-returned (verify_selected fl reader search started (or_empty s.request.places))
                  _ t k in
              let sound_u : has_error u ≡ false = ap has_failed w ∙ sound in
              let (r, _) = after_verify-verified started _ u ps sound_u v in
              (
                ps,
                sym (ap places_in w),
                sym (ap grounded_in w) ∙ ap (λ b. some (not b)) sound_u,
                verify_from-AreVerified s.request 0 (or_empty s.request.places) ps r,
              )
        ]
