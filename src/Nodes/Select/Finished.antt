-- ===== src/Nodes/Select/Finished.antt =====
-- app/nodes/agent_nodes.py, the end of `recommend_places`: what becomes of a selection.
use map_service_agent.Prelude.{
  ◌≤◌, ◌≡◌, ◌≢◌, ◌⊎◌, ltb, ◌||◌, not, any, Bool, refl, sym, ap, subst, ◌∙◌, true, false, Option,
  none, some, List, [], ◌∷◌, map, length, range, IsSorted, Bool-cases, inl, inr, arith,
}
use map_service_agent.Value.{Json}
use map_service_agent.Failure.{
  Exc, cancelled_error, type_error, Code, no_matching_places, selection_invalid, exception_failure,
  IsClassified, exception_failure-IsClassified, Result, returned, raised, ◌>>=◌,
}
use map_service_agent.Schema.Model.{Place, PlacesSelection}
use map_service_agent.Nodes.State.{
  AgentState, Settings, fail_with, has_error, is_some, num_days, or_empty, update_failure,
}
use map_service_agent.Nodes.Candidates.{Reader}
use map_service_agent.Nodes.Reviews.{Client, Collected, keep_reviews, with_stored}
use map_service_agent.Nodes.Reviews.Budget.{CollectsWithin}
use map_service_agent.Nodes.Select.{
  after_selection, check_days, has_day, merge_pinned, places_chosen, with_chosen, with_merged,
}
use map_service_agent.Nodes.Select.Coverage.{
  Fills, HasRoom, AreCovered, IsLacking, test-AreCovered, test-IsLacking,
}
use map_service_agent.Nodes.Select.Itinerary.{IsItinerary, places_chosen-IsItinerary}
use map_service_agent.Nodes.Select.Merge.{IsMerged, merge_pinned-IsMerged}

-- Places that are numbered from 0, in the order of their days.
abbrev pub AreOrdered : List Place → Type 0
AreOrdered ps = (map (λ p. p.place_id) ps ≡ range 0 (length ps)) × IsSorted (λ p. p.day) ps

abbrev pub Escapes : Exc → Type 0
Escapes e = (e ≡ cancelled_error) ⊎ (e ≡ type_error)

-- What a state that goes on keeps, where only a type error or a cancellation can break it off.
abbrev pub KeepsOn : AgentState → Result AgentState → Type 0
KeepsOn s (raised e) = Escapes e
KeepsOn s (returned t) = (t.request ≡ s.request) × (t.error ≡ s.error) × (t.ledger ≡ s.ledger)

pub with_stored-KeepsOn :
    (client : Option Client) (settings : Settings) (s : AgentState) (candidates : List Json)
    (r : Result Collected)
    → CollectsWithin client settings s candidates r
    → KeepsOn s (with_stored s r)
unfolding with_stored keep_reviews
with_stored-KeepsOn none settings s candidates (raised e) h = inr h
with_stored-KeepsOn (some fetch) settings s candidates (raised e) (inl h) = inr h
with_stored-KeepsOn (some fetch) settings s candidates (raised e) (inr (h, q, c)) = inl h
with_stored-KeepsOn client settings s candidates (returned c) h = (refl, refl, refl)

pub is_some-none {ℓ} : {A : Type ℓ} (o : Option A) → is_some o ≡ false → o ≡ none
is_some-none none h = refl
is_some-none (some a) h = cc h

-- What becomes of the places that the user keeps and those that the model chose.
abbrev pub Together : List Place → List Place → List Place → Type 0
Together [] fresh ps = ps ≡ fresh
Together (p ∷ pinned) fresh ps = IsMerged (p ∷ pinned) fresh ps

merged_eq :
    (t : AgentState) (p : Place) (ps : List Place)
    → t.error ≡ none
    → with_merged (p ∷ ps) t
      ≡ record t { places = some (merge_pinned (p ∷ ps) (or_empty t.places)) }
unfolding with_merged
merged_eq t p ps h = rw h refl

idle_eq : (t : AgentState) (pinned : List Place) → has_error t ≡ true → with_merged pinned t ≡ t
unfolding with_merged
idle_eq t [] h = refl
idle_eq t (p ∷ ps) h = rw h refl

unchecked_eq : (t : AgentState) → has_error t ≡ true → check_days t ≡ t
unfolding check_days
unchecked_eq t h = rw h refl

unmerged_eq :
    (t : AgentState) (pinned : List Place)
    → has_error t ≡ true
    → check_days (with_merged pinned t) ≡ t
unmerged_eq t pinned h = ap check_days (idle_eq t pinned h) ∙ unchecked_eq t h

-- `Asked s cs answer`: the model was asked about the candidates `cs` of the state, and answered so.
module _ (r : Reader) (Asked : AgentState → List Json → Result PlacesSelection → Type 0) where
  -- Why there is no selection.
  pub data NoSelection (s t : AgentState) : Type 0 where
    no_candidates :
        or_empty s.candidates ≡ []
        → t.code ≡ some no_matching_places
        → t.retryable ≡ some false
        → NoSelection s t
    no_answer :
        (cs : List Json) (e : Exc) (code : Code) (retryable : Bool)
        → Asked s cs (raised e)
        → e ≢ cancelled_error
        → IsClassified e code retryable
        → t.code ≡ some code
        → t.retryable ≡ some retryable
        → NoSelection s t
    none_chosen :
        (cs : List Json) (env : PlacesSelection)
        → Asked s cs (returned env)
        → places_chosen r (num_days s.request) cs env.selections ≡ []
        → t.code ≡ some selection_invalid
        → t.retryable ≡ some false
        → NoSelection s t

  -- Places that the model chose from the candidates.
  pub record AreChosen (s : AgentState) (ps : List Place) : Type 0 where
    candidates : List Json
    env : PlacesSelection
    asked : Asked s candidates (returned env)
    pub itinerary : IsItinerary r (num_days s.request) candidates env.selections ps

  -- What a selection gives: an error with its reason, or the places that the model chose.
  abbrev pub Selects : AgentState → Result AgentState → Type 0
  Selects s (raised e) = Escapes e
  Selects s (returned t) =
      (t.request ≡ s.request)
      × (((has_error t ≡ true) × NoSelection s t)
          ⊎ ((t.error ≡ none) × AreChosen s (or_empty t.places)))

  with_chosen-Selects :
      (s v : AgentState) (cs : List Json) (env : PlacesSelection) (ps : List Place)
      → v.error ≡ none
      → v.request ≡ s.request
      → Asked s cs (returned env)
      → places_chosen r (num_days s.request) cs env.selections ≡ ps
      → Selects s (with_chosen v ps)
  unfolding with_chosen fail_with
  with_chosen-Selects s v cs env [] h q a e = (q, inl (refl, none_chosen cs env a e refl refl))
  with_chosen-Selects s v cs env (p ∷ ps) h q a e = (
    q,
    inr (
      h,
      record {
        candidates = cs;
        env = env;
        asked = a;
        itinerary =
            subst (IsItinerary r (num_days s.request) cs env.selections) e
              (places_chosen-IsItinerary r (num_days s.request) cs env.selections);
      },
    ),
  )

  pub after_selection-Selects :
      (s v : AgentState) (cs : List Json) (answer : Result PlacesSelection)
      → v.error ≡ none
      → v.request ≡ s.request
      → Asked s cs answer
      → Selects s (after_selection r cs v answer)
  unfolding after_selection update_failure
  after_selection-Selects s v cs (returned env) h q a =
      subst (λ req. Selects s (with_chosen v (places_chosen r (num_days req) cs env.selections)))
        (sym q)
        (with_chosen-Selects s v cs env (places_chosen r (num_days s.request) cs env.selections) h q
          a refl)
  after_selection-Selects s v cs (raised cancelled_error) h q a = inl refl
  after_selection-Selects s v cs (raised e) h q a = (
    q,
    inl (
      refl,
      no_answer cs e (exception_failure e).code (exception_failure e).retryable a (λ z. cc z)
          (exception_failure-IsClassified e) refl refl,
    ),
  )

  -- How `recommend_places` ends with the places that the user keeps.
  pub data Recommended (s : AgentState) (pinned : List Place) : Result AgentState → Type 0 where
    refused : has_error s ≡ true → Recommended s pinned (returned s)
    unselected :
        (t : AgentState)
        → has_error t ≡ true
        → HasRoom pinned s.plan
        → NoSelection s t
        → Recommended s pinned (returned t)
    lacking :
        (t : AgentState) (fresh : List Place)
        → has_error t ≡ true
        → HasRoom pinned s.plan
        → AreChosen s fresh
        → Together pinned fresh (or_empty t.places)
        → IsLacking s.request (or_empty t.places)
        → t.code ≡ some selection_invalid
        → t.retryable ≡ some false
        → Recommended s pinned (returned t)
    full :
        (t : AgentState)
        → t.error ≡ none
        → pinned ≢ []
        → Fills pinned s.plan
        → t.places ≡ some pinned
        → Recommended s pinned (returned t)
    chosen :
        (t : AgentState) (fresh : List Place)
        → t.error ≡ none
        → HasRoom pinned s.plan
        → AreChosen s fresh
        → Together pinned fresh (or_empty t.places)
        → AreOrdered (or_empty t.places)
        → length pinned ≤ length (or_empty t.places)
        → AreCovered s.request (or_empty t.places)
        → Recommended s pinned (returned t)
    escaped : (e : Exc) → Escapes e → Recommended s pinned (raised e)

  -- The last check, on places in order.
  checked-Recommended :
      (s t : AgentState) (pinned fresh : List Place)
      → t.request ≡ s.request
      → t.error ≡ none
      → HasRoom pinned s.plan
      → AreChosen s fresh
      → Together pinned fresh (or_empty t.places)
      → AreOrdered (or_empty t.places)
      → length pinned ≤ length (or_empty t.places)
      → Recommended s pinned (returned (check_days t))
  unfolding check_days fail_with
  checked-Recommended s t pinned fresh q c room a g o l =
      elim (Bool-cases (
        ltb (length (or_empty t.places)) 2
        || any (λ d. not (has_day (or_empty t.places) d)) (range 1 (num_days t.request)))) [
          | inl f ↦
              let short =
                subst (λ req. IsLacking req (or_empty t.places)) q
                  (test-IsLacking t.request (or_empty t.places) f) in
              simp (check_days, c, f) (lacking _ fresh refl room a g short refl refl)
          | inr f ↦
              let all =
                subst (λ req. AreCovered req (or_empty t.places)) q
                  (test-AreCovered t.request (or_empty t.places) f) in
              simp (check_days, c, f) (chosen t fresh c room a g o l all)
        ]

  merged-Recommended :
      (s t : AgentState) (pinned : List Place)
      → t.request ≡ s.request
      → t.error ≡ none
      → HasRoom pinned s.plan
      → AreChosen s (or_empty t.places)
      → Recommended s pinned (returned (check_days (with_merged pinned t)))
  unfolding with_merged
  merged-Recommended s t [] q e room a =
      checked-Recommended s t [] (or_empty t.places) q e room a refl
        (a.itinerary.numbered, a.itinerary.by_day) (omega arith)
  merged-Recommended s t (p ∷ ps) q e room a =
      let m = merge_pinned-IsMerged (p ∷ ps) (or_empty t.places) in
      subst (λ u. Recommended s (p ∷ ps) (returned (check_days u))) (sym (merged_eq t p ps e))
        (checked-Recommended s
          (record t { places = some (merge_pinned (p ∷ ps) (or_empty t.places)) }) (p ∷ ps)
          (or_empty t.places) q e room a m (m.numbered, m.by_day) m.count)

  pub finish-Recommended :
      (s : AgentState) (pinned : List Place) (o : Result AgentState)
      → HasRoom pinned s.plan
      → Selects s o
      → Recommended s pinned (o >>= λ t. returned (check_days (with_merged pinned t)))
  finish-Recommended s pinned (raised e) room h = escaped e h
  finish-Recommended s pinned (returned t) room (q, inr (e, a)) =
      merged-Recommended s t pinned q e room a
  finish-Recommended s pinned (returned t) room (q, inl (e, none_made)) =
      subst (λ u. Recommended s pinned (returned u)) (sym (unmerged_eq t pinned e))
        (unselected t e room none_made)
