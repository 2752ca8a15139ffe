-- ===== src/Nodes/Select/Recommended.antt =====
-- app/nodes/agent_nodes.py, `recommend_places`: how the node ends, on every branch.
use map_service_agent.Prelude.{
  ◌≡◌, ◌≢◌, refl, sym, ap, ap₂, ◌∙◌, Bool, true, false, ◌&&◌, Option, none, some, List, [], ◌∷◌,
  Bool-cases, inl, inr,
}
use map_service_agent.Value.{Str, Json, FloatOps}
use map_service_agent.Failure.{Exc, Result, returned, raised, ◌>>=◌}
use map_service_agent.Schema.Model.{AgentRequest, Place, PlacesSelection}
use map_service_agent.Llm.StructuredCall.{Gemini, call_structured}
use map_service_agent.Nodes.State.{AgentState, Settings, fail_with, has_error, or_empty, select}
use map_service_agent.Nodes.Candidates.{Reader, cap_candidates}
use map_service_agent.Nodes.Given.{verify_selected}
use map_service_agent.Nodes.Reviews.{Client, with_reviews, fetch_reviews_for}
use map_service_agent.Nodes.Reviews.Budget.{fetch_reviews_for-CollectsWithin}
use map_service_agent.Nodes.Rank.{is_grounded}
use map_service_agent.Nodes.Select.{
  candidate_limit, has_pinned, recommend_places, recommend_with, remaining_targets, select_enriched,
  select_from, select_places,
}
use map_service_agent.Nodes.Select.Coverage.{remaining-Fills, remaining-HasRoom}
use map_service_agent.Nodes.Select.Finished.{
  Selects, KeepsOn, Recommended, refused, full, no_candidates, after_selection-Selects,
  with_stored-KeepsOn, finish-Recommended, is_some-none,
}

module _ (fl : FloatOps) (reader : Reader) (search : AgentRequest → Str → Result Json)
    (gemini : Gemini PlacesSelection) (cause_text : Str → Str)
    (prompt_of : AgentState → List Json → Str × Str) (same : Json → Json → Bool) (text : Json → Str)
    (client : Option Client) (settings : Settings) where
  with_reviews-KeepsOn :
      (s : AgentState) (candidates : List Json)
      → KeepsOn s (with_reviews same text client settings s candidates)
  unfolding with_reviews
  with_reviews-KeepsOn s candidates =
      elim (Bool-cases (settings.reviews_enrich_enabled && is_grounded s.grounded)) [
        | inr e ↦ rw (with_reviews, e) (refl, refl, refl)
        | inl e ↦
            rw (with_reviews, e)
              (with_stored-KeepsOn client settings s candidates
                (fetch_reviews_for same text client settings s candidates)
                (fetch_reviews_for-CollectsWithin same text client settings s candidates))
      ]

  -- The model was asked about the candidates of a state, cut to the limit, and answered so: within the
  -- calls that the state has left, with the prompt of a state with this request.
  pub record Asked (s : AgentState) (cs : List Json) (answer : Result PlacesSelection)
      : Type 0 where
    some_candidates : or_empty s.candidates ≢ []
    cut : cs ≡ cap_candidates (or_empty s.candidates) (candidate_limit settings s.request)
    shown : AgentState
    request : shown.request ≡ s.request
    ledger : shown.ledger ≡ s.ledger
    answered :
        answer
        ≡ (call_structured gemini cause_text
            (prompt_of shown cs).0
            (prompt_of shown cs).1
            settings.gemini_max_calls_per_request
            s.ledger).0

  select_enriched-Selects :
      (s t : AgentState) (candidates : List Json)
      → or_empty s.candidates ≢ []
      → candidates ≡ cap_candidates (or_empty s.candidates) (candidate_limit settings s.request)
      → t.error ≡ none
      → t.request ≡ s.request
      → t.ledger ≡ s.ledger
      → Selects reader Asked s (
          select_enriched fl reader search gemini cause_text prompt_of same text client settings
            candidates t)
  unfolding select_enriched
  select_enriched-Selects s t candidates f c h q l =
      let p = prompt_of t candidates in
      let a =
        call_structured gemini cause_text p.0 p.1 settings.gemini_max_calls_per_request t.ledger in
      after_selection-Selects reader Asked s (record t { ledger = a.1 }) candidates a.0 h q
        (record {
          some_candidates = f;
          cut = c;
          shown = t;
          request = q;
          ledger = l;
          answered =
              ap
                (λ ledger.
                  (call_structured gemini cause_text p.0 p.1 settings.gemini_max_calls_per_request
                    ledger).0)
                l;
        })

  enriched-Selects :
      (s u : AgentState) (candidates : List Json) (r : Result AgentState)
      → or_empty s.candidates ≢ []
      → candidates ≡ cap_candidates (or_empty s.candidates) (candidate_limit settings s.request)
      → u.error ≡ none
      → u.request ≡ s.request
      → u.ledger ≡ s.ledger
      → KeepsOn u r
      → Selects reader Asked s (
          r
          >>= select_enriched fl reader search gemini cause_text prompt_of same text client settings
              candidates)
  enriched-Selects s u candidates (raised e) f c h q l k = k
  enriched-Selects s u candidates (returned t) f c h q l (r, e, m) =
      select_enriched-Selects s t candidates f c (e ∙ h) (r ∙ q) (m ∙ l)

  select_from-Selects :
      (s v : AgentState) (candidates : List Json)
      → v.error ≡ none
      → v.request ≡ s.request
      → v.ledger ≡ s.ledger
      → or_empty s.candidates ≡ candidates
      → Selects reader Asked s (
          select_from fl reader search gemini cause_text prompt_of same text client settings v
            candidates)
  unfolding select_from select_places fail_with
  select_from-Selects s v [] h q l e = (q, inl (refl, no_candidates e refl refl))
  select_from-Selects s v (c ∷ cs) h q l e =
      let candidates = cap_candidates (c ∷ cs) (candidate_limit settings v.request) in
      let u = record v { candidates = some candidates; selection_path = some select } in
      enriched-Selects s u candidates (with_reviews same text client settings u candidates)
        (λ z. let bad : c ∷ cs ≡ [] = sym e ∙ z in cc bad)
        (ap₂ (λ xs req. cap_candidates xs (candidate_limit settings req)) (sym e) q) h q l
        (with_reviews-KeepsOn u candidates)

  recommend_with-Recommended :
      (s : AgentState) (pinned : List Place)
      → Recommended reader Asked s pinned (
          recommend_with fl reader search gemini cause_text prompt_of same text client settings
            (s, pinned))
  unfolding recommend_with
  recommend_with-Recommended s [] = elim (Bool-cases (has_error s)) [
    | inl e ↦ simp (recommend_with, e) (refused e)
    | inr e ↦
        simp (recommend_with, e)
          (finish-Recommended reader Asked s [] _ (inl refl)
            (select_from-Selects s _ _ (is_some-none s.error e) refl refl refl))
  ]
  recommend_with-Recommended s (p ∷ ps) = elim (Bool-cases (has_error s)) [
    | inl e ↦ simp (recommend_with, e) (refused e)
    | inr e ↦ elim (Bool-cases (remaining_targets (p ∷ ps) s.plan).1) [
      | inr f ↦
          simp (recommend_with, e, f)
            (full _ (is_some-none s.error e) (λ x. cc x) (remaining-Fills (p ∷ ps) s.plan f) refl)
      | inl f ↦
          simp (recommend_with, e, f)
            (finish-Recommended reader Asked s (p ∷ ps) _
              (inr (remaining-HasRoom (p ∷ ps) s.plan f))
              (select_from-Selects s _ _ (is_some-none s.error e) refl refl refl))
    ]
  ]

  -- How the node ends: with the places of the user that were found at their sources, if it keeps some.
  pub data Recommends (s : AgentState) : Result AgentState → Type 0 where
    unchanged : has_error s ≡ true → Recommends s (returned s)
    unpinned :
        {r : Result AgentState}
        → has_pinned s.request ≡ false
        → Recommended reader Asked s [] r
        → Recommends s r
    pinned :
        {r : Result AgentState} (t : AgentState) (kept : List Place)
        → has_pinned s.request ≡ true
        → verify_selected fl reader search s (or_empty s.request.places) ≡ returned (t, kept)
        → Recommended reader Asked t kept r
        → Recommends s r
    broken :
        (e : Exc)
        → has_pinned s.request ≡ true
        → verify_selected fl reader search s (or_empty s.request.places) ≡ raised e
        → Recommends s (raised e)

  verified-Recommends :
      (s : AgentState) (v : Result (AgentState × List Place))
      → has_pinned s.request ≡ true
      → verify_selected fl reader search s (or_empty s.request.places) ≡ v
      → Recommends s (
          v
          >>= recommend_with fl reader search gemini cause_text prompt_of same text client settings)
  verified-Recommends s (raised e) h v = broken e h v
  verified-Recommends s (returned (t, kept)) h v =
      pinned t kept h v (recommend_with-Recommended t kept)

  -- recommend_places leaves a state with an error as it is. If the places that the user keeps, as the
  -- hub has them, fill the plan, it ends with them. Else it ends with places that the model chose from
  -- the candidates, cut to the limit, merged with those of the user: numbered from 0 in the order of
  -- their days, two at least, no fewer than the user keeps, and one on every day of the trip. It ends
  -- with an error only if there are no candidates, if the model gives no answer (with the failure that
  -- is fixed for the exception), if no place comes out of its answer, or if a day has no place or
  -- there is but one, each with its code. Only a cancellation or a type error leaves it, or what the
  -- check of the user's places raises.
  pub recommend_places-Recommends :
      (s : AgentState)
      → Recommends s (
          recommend_places fl reader search gemini cause_text prompt_of same text client settings s)
  unfolding recommend_places
  recommend_places-Recommends s = elim (Bool-cases (has_error s)) [
    | inl e ↦ simp (recommend_places, e) (unchanged e)
    | inr e ↦ elim (Bool-cases (has_pinned s.request)) [
      | inl h ↦ simp (recommend_places, e, h) (verified-Recommends s _ h refl)
      | inr h ↦ simp (recommend_places, e, h) (unpinned h (recommend_with-Recommended s []))
    ]
  ]
