-- ===== src/Service/Summaries/Answers.antt =====
-- app/main.py: what the summary endpoints answer.
use map_service_agent.Prelude.{
  ℕ, suc, ◌≡◌, ◌⊎◌, refl, ◌∙◌, Bool, true, false, ◌||◌, Option, none, List, [], ◌∷◌, map, length,
  arith, Bool-cases, inl, inr, leb, ◌==◌, insert_by, sort_by, IsSorted, AtLeast, sort_by-IsSorted,
  All-sort_by,
}
use map_service_agent.Value.{Str, Json}
use map_service_agent.Failure.{
  Exc, budget_exceeded, quota_error, cancelled_error, Result, returned, raised, ◌>>=◌,
}
use map_service_agent.Schema.Model.{BulletsEnvelope}
use map_service_agent.Nodes.State.{or_empty}
use map_service_agent.Llm.StructuredCall.{Gemini}
use map_service_agent.Summary.{SummaryPlace, SummaryState, SummarySettings, has_key, invoke_summary}
use map_service_agent.Summary.Views.{Rises}
use map_service_agent.Summary.Lines.{Distinct}
use map_service_agent.Service.Admission.{Answer, going_on, http_exception}
use map_service_agent.Service.Admission.Decided.{IsTrusted, verify_internal_token-IsTrusted}
use map_service_agent.Service.Summaries.{
  SummaryPlaceRequest, place_of_request, initial_summary, status_of_exception, bullets_of,
  run_summary, unless_refused_run, map_answer, summarize_places_reviews,
}
use map_service_agent.Service.Summaries.Lines.{IsOfPlace, AreLines, Ends, invoke_summary-Ends}

-- Sorting entries whose numbers are distinct makes the numbers rise.
has_key-insert :
    (i : ℕ) (e : ℕ × List Str) (es : List (ℕ × List Str))
    → has_key i (insert_by (λ e. e.0) e es) ≡ (e.0 == i || has_key i es)
has_key-insert i e [] = refl
has_key-insert i e (f ∷ fs) = ground (arith, has_key-insert i e fs)

has_key-sort : (i : ℕ) (es : List (ℕ × List Str)) → has_key i (sort_by (λ e. e.0) es) ≡ has_key i es
has_key-sort i [] = refl
has_key-sort i (e ∷ es) =
    ground (arith, has_key-insert i e (sort_by (λ e. e.0) es), has_key-sort i es)

Distinct-insert :
    (e : ℕ × List Str) (es : List (ℕ × List Str))
    → has_key e.0 es ≡ false
    → Distinct es
    → Distinct (insert_by (λ e. e.0) e es)
Distinct-insert e [] h d = (refl, tt)
Distinct-insert e (f ∷ fs) h d = elim (Bool-cases (leb e.0 f.0)) [
  | inl l ↦ rw l (h, d)
  | inr l ↦ rw l (ground (arith, has_key-insert f.0 e fs), Distinct-insert e fs (ground arith) d.1)
]

Distinct-sort : (es : List (ℕ × List Str)) → Distinct es → Distinct (sort_by (λ e. e.0) es)
Distinct-sort [] d = tt
Distinct-sort (e ∷ es) d =
    Distinct-insert e (sort_by (λ e. e.0) es) (has_key-sort e.0 es ∙ d.0) (Distinct-sort es d.1)

Rises-from :
    (k : ℕ) (es : List (ℕ × List Str))
    → AtLeast (λ e. e.0) k es
    → has_key k es ≡ false
    → IsSorted (λ e. e.0) es
    → Distinct es
    → Rises (suc k) (map (λ e. e.0) es)
Rises-from k [] a h s d = tt
Rises-from k (e ∷ es) a h s d = (ground arith, Rises-from e.0 es s.0 d.0 s.1 d.1)

Rises-sorted :
    (es : List (ℕ × List Str)) → IsSorted (λ e. e.0) es → Distinct es → Rises 0 (map (λ e. e.0) es)
Rises-sorted [] s d = tt
Rises-sorted (e ∷ es) s d = (omega arith, Rises-from e.0 es s.0 d.0 s.1 d.1)

-- What `summarize_places_reviews` may answer, where `ran` is how a run of the graph ends.
pub data Answered (Trusted : Type 0) (ran : Result SummaryState) (limit : ℕ)
    (places : List SummaryPlace) : Result (Answer (List (ℕ × List Str))) → Type 0 where
  unauthorised : ¬ Trusted → Answered Trusted ran limit places (returned (http_exception 401))
  limited :
      Trusted
      → (ran ≡ raised budget_exceeded) ⊎ (ran ≡ raised quota_error)
      → Answered Trusted ran limit places (returned (http_exception 429))
  unavailable :
      (e : Exc)
      → Trusted
      → ran ≡ raised e
      → Answered Trusted ran limit places (returned (http_exception 502))
  cancelled :
      Trusted
      → ran ≡ raised cancelled_error
      → Answered Trusted ran limit places (raised cancelled_error)
  summaries :
      (es : List (ℕ × List Str))
      → Trusted
      → AreLines limit places es
      → Rises 0 (map (λ e. e.0) es)
      → Answered Trusted ran limit places (returned (going_on es))

sort-AreLines :
    (limit : ℕ) (places : List SummaryPlace) (es : List (ℕ × List Str))
    → AreLines limit places es
    → AreLines limit places (sort_by (λ e. e.0) es)
sort-AreLines limit places es a = record {
  placed = All-sort_by (λ e. e.0) (IsOfPlace limit places) es a.placed;
  two = All-sort_by (λ e. e.0) (λ e. length e.1 ≡ 2) es a.two;
  distinct = Distinct-sort es a.distinct;
}

abbrev sorted_answer : Result (Answer (List (ℕ × List Str))) → Result (Answer (List (ℕ × List Str)))
sorted_answer r = r >>= λ bullets. returned (map_answer (sort_by (λ e. e.0)) bullets)

module _ (Trusted : Type 0) (trusted : Trusted) (ran : Result SummaryState) (limit : ℕ)
    (places : List SummaryPlace) where
  Answered-lines :
      (es : List (ℕ × List Str))
      → AreLines limit places es
      → Answered Trusted ran limit places (returned (going_on (sort_by (λ e. e.0) es)))
  Answered-lines es a =
      let b = sort-AreLines limit places es a in
      summaries (sort_by (λ e. e.0) es) trusted b
        (Rises-sorted (sort_by (λ e. e.0) es) (sort_by-IsSorted (λ e. e.0) es) b.distinct)

  exception-Answered :
      (e : Exc)
      → ran ≡ raised e
      → Answered Trusted ran limit places (sorted_answer (status_of_exception e))
  unfolding status_of_exception
  exception-Answered Exc.budget_exceeded h = limited trusted (inl h)
  exception-Answered Exc.quota_error h = limited trusted (inr h)
  exception-Answered Exc.cancelled_error h = cancelled trusted h
  exception-Answered e h = unavailable e trusted h

initial-fresh : (reqs : List SummaryPlaceRequest) → (initial_summary reqs).bullets ≡ none
unfolding initial_summary
initial-fresh reqs = refl

initial-places :
    (reqs : List SummaryPlaceRequest) → (initial_summary reqs).places ≡ map place_of_request reqs
unfolding initial_summary
initial-places reqs = refl

module _ (settings : SummarySettings) (gemini : Gemini BulletsEnvelope) (cause_text : Str → Str)
    (dumps : Json → Str) (system : Str) (expected provided : Option Str) where
  abbrev limit : ℕ
  limit = settings.summary_max_places

  abbrev Trusted : Type 0
  Trusted = IsTrusted expected provided

  abbrev ran : List SummaryPlaceRequest → Result SummaryState
  ran reqs = invoke_summary gemini cause_text dumps system settings (initial_summary reqs)

  ran-Answered :
      (trusted : Trusted) (reqs : List SummaryPlaceRequest) (r : Result SummaryState)
      → ran reqs ≡ r
      → Ends settings (initial_summary reqs) (initial-fresh reqs) r
      → Answered Trusted (ran reqs) limit (map place_of_request reqs) (sorted_answer (bullets_of r))
  unfolding bullets_of initial_summary
  ran-Answered trusted reqs (returned t) e h =
      Answered-lines Trusted trusted (ran reqs) limit (map place_of_request reqs)
        (or_empty t.bullets) h
  ran-Answered trusted reqs (raised x) e h =
      exception-Answered Trusted trusted (ran reqs) limit (map place_of_request reqs) x e

  run-Answered :
      (trusted : Trusted) (enabled : Bool) (reqs : List SummaryPlaceRequest)
      → Answered Trusted (ran reqs) limit (map place_of_request reqs) (
          sorted_answer
            (run_summary (invoke_summary gemini cause_text dumps system settings) enabled reqs))
  unfolding run_summary
  run-Answered trusted true reqs = ran-Answered trusted reqs (ran reqs) refl (
      invoke_summary-Ends settings (initial_summary reqs) (initial-fresh reqs) gemini cause_text
        dumps system)
  run-Answered trusted false reqs =
      Answered-lines Trusted trusted (ran reqs) limit (map place_of_request reqs) []
        (record { placed = tt; two = tt; distinct = tt })

  -- The endpoint for several places answers 401 exactly to those who are not trusted. To the others
  -- it answers 429 only where the budget or the quota is spent, 502 only where the run raised, is
  -- cancelled only with the run, and else gives two lines for each of some places: every index is
  -- that of a place of the request below the limit that has a usable review, and the indices rise, so
  -- that no place comes twice.
  pub summarize_places_reviews-Answered :
      (enabled : Bool) (reqs : List SummaryPlaceRequest)
      → Answered Trusted (ran reqs) limit (map place_of_request reqs) (
          summarize_places_reviews
            (run_summary (invoke_summary gemini cause_text dumps system settings) enabled)
            expected
            provided
            reqs)
  unfolding summarize_places_reviews unless_refused_run
  summarize_places_reviews-Answered enabled reqs =
      elim (verify_internal_token-IsTrusted expected provided) [
        | inl (refused, e) ↦ rw (summarize_places_reviews, e) (unauthorised refused)
        | inr (trusted, e) ↦ rw (summarize_places_reviews, e) (run-Answered trusted enabled reqs)
      ]
