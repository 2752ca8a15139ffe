-- ===== src/Service/Summaries/Lines.antt =====
-- app/main.py: what a run of the summary graph leaves.
use map_service_agent.Prelude.{
  ℕ, ◌<◌, ◌≡◌, ◌≢◌, true, none, some, List, [], ◌∷◌, map, length, length-take, contains, All,
  All-imp, get_elem?, arith, Bool-cases, inl, inr, ◌==◌,
}
use map_service_agent.Value.{Str, Json}
use map_service_agent.Failure.{Result, returned, raised, ◌>>=◌}
use map_service_agent.Schema.Model.{PlaceBullets, BulletsEnvelope}
use map_service_agent.Nodes.State.{or_empty}
use map_service_agent.Llm.StructuredCall.{Gemini, Ledger}
use map_service_agent.Summary.{
  SummaryPlace, View, SummaryState, SummarySettings, prepare_places, with_items, summarize,
  lines_of, after_prepare, collect_bullets, invoke_summary,
}
use map_service_agent.Summary.Views.{snippets_of, StandsFor, prepare_places-AreViews}
use map_service_agent.Summary.Lines.{IsAnswered, Distinct, collect_bullets-AreCollected}

-- The place that an entry is for: below the limit, and with usable reviews.
abbrev pub IsOfPlace : ℕ → List SummaryPlace → ℕ × List Str → Type 0
IsOfPlace limit places e =
    (p : SummaryPlace) × (e.0 < limit) × (get_elem? places e.0 ≡ some p) × (snippets_of p ≢ [])

-- Two lines for each of some places of the request.
pub record AreLines (limit : ℕ) (places : List SummaryPlace) (es : List (ℕ × List Str))
    : Type 0 where
  pub placed : All (IsOfPlace limit places) es
  pub two : All (λ e. length e.1 ≡ 2) es
  pub distinct : Distinct es

pub contains-StandsFor :
    (limit : ℕ) (places : List SummaryPlace) (views : List View) (i : ℕ) (lines : List Str)
    → All (StandsFor limit places) views
    → contains (map (λ v. v.place_id) views) i ≡ true
    → IsOfPlace limit places (i, lines)
contains-StandsFor limit places [] i lines h c = cc c
contains-StandsFor limit places (v ∷ vs) i lines h c = elim (Bool-cases (v.place_id == i)) [
  | inl e ↦
      let (p, l, g, u, _) = h.0 in
      let same : v.place_id ≡ i = ground arith in (p, omega arith, rw same at g, u)
  | inr e ↦ contains-StandsFor limit places vs i lines h.1 (ground arith)
]

pub answered-two :
    (items : List PlaceBullets) (e : ℕ × List Str) → IsAnswered items e → length e.1 ≡ 2
answered-two items e (n, item, g, p, l, q) =
    rw q (omega (arith, length-take 2 (lines_of item.bullets)))

-- The state after the model answered: what `prepare_places` left, with the items and the usage.
abbrev pub answered : SummaryState → List PlaceBullets → Ledger → SummaryState
answered s items ledger = record s { items = some items; ledger = ledger }

pub prepare-fresh :
    (settings : SummarySettings) (s : SummaryState)
    → s.bullets ≡ none
    → (prepare_places settings s).bullets ≡ none
unfolding prepare_places
prepare-fresh settings s h = h

module _ (settings : SummarySettings) (s : SummaryState) (fresh : s.bullets ≡ none) where
  pub collected-AreLines :
      (items : List PlaceBullets) (ledger : Ledger)
      → AreLines settings.summary_max_places s.places
          (or_empty (collect_bullets (answered (prepare_places settings s) items ledger)).bullets)
  collected-AreLines items ledger =
      let n = settings.summary_max_places in
      let t = answered (prepare_places settings s) items ledger in
      let views = prepare_places-AreViews settings s in
      let c = collect_bullets-AreCollected t (prepare-fresh settings s fresh) in
      record {
        placed =
            All-imp
              (λ e k. contains-StandsFor n s.places _ e.0 e.1 views.sound (rw views.numbered k)) _
              c.known;
        two = All-imp (answered-two items) _ c.answered;
        distinct = c.distinct;
      }

  -- A run that gives a state gives lines of this kind.
  abbrev pub Ends : Result SummaryState → Type 0
  Ends (returned t) = AreLines settings.summary_max_places s.places (or_empty t.bullets)
  Ends (raised e) = Unit {0}

  pub with_items-Ends :
      (r : Result BulletsEnvelope × Ledger)
      → Ends (with_items (prepare_places settings s) r >>= λ t. returned (collect_bullets t))
  unfolding with_items
  with_items-Ends (returned envelope, ledger) = collected-AreLines envelope.items ledger
  with_items-Ends (raised e, ledger) = tt

  pub prepared-Ends : Ends (returned (prepare_places settings s))
  prepared-Ends =
      rw (prepare-fresh settings s fresh) (record { placed = tt; two = tt; distinct = tt })

  module _ (gemini : Gemini BulletsEnvelope) (cause_text : Str → Str) (dumps : Json → Str)
      (system : Str) where
    pub after_prepare-Ends :
        (views : List View)
        → Ends (
            after_prepare
              (summarize gemini cause_text dumps system settings)
              views
              (prepare_places settings s))
    unfolding after_prepare summarize
    after_prepare-Ends [] = prepared-Ends
    after_prepare-Ends (v ∷ vs) = with_items-Ends _

    pub invoke_summary-Ends : Ends (invoke_summary gemini cause_text dumps system settings s)
    unfolding invoke_summary
    invoke_summary-Ends = after_prepare-Ends (or_empty (prepare_places settings s).views)
