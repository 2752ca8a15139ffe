-- ===== src/Summary.antt =====
-- app/nodes/summary_nodes.py and app/graph/summary_graph.py: two lines from the reviews of each
-- place. The client of the model, `json.dumps` and the fixed instruction are parameters.
pub mod Views
pub mod Lines
use map_service_agent.Prelude.{
  ℕ, suc, Bool, true, false, not, ◌||◌, Option, none, some, List, [], ◌∷◌, ◌++◌, map, take, length,
  contains, any, if◌then◌else◌, ltb, ◌==◌,
}
use map_service_agent.Value.{
  Str, codes, strip, is_blank, Json, null, int, str, arr, obj, of_list, end, field, pos, negsuc, ℤ,
}
use map_service_agent.Failure.{Result, returned, raised, ◌>>=◌}
use map_service_agent.Sanitize.{sanitize_text}
use map_service_agent.Schema.Model.{PlaceBullets, BulletsEnvelope}
use map_service_agent.Nodes.State.{or_empty}
use map_service_agent.Llm.PromptJson.{dump_prompt_json}
use map_service_agent.Llm.StructuredCall.{Gemini, Ledger, call_structured}

-- `SummaryPlace`
pub record SummaryPlace : Type 0 where
  pub name : Str
  pub category : Option Str
  pub snippets : Option (List Json)

-- What goes into the prompt for one place.
pub record View : Type 0 where
  pub place_id : ℕ
  pub name : Str
  pub category : Option Str
  pub review_snippets : List Str

pub data Skipped : Type 0 where
  no_snippets no_valid_items : Skipped

-- `SummaryState`; a key that is not there is `none`.
pub record SummaryState : Type 0 where
  pub places : List SummaryPlace
  pub views : Option (List View)
  pub valid_ids : Option (List ℕ)
  pub ledger : Ledger
  pub items : Option (List PlaceBullets)
  pub bullets : Option (List (ℕ × List Str))
  pub skipped_reason : Option Skipped

-- `SUMMARY_MAX_PLACES` and `SUMMARY_MAX_LLM_CALLS`
pub record SummarySettings : Type 0 where
  pub summary_max_places : ℕ
  pub summary_max_llm_calls : ℕ

abbrev pub bullet_lines : ℕ
bullet_lines = 2

unfoldable pub sanitized_category : Option Str → Option Str
sanitized_category none = none
sanitized_category (some c) = some (sanitize_text c 120)

-- `summary_place_view`
unfoldable pub summary_place_view : ℕ → Str → Option Str → List Str → View
summary_place_view place_id name category snippets = record {
  place_id = place_id;
  name = sanitize_text name 80;
  category = sanitized_category category;
  review_snippets = map (λ s. sanitize_text s 150) snippets;
}

-- `[s for s in snippets if isinstance(s, str) and s.strip()]`
unfoldable pub usable : List Json → List Str
usable [] = []
usable (str s ∷ ss) = if is_blank s then usable ss else s ∷ usable ss
usable (_ ∷ ss) = usable ss

-- One round of the loop of `prepare_places`
unfoldable pub add_view : ℕ → SummaryPlace → List Str → List View × List ℕ → List View × List ℕ
add_view index p [] later = later
add_view index p (s ∷ ss) (views, ids) =
    (summary_place_view index p.name p.category (s ∷ ss) ∷ views, index ∷ ids)

unfoldable pub views_from : ℕ → List SummaryPlace → List View × List ℕ
views_from index [] = ([], [])
views_from index (p ∷ ps) =
    add_view index p (usable (or_empty p.snippets)) (views_from (suc index) ps)

abbrev pub skipped_if_empty {ℓ} : {A : Type ℓ} → Skipped → List A → Option Skipped → Option Skipped
skipped_if_empty reason [] old = some reason
skipped_if_empty reason (x ∷ xs) old = old

-- `prepare_places`
unfoldable pub prepare_places : SummarySettings → SummaryState → SummaryState
prepare_places settings s =
    let (views, ids) = views_from 0 (take settings.summary_max_places s.places) in
    record s {
      views = some views;
      valid_ids = some ids;
      skipped_reason = skipped_if_empty no_snippets views s.skipped_reason;
    }

abbrev pub json_of_option : Option Str → Json
json_of_option none = null
json_of_option (some s) = str s

-- The dict of a view
unfoldable pub json_of_view : View → Json
json_of_view v = obj (
    field (codes "place_id") (int (pos v.place_id)) (
      field (codes "name") (str v.name) (
        field (codes "category") (json_of_option v.category)
          (field (codes "review_snippets") (arr (of_list (map str v.review_snippets))) end))))

-- `build_summary_prompt_from_views`, without the instruction
unfoldable pub summary_prompt : (dumps : Json → Str) → List View → Str
summary_prompt dumps views =
    codes "<places>"
    ++ (dump_prompt_json dumps (arr (of_list (map json_of_view views))) ++ codes "</places>\n")

unfoldable pub with_items : SummaryState → Result BulletsEnvelope × Ledger → Result SummaryState
with_items s (returned envelope, ledger) =
    returned (record s { items = some envelope.items; ledger = ledger })
with_items s (raised e, ledger) = raised e

-- `summarize`
unfoldable pub summarize :
    (gemini : Gemini BulletsEnvelope) (cause_text : Str → Str) (dumps : Json → Str) (system : Str)
    → SummarySettings
    → SummaryState
    → Result SummaryState
summarize gemini cause_text dumps system settings s = with_items s (
    call_structured gemini cause_text system (summary_prompt dumps (or_empty s.views))
      settings.summary_max_llm_calls s.ledger)

-- `[b.strip() for b in bullets if b.strip()]`
unfoldable pub lines_of : List Str → List Str
lines_of [] = []
lines_of (b ∷ bs) = if is_blank b then lines_of bs else strip b ∷ lines_of bs

abbrev pub has_key {ℓ} : {A : Type ℓ} → ℕ → List (ℕ × A) → Bool
has_key i [] = false
has_key i ((j, a) ∷ es) = j == i || has_key i es

-- One round of the loop of `collect_bullets`, for an id that is not negative
unfoldable pub add_lines : List ℕ → ℕ → List Str → List (ℕ × List Str) → List (ℕ × List Str)
add_lines valid_ids i lines collected =
    if not (contains valid_ids i) || has_key i collected
    then collected
    else if ltb (length lines) bullet_lines
    then collected
    else collected ++ (i, take bullet_lines lines) ∷ []

unfoldable pub add_item : List ℕ → PlaceBullets → ℤ → List (ℕ × List Str) → List (ℕ × List Str)
add_item valid_ids item (pos i) collected = add_lines valid_ids i (lines_of item.bullets) collected
add_item valid_ids item (negsuc i) collected = collected

unfoldable pub collect : List ℕ → List PlaceBullets → List (ℕ × List Str) → List (ℕ × List Str)
collect valid_ids [] collected = collected
collect valid_ids (item ∷ items) collected =
    collect valid_ids items (add_item valid_ids item item.place_id collected)

unfoldable pub with_collected : SummaryState → List (ℕ × List Str) → SummaryState
with_collected s [] = record s { skipped_reason = some no_valid_items }
with_collected s (e ∷ es) = record s { bullets = some (e ∷ es) }

-- `collect_bullets`
unfoldable pub collect_bullets : SummaryState → SummaryState
collect_bullets s = with_collected s (collect (or_empty s.valid_ids) (or_empty s.items) [])

-- `_route_after_prepare`, and the edges of `build_summary_graph`
unfoldable pub after_prepare :
    (SummaryState → Result SummaryState) → List View → SummaryState → Result SummaryState
after_prepare summarize_node [] s = returned s
after_prepare summarize_node (v ∷ vs) s = summarize_node s >>= λ t. returned (collect_bullets t)

-- `SUMMARY_GRAPH.ainvoke`
unfoldable pub invoke_summary :
    (gemini : Gemini BulletsEnvelope) (cause_text : Str → Str) (dumps : Json → Str) (system : Str)
    → SummarySettings
    → SummaryState
    → Result SummaryState
invoke_summary gemini cause_text dumps system settings s =
    let prepared = prepare_places settings s in
    after_prepare (summarize gemini cause_text dumps system settings) (or_empty prepared.views)
      prepared
