-- ===== src/Nodes/Reviews/Budget.antt =====
-- app/nodes/agent_nodes.py, `_fetch_reviews_for`: how often the hub is asked, and what is kept.
use map_service_agent.Prelude.{
  ℕ, suc, ◌+◌, ◌≤◌, ◌≡◌, refl, Bool, Option, none, some, List, [], ◌∷◌, min, max, length, All,
  All-imp, ◌⊎◌, arith,
}
use map_service_agent.Value.{Str, Json}
use map_service_agent.Failure.{Exc, type_error, cancelled_error, Result, returned, raised}
use map_service_agent.Nodes.State.{AgentState, Settings}
use map_service_agent.Nodes.Search.Merged.{Listed}
use map_service_agent.Nodes.Reviews.{Client, Collected, reviews_budget_left, fetch_reviews_for}
use map_service_agent.Nodes.Reviews.Rounds.{IsEntry, Goes, collect_reviews-Goes}

-- What the collecting of reviews gives a job with these candidates.
pub record IsWithin (settings : Settings) (s : AgentState) (candidates : List Json) (c : Collected)
    : Type 0 where
  pub entries : All (IsEntry candidates settings.reviews_display) c.reviews
  pub few : length c.reviews ≤ length c.calls
  pub counted : c.used ≡ s.reviews_fetch_used + length c.calls
  pub per_node : length c.calls ≤ settings.reviews_max_places
  pub per_job : c.used ≤ max s.reviews_fetch_used settings.reviews_fetch_cap_per_job

-- It is left by a type error, or where a call of the hub is cancelled.
abbrev pub IsLeft : Option Client → ℕ → Exc → Type 0
IsLeft none display e = e ≡ type_error
IsLeft (some fetch) display e =
    (e ≡ type_error)
    ⊎ ((e ≡ cancelled_error) × (q : Str) × (fetch q display ≡ raised cancelled_error))

abbrev pub CollectsWithin :
    Option Client → Settings → AgentState → List Json → Result Collected → Type 0
CollectsWithin client settings s candidates (returned c) = IsWithin settings s candidates c
CollectsWithin client settings s candidates (raised e) = IsLeft client settings.reviews_display e

Goes-CollectsWithin :
    (same : Json → Json → Bool) (fetch : Client) (settings : Settings) (s : AgentState)
    (candidates : List Json) (r : Result Collected)
    → Goes candidates settings.reviews_display same fetch s.reviews_fetch_used s.reviews_fetch_used
        (min settings.reviews_max_places (reviews_budget_left settings s))
        r
    → CollectsWithin (some fetch) settings s candidates r
unfolding Goes reviews_budget_left
Goes-CollectsWithin same fetch settings s candidates (raised e) h = h
Goes-CollectsWithin same fetch settings s candidates (returned c) h =
    let (kept, above, below) = h in
    record {
      entries = kept.entries;
      few = omega (arith, kept.few, kept.counted);
      counted = kept.counted;
      per_node = omega (arith, kept.counted);
      per_job = omega arith;
    }

all_Listed {ℓ} : {A : Type ℓ} (xs : List A) → All (Listed xs) xs
all_Listed [] = tt
all_Listed (x ∷ xs) = ((0, refl), All-imp (λ y l. (suc l.0, l.1)) xs (all_Listed xs))

-- Whatever the hub answers, collecting reviews that comes to its end made no more calls of the hub than
-- the limit, every call is counted for the job, also those that failed, and the job counts no more
-- calls than the cap, where a job that went past the cap before asks no more. What is kept are reviews
-- of candidates: for each at least one text, none of them empty, and no more than asked for; there are
-- no more of them than calls. Only a type error leaves it, or the cancellation of a call.
pub fetch_reviews_for-CollectsWithin :
    (same : Json → Json → Bool) (text : Json → Str) (client : Option Client) (settings : Settings)
    (s : AgentState) (candidates : List Json)
    → CollectsWithin client settings s candidates
        (fetch_reviews_for same text client settings s candidates)
unfolding fetch_reviews_for
fetch_reviews_for-CollectsWithin same text none settings s candidates = record {
  entries = tt;
  few = omega arith;
  counted = omega arith;
  per_node = omega arith;
  per_job = omega arith;
}
fetch_reviews_for-CollectsWithin same text (some fetch) settings s candidates =
    Goes-CollectsWithin same fetch settings s candidates _ (
      collect_reviews-Goes candidates settings.reviews_display same fetch text s.request
        s.reviews_fetch_used (min settings.reviews_max_places (reviews_budget_left settings s))
        candidates (record { reviews = []; used = s.reviews_fetch_used; calls = [] })
        (all_Listed candidates) (record { entries = tt; few = omega arith; counted = omega arith }))
