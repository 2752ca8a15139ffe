-- ===== src/Nodes/Reason/Harmless.antt =====
-- app/nodes/agent_nodes.py, `llm_reason`: it only adds, and every reason that it adds is for a
-- place of the plan.
use native.Mathlib.Nat.{mul-div-le, le-div_iff_mul-le}
use map_service_agent.Prelude.{
  ℕ, ◌*◌, ◌/◌, ◌≤◌, ◌≡◌, refl, ap, true, false, ◌&&◌, ◌||◌, not, List, [], ◌∷◌, ◌++◌, contains,
  contains-append, All, All-append, Bool-cases, ◌⊎◌, inl, inr, arith, ltb,
}
use map_service_agent.Value.{Str, ℤ, pos, negsuc}
use map_service_agent.Failure.{Exc, cancelled_error, Result, returned, raised}
use map_service_agent.Schema.Model.{Place, PlaceReason, ReasonEnvelope}
use map_service_agent.Llm.StructuredCall.{Gemini}
use map_service_agent.Nodes.State.{AgentState, Settings, has_error, or_empty}
use map_service_agent.Nodes.Input.{is_empty}
use map_service_agent.Nodes.Reason.{
  after_failure, after_first_answer, after_first_ask, after_second, ask, collect, collect_one, fill,
  ids_of, keys, llm_reason, reason_max_len, remaining_of, set_default, with_reasons,
}

-- Reasons for places of the list, at most one for each.
abbrev Distinct : List ℕ → Type 0
Distinct [] = Unit
Distinct (x ∷ xs) = (contains xs x ≡ false) × Distinct xs

pub record AreReasons (valid : List ℕ) (reasons : List (ℕ × Str)) : Type 0 where
  known : All (λ k. contains valid k ≡ true) (keys reasons)
  once : Distinct (keys reasons)

AreReasons-nil : (valid : List ℕ) → AreReasons valid []
AreReasons-nil valid = record { known = tt; once = tt }

keys-snoc : (rs : List (ℕ × Str)) (k : ℕ) (t : Str) → keys (rs ++ (k, t) ∷ []) ≡ keys rs ++ k ∷ []
keys-snoc [] k t = refl
keys-snoc (r ∷ rs) k t = ap (λ ks. r.0 ∷ ks) (keys-snoc rs k t)

Distinct-snoc :
    (xs : List ℕ) (k : ℕ) → contains xs k ≡ false → Distinct xs → Distinct (xs ++ k ∷ [])
Distinct-snoc [] k h d = (refl, tt)
Distinct-snoc (x ∷ xs) k h d =
    let ca = contains-append xs (k ∷ []) x in
    let d0 = d.0 in (ground arith, Distinct-snoc xs k (ground arith) d.1)

set_default-AreReasons :
    (valid : List ℕ) (k : ℕ) (t : Str) (rs : List (ℕ × Str))
    → contains valid k ≡ true
    → AreReasons valid rs
    → AreReasons valid (set_default k t rs)
unfolding set_default
set_default-AreReasons valid k t rs v a = elim (Bool-cases (contains (keys rs) k)) [
  | inl e ↦ rw e a
  | inr e ↦ rw e (record {
    known =
        rw (keys-snoc rs k t)
          (All-append (λ j. contains valid j ≡ true) (keys rs) (k ∷ []) a.known (v, tt));
    once = rw (keys-snoc rs k t) (Distinct-snoc (keys rs) k e a.once);
  })
]

collect_one-AreReasons :
    (valid : List ℕ) (pid : ℤ) (text : Str) (rs : List (ℕ × Str))
    → AreReasons valid rs
    → AreReasons valid (collect_one valid pid text rs)
unfolding collect_one
collect_one-AreReasons valid (pos k) t rs a = elim (Bool-cases (contains valid k)) [
  | inl e ↦ rw e (set_default-AreReasons valid k t rs e a)
  | inr e ↦ rw e a
]
collect_one-AreReasons valid (negsuc k) t rs a = a

collect-AreReasons :
    (valid : List ℕ) (answers : List PlaceReason) (rs : List (ℕ × Str))
    → AreReasons valid rs
    → AreReasons valid (collect valid answers rs)
unfolding collect
collect-AreReasons valid [] rs a = a
collect-AreReasons valid (r ∷ answers) rs a =
    collect-AreReasons valid answers (collect_one valid r.place_id r.reason rs)
      (collect_one-AreReasons valid r.place_id r.reason rs a)

fill-AreReasons :
    (valid : List ℕ) (more rs : List (ℕ × Str))
    → All (λ k. contains valid k ≡ true) (keys more)
    → AreReasons valid rs
    → AreReasons valid (fill more rs)
unfolding fill
fill-AreReasons valid [] rs m a = a
fill-AreReasons valid ((k, t) ∷ more) rs m a =
    fill-AreReasons valid more (set_default k t rs) m.1 (set_default-AreReasons valid k t rs m.0 a)

-- What the node leaves of the state, and what it may add: the reasons are those of the state, or
-- new ones for its places.
pub record IsReasoned (s t : AgentState) : Type 0 where
  error : t.error ≡ s.error
  places : t.places ≡ s.places
  order : t.visit_order ≡ s.visit_order
  legs : t.legs ≡ s.legs
  timeline : t.timeline ≡ s.timeline
  reasons : (t.reasons ≡ s.reasons) ⊎ AreReasons (ids_of (or_empty s.places)) (or_empty t.reasons)

module _ (s : AgentState) where
  with_reasons-IsReasoned :
      (u : AgentState) (rs : List (ℕ × Str)) (clothing : Str)
      → IsReasoned s u
      → AreReasons (ids_of (or_empty s.places)) rs
      → IsReasoned s (with_reasons u (or_empty s.places) rs clothing)
  unfolding with_reasons
  with_reasons-IsReasoned u rs clothing k a =
      elim (Bool-cases (is_empty (remaining_of (or_empty s.places) rs))) [
        | inl e ↦ elim (Bool-cases (is_empty rs)) [
          | inl f ↦ rw (e, f) k
          | inr f ↦
              rw (e, f)
                (record {
                  error = k.error;
                  places = k.places;
                  order = k.order;
                  legs = k.legs;
                  timeline = k.timeline;
                  reasons = inr a;
                })
        ]
        | inr e ↦ elim (Bool-cases (is_empty rs)) [
          | inl f ↦
              rw (e, f)
                (record {
                  error = k.error;
                  places = k.places;
                  order = k.order;
                  legs = k.legs;
                  timeline = k.timeline;
                  reasons = k.reasons;
                })
          | inr f ↦
              rw (e, f)
                (record {
                  error = k.error;
                  places = k.places;
                  order = k.order;
                  legs = k.legs;
                  timeline = k.timeline;
                  reasons = inr a;
                })
        ]
      ]

  -- How the node ends: with a state as above, or cancelled.
  pub data Outcome : Result AgentState → Type 0 where
    cancelled : Outcome (raised cancelled_error)
    reasoned : (t : AgentState) → IsReasoned s t → Outcome (returned t)

  after_failure-Outcome : (u : AgentState) (e : Exc) → IsReasoned s u → Outcome (after_failure u e)
  unfolding after_failure
  after_failure-Outcome u cancelled_error k = cancelled
  after_failure-Outcome u e k = reasoned _ (record {
    error = k.error;
    places = k.places;
    order = k.order;
    legs = k.legs;
    timeline = k.timeline;
    reasons = k.reasons;
  })

  after_second-Outcome :
      (u : AgentState) (rs : List (ℕ × Str)) (clothing : Str) (r : Result ReasonEnvelope)
      → IsReasoned s u
      → AreReasons (ids_of (or_empty s.places)) rs
      → Outcome (after_second u (or_empty s.places) rs clothing r)
  unfolding after_second
  after_second-Outcome u rs clothing (returned env) k a =
      let ids = ids_of (or_empty s.places) in
      let more = collect-AreReasons ids env.reasons [] (AreReasons-nil ids) in
      reasoned _ (
        with_reasons-IsReasoned u (fill (collect ids env.reasons []) rs) _ k
          (fill-AreReasons ids (collect ids env.reasons []) rs more.known a))
  after_second-Outcome u rs clothing (raised cancelled_error) k a = cancelled
  after_second-Outcome u rs clothing (raised e) k a =
      reasoned _ (with_reasons-IsReasoned u rs clothing k a)

module _ (gemini : Gemini ReasonEnvelope) (cause_text : Str → Str)
    (prompt_of : AgentState → List Place → Str × Str) (settings : Settings) where
  ask-IsReasoned :
      (s u : AgentState) (targets : List Place) (suffix : Str)
      → IsReasoned s u
      → IsReasoned s (ask gemini cause_text prompt_of settings u targets suffix).1
  unfolding ask
  ask-IsReasoned s u targets suffix k = record {
    error = k.error;
    places = k.places;
    order = k.order;
    legs = k.legs;
    timeline = k.timeline;
    reasons = k.reasons;
  }

  first_answer-Outcome :
      (s u : AgentState) (env : ReasonEnvelope)
      → IsReasoned s u
      → Outcome s
          (after_first_answer gemini cause_text prompt_of settings (or_empty s.places) u env)
  unfolding after_first_answer
  first_answer-Outcome s u env k =
      let ids = ids_of (or_empty s.places) in
      let rs = collect ids env.reasons [] in
      let a = collect-AreReasons ids env.reasons [] (AreReasons-nil ids) in
      let remaining = remaining_of (or_empty s.places) rs in
      elim (Bool-cases (
        not (is_empty remaining)
        && ltb u.ledger.llm_calls_used settings.gemini_max_calls_per_request)) [
          | inl e ↦
              rw e (after_second-Outcome s _ rs env.clothing _ (ask-IsReasoned s u remaining _ k) a)
          | inr e ↦ rw e (reasoned _ (with_reasons-IsReasoned s u rs env.clothing k a))
        ]

  first_ask-Outcome :
      (s : AgentState) (asked : Result ReasonEnvelope × AgentState)
      → IsReasoned s asked.1
      → Outcome s (after_first_ask gemini cause_text prompt_of settings (or_empty s.places) asked)
  unfolding after_first_ask
  first_ask-Outcome s (returned env, u) k = first_answer-Outcome s u env k
  first_ask-Outcome s (raised e, u) k = after_failure-Outcome s u e k

  -- Whatever the model answers, and whichever exception the calls raise, the job goes on unless
  -- it is cancelled: no error is set, the places, the route and the timetable stay, and the node
  -- adds no reason but for places of the plan, at most one for each.
  pub llm_reason-Outcome :
      (s : AgentState) → Outcome s (llm_reason gemini cause_text prompt_of settings s)
  unfolding llm_reason
  llm_reason-Outcome s =
      let same : IsReasoned s s = record {
        error = refl;
        places = refl;
        order = refl;
        legs = refl;
        timeline = refl;
        reasons = inl refl;
      } in
      elim (Bool-cases (has_error s || is_empty (or_empty s.places))) [
        | inl e ↦ rw e (reasoned s same)
        | inr e ↦ rw e (first_ask-Outcome s _ (ask-IsReasoned s s (or_empty s.places) [] same))
      ]

product-le : (n x q : ℕ) → x ≤ q → n * q ≤ 1600 → n * x ≤ 1600
product-le n x q h k = grind arith

-- The texts that the model is asked for, of at most 20 places, take no more than the budget of
-- 1600 characters together, with 80 to 200 characters for each.
reason_max_len-bounds :
    (n : ℕ)
    → 1 ≤ n
    → n ≤ 20
    → (80 ≤ reason_max_len n) × (reason_max_len n ≤ 200) × (n * reason_max_len n ≤ 1600)
unfolding reason_max_len
reason_max_len-bounds n some_place few =
    let enough : 80 ≤ 1600 / n = (le-div_iff_mul-le (omega arith)).1 (omega arith) in
    (
      ground arith,
      ground arith,
      product-le n (reason_max_len n) (1600 / n) (ground arith) (mul-div-le 1600 n),
    )
