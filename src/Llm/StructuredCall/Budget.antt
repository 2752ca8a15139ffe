-- ===== src/Llm/StructuredCall/Budget.antt =====
-- app/llm/structured_call.py: the budget is never passed, and what each call costs.
use map_service_agent.Prelude.{
  ℕ, ◌+◌, ◌≤◌, ◌<◌, true, false, ◌≡◌, ◌≢◌, ◌⊎◌, inl, inr, refl, List, ◌++◌, leb, arith, Bool-cases,
}
use map_service_agent.Value.{Str}
use map_service_agent.Failure.{structured_output_error, budget_exceeded, Result, returned, raised}
use map_service_agent.Llm.StructuredCall.{
  Usage, Ledger, Answer, Gemini, consume_budget, corrective, after_first, call_structured,
}

module _ {ℓ} {A : Type ℓ} (gemini : Gemini A) (cause_text : Str → Str) (system prompt : Str)
    (max_calls : ℕ) where
  abbrev run : Ledger → Result A × Ledger
  run = call_structured gemini cause_text system prompt max_calls

  -- A call never takes the count past the budget, never lowers it, and adds two at most.
  call_structured-budget :
      (s : Ledger)
      → s.llm_calls_used ≤ max_calls
      → ((run s).1.llm_calls_used ≤ max_calls)
        × (s.llm_calls_used ≤ (run s).1.llm_calls_used)
        × ((run s).1.llm_calls_used ≤ s.llm_calls_used + 2)
  unfolding call_structured consume_budget after_first
  call_structured-budget s h = ground arith

  -- An answer that was cut off is not invalid output of the kind that is asked for again.
  no_retry :
      (used : ℕ) (r : Result A) (u : List Usage)
      → ((raw : Str) → r ≢ raised (structured_output_error raw false))
      → after_first gemini cause_text system prompt max_calls used
          (record { result = r; usage = u })
        ≡ (r, u, used)
  unfolding after_first
  no_retry used (returned v) u h = refl
  no_retry used (raised (structured_output_error raw true)) u h = refl
  no_retry used (raised (structured_output_error raw false)) u h = absurd (h raw refl)
  no_retry used (raised e) u h = refl

  abbrev first : Ledger → Answer A
  first s = gemini s.llm_calls_used system prompt

  abbrev second : Ledger → Str → Answer A
  second s raw = gemini (s.llm_calls_used + 1) system (corrective (cause_text raw) prompt raw)

  call_structured-cases :
      (s : Ledger)
      → (max_calls ≤ s.llm_calls_used → run s ≡ (raised budget_exceeded, s))
        × ((raw : Str)
            → s.llm_calls_used + 1 < max_calls
            → (first s).result ≡ raised (structured_output_error raw false)
            → run s ≡ (
              (second s raw).result,
              record {
                llm_calls_used = s.llm_calls_used + 2;
                llm_usage = s.llm_usage ++ ((first s).usage ++ (second s raw).usage);
              },
            ))
        × (s.llm_calls_used < max_calls
            → (s.llm_calls_used + 1 ≡ max_calls)
              ⊎ ((raw : Str) → (first s).result ≢ raised (structured_output_error raw false))
            → run s ≡ (
              (first s).result,
              record {
                llm_calls_used = s.llm_calls_used + 1;
                llm_usage = s.llm_usage ++ (first s).usage;
              },
            ))
  unfolding call_structured consume_budget
  call_structured-cases s = (
    λ h. ground arith,
    (λ raw h e. unfold after_first in ground arith),
    (λ h c. elim c [
      | inl last ↦ unfold after_first in ground arith
      | inr valid ↦
          ground (arith, no_retry (s.llm_calls_used + 1) (first s).result (first s).usage valid)
    ]),
  )

  -- The three ways of a call, with what each leaves.
  pub data Called (s : Ledger) : Result A × Ledger → Type ℓ where
    spent : max_calls ≤ s.llm_calls_used → Called s (raised budget_exceeded, s)
    retried :
        (raw : Str)
        → s.llm_calls_used + 1 < max_calls
        → (first s).result ≡ raised (structured_output_error raw false)
        → Called s (
          (second s raw).result,
          record {
            llm_calls_used = s.llm_calls_used + 2;
            llm_usage = s.llm_usage ++ ((first s).usage ++ (second s raw).usage);
          },
        )
    once :
        s.llm_calls_used < max_calls
        → (s.llm_calls_used + 1 ≡ max_calls)
          ⊎ ((raw : Str) → (first s).result ≢ raised (structured_output_error raw false))
        → Called s (
          (first s).result,
          record {
            llm_calls_used = s.llm_calls_used + 1;
            llm_usage = s.llm_usage ++ (first s).usage;
          },
        )

  invalid-cases :
      (r : Result A)
      → ((raw : Str) × (r ≡ raised (structured_output_error raw false)))
        ⊎ ((raw : Str) → r ≢ raised (structured_output_error raw false))
  invalid-cases (raised (structured_output_error raw false)) = inl (raw, refl)
  invalid-cases (raised (structured_output_error raw true)) = inr (λ other e. absurd (cc))
  invalid-cases (returned v) = inr (λ other e. absurd (cc))
  invalid-cases (raised e) = inr (λ other e. absurd (cc))

  -- The whole behaviour. With the budget spent, the budget error and no call. With two calls left
  -- and an invalid answer that was not cut off, exactly one more call, with the corrective prompt:
  -- its result is the result, and both calls count. In every other case the first answer is the
  -- result, valid or not, and one call counts. All usage is recorded, that of failed calls too.
  pub call_structured-exact : (s : Ledger) → Called s (run s)
  call_structured-exact s =
      let (full, again, last) = call_structured-cases s in
      elim (Bool-cases (leb max_calls s.llm_calls_used)) [
        | inl e ↦ rw (full (ground arith)) (spent (ground arith))
        | inr room ↦ elim (invalid-cases (first s).result) [
          | inr valid ↦ rw (last (ground arith) (inr valid)) (once (ground arith) (inr valid))
          | inl (raw, e) ↦ elim (Bool-cases (leb max_calls (s.llm_calls_used + 1))) [
            | inl f ↦
                rw (last (ground arith) (inl (ground arith)))
                  (once (ground arith) (inl (ground arith)))
            | inr two ↦ rw (again raw (ground arith) e) (retried raw (ground arith) e)
          ]
        ]
      ]
