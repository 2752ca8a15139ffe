-- ===== src/Samples/Limits.antt =====
-- The rate limit and the budget of calls.
use map_service_agent.Prelude.{
  ℕ, zero, suc, ◌+◌, ◌-◌, ◌*◌, ◌≤◌, ◌≡◌, false, none, some, [], ◌∷◌, arith,
}
use map_service_agent.Value.{codes}
use map_service_agent.Failure.{structured_output_error, returned, raised}
use map_service_agent.Llm.RateLimit.{Limits, Store, Moment, Round, acquire, acquire_script}
use map_service_agent.Llm.RateLimit.Bounds.{IsWithin, acquire_script-IsWithin}
use map_service_agent.Llm.RateLimit.Permits.{permits, permits_bound}
use map_service_agent.Llm.RateLimit.Wait.{Ends, acquire-Ends}
use map_service_agent.Llm.StructuredCall.{Gemini, Ledger, call_structured, corrective}
use map_service_agent.Llm.StructuredCall.Budget.{Called, call_structured-exact}
use map_service_agent.Llm.StructuredCall.Feedback.{tags, tags-corrective}

abbrev limits : Limits
limits = record { capacity = 2; refill_per_min = 6; daily_cap = 20; max_wait_ms = 1_000 }

abbrev fresh : Store
fresh = record { daily = λ d. 0; ttl = λ d. none; bucket = none }

-- One token is used up.
abbrev drained : Store
drained = record fresh { bucket = some (record { tokens = 30_000; ts = 1_000 }) }

abbrev at_ms : ℕ → Moment
at_ms t = record { day = 5; micros = 0; now_ms = t }

acquire_script-IsWithin_example : IsWithin limits (acquire_script limits (at_ms 1_000) fresh).1
acquire_script-IsWithin_example =
    acquire_script-IsWithin limits (at_ms 1_000) fresh
      (record { counters = λ d. omega arith; tokens = tt })

permits_bound_example :
    permits limits (at_ms 1_000 ∷ at_ms 1_500 ∷ []) fresh * 60_000
    ≤ 2 * 60_000 + (1_500 - 1_000) * 6
permits_bound_example =
    permits_bound limits (at_ms 1_000 ∷ at_ms 1_500 ∷ []) 1_000 fresh
      (omega arith, (omega arith, tt))

-- Another client empties the bucket before each round.
abbrev busy : ℕ → Round
busy k = record { interfere = λ s. drained; moment = at_ms 1_000 }

acquire-Ends_example : Ends limits busy (acquire limits busy fresh)
acquire-Ends_example = acquire-Ends limits busy fresh

-- A model that answers as asked at its second call.
abbrev second_time : Gemini ℕ
second_time zero system prompt = record {
  result = raised (structured_output_error (codes "{") false);
  usage = [];
}
second_time (suc n) system prompt = record { result = returned 7; usage = [] }

abbrev unused : Ledger
unused = record { llm_calls_used = 0; llm_usage = [] }

tags-corrective_example :
    tags (corrective (codes "<b>") (codes "plan") (codes "<i>")) ≡ tags (codes "plan") + 4
tags-corrective_example = tags-corrective (codes "<b>") (codes "plan") (codes "<i>")

call_structured-exact_example :
    Called second_time
      (λ raw. raw)
      []
      []
      3
      unused
      (call_structured second_time (λ raw. raw) [] [] 3 unused)
call_structured-exact_example = call_structured-exact second_time (λ raw. raw) [] [] 3 unused
