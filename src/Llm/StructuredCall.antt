-- ===== src/Llm/StructuredCall.antt =====
-- app/llm/structured_call.py: the budget of model calls for one request, and the one corrective
-- retry after an answer that does not fit the schema.
pub mod Budget
pub mod Feedback
use map_service_agent.Prelude.{
  ℕ, zero, suc, ◌+◌, Bool, true, false, Option, none, some, List, [], ◌∷◌, ◌++◌, leb, if◌then◌else◌,
  String,
}
use map_service_agent.Value.{Str, codes}
use map_service_agent.Failure.{
  Exc, structured_output_error, budget_exceeded, Result, returned, raised,
}
use map_service_agent.Sanitize.{sanitize_text}

-- One entry of `llm_usage`, with the counts that the provider gave.
pub record Usage : Type 0 where
  pub prompt : Option ℕ
  pub output : Option ℕ
  pub total : Option ℕ

-- The keys of the state dict that the module reads and writes; one that is missing counts as 0
-- or empty.
pub record Ledger : Type 0 where
  pub llm_calls_used : ℕ
  pub llm_usage : List Usage

-- What `GeminiClient.generate_structured` gives for one call, and what it adds to the sink.
pub record Answer {ℓ} (A : Type ℓ) : Type ℓ where
  pub result : Result A
  pub usage : List Usage

-- The client: its answer to the nth call of a request, to the instruction and the prompt.
abbrev pub Gemini {ℓ} : Type ℓ → Type ℓ
Gemini A = (call : ℕ) → (system_instruction prompt : Str) → Answer A

abbrev pub feedback_truncate : ℕ
feedback_truncate = 500

-- `_escape_feedback`
unfoldable pub escape_feedback : Str → Str
escape_feedback text = sanitize_text text feedback_truncate

-- `_consume_budget`
unfoldable pub consume_budget : ℕ → Ledger → Result Ledger
consume_budget max_calls s =
    if leb max_calls s.llm_calls_used
    then raised budget_exceeded
    else returned (record s { llm_calls_used = s.llm_calls_used + 1 })

-- The fixed parts of the feedback.
unfoldable pub feedback_head : Str
feedback_head =
    codes "<error_feedback>\n직전 응답이 JSON 스키마 검증에 실패했습니다. 아래 오류를\n"
    ++ codes "교정하여, 스키마에 정확히 부합하는 JSON 만 다시 출력하십시오.\n오류: "

unfoldable pub feedback_middle : Str
feedback_middle = codes "\n무효 출력(일부): "

unfoldable pub feedback_tail : Str
feedback_tail = codes "\n</error_feedback>\n"

-- The prompt of the retry: the first one with the cause and part of the invalid output.
unfoldable pub corrective : (cause prompt raw_text : Str) → Str
corrective cause prompt raw_text =
    prompt
    ++ (feedback_head
        ++ (escape_feedback cause
            ++ (feedback_middle ++ (escape_feedback raw_text ++ feedback_tail))))

module _ {ℓ} {A : Type ℓ} where
  -- `_call`: the answer, the sink and the number of calls. The text of the cause is the library's.
  unfoldable pub after_first :
      (gemini : Gemini A) (cause_text : Str → Str) (system prompt : Str) (max_calls used : ℕ)
      → Answer A
      → Result A × List Usage × ℕ
  after_first gemini cause_text system prompt max_calls used a = elim a.result [
    | returned v ↦ (returned v, a.usage, used)
    | raised e ↦ elim e [
      | structured_output_error raw truncated ↦
          if truncated
          then (raised (structured_output_error raw truncated), a.usage, used)
          else if leb max_calls used
          then (raised (structured_output_error raw truncated), a.usage, used)
          else (let again = gemini used system (corrective (cause_text raw) prompt raw) in
              (again.result, a.usage ++ again.usage, used + 1))
      | other ↦ (raised other, a.usage, used)
    ]
  ]

  -- `call_structured`: the budget first, then the call, and the usage in every case.
  unfoldable pub call_structured :
      (gemini : Gemini A) (cause_text : Str → Str) (system prompt : Str) (max_calls : ℕ)
      → Ledger
      → Result A × Ledger
  call_structured gemini cause_text system prompt max_calls s = elim (consume_budget max_calls s) [
    | raised e ↦ (raised e, s)
    | returned s' ↦
        let (r, usage, used) =
          after_first gemini cause_text system prompt max_calls s'.llm_calls_used
            (gemini s.llm_calls_used system prompt) in
        (r, record { llm_calls_used = used; llm_usage = s.llm_usage ++ usage })
  ]
