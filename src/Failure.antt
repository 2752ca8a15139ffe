-- ===== src/Failure.antt =====
-- app/errors.py: the fixed failure codes, and the code that each exception gets.
use map_service_agent.Prelude.{
  ℕ, Bool, true, false, ◌≡◌, ◌≢◌, ◌⊎◌, ◌≤◌, ◌<◌, refl, ap, inl, inr, Bool-cases, Option, none, some,
  arith, leb, ◌==◌, if◌then◌else◌, ◌&&◌,
}
use map_service_agent.Value.{Str, codes, str_eq, str_eq→eq, Json, str, bool, get, is_obj}

-- The exceptions that the modelled code raises or handles. A structured output error carries the
-- invalid text and whether the output was cut off; a status error carries the status and the
-- decoded body, if it decodes.
pub data Exc : Type 0 where
  quota_error : Exc
  structured_output_error : (raw_text : Str) (truncated : Bool) → Exc
  budget_exceeded : Exc
  cancelled_error : Exc
  timeout_error : Exc
  timeout_exception : Exc
  http_status_error : (status : ℕ) (body : Option Json) → Exc
  request_error : Exc
  value_error : Exc
  type_error : Exc
  key_error : Exc
  attribute_error : Exc
  runtime_error : Exc
  other_error : Exc

pub data Code : Type 0 where
  generation_failed quota_exceeded selection_invalid upstream_unavailable : Code
  invalid_request no_matching_places generation_timeout : Code

-- The dict that `failure` returns; its `error` is the code once more.
pub record Failure : Type 0 where
  pub error : Code
  pub code : Code
  pub retryable : Bool

abbrev pub failure : Code → Bool → Failure
failure c r = record { error = c; code = c; retryable = r }

-- `exc.response.json().get("detail")`, `None` where the body has no JSON or is no object
detail_of : Option Json → Json
detail_of none = Json.null
detail_of (some body) = get "detail" body

is_true : Json → Bool
is_true (bool true) = true
is_true _ = false

names_outage : Json → Bool
names_outage (str s) = str_eq s (codes "upstream_unavailable")
names_outage _ = false

status_failure : ℕ → Json → Failure
unfolding is_true names_outage
status_failure status detail =
    if is_obj detail && names_outage (get "code" detail)
    then failure upstream_unavailable (is_true (get "retryable" detail))
    else if status == 429
    then failure quota_exceeded false
    else failure upstream_unavailable (leb 500 status)

unfoldable pub exception_failure : Exc → Failure
unfolding status_failure detail_of
exception_failure quota_error = failure quota_exceeded false
exception_failure (structured_output_error raw truncated) = failure selection_invalid false
exception_failure budget_exceeded = failure selection_invalid false
exception_failure cancelled_error = failure upstream_unavailable true
exception_failure timeout_error = failure upstream_unavailable true
exception_failure timeout_exception = failure upstream_unavailable true
exception_failure (http_status_error status body) = status_failure status (detail_of body)
exception_failure request_error = failure upstream_unavailable true
exception_failure _ = failure generation_failed false

-- Whatever the exception, the error text is the code itself, and the failure is final or an outage
-- upstream: quota, invalid output and unclassified errors are never to be retried.
pub exception_failure-retryable :
    (e : Exc)
    → ((exception_failure e).error ≡ (exception_failure e).code)
      × (((exception_failure e).retryable ≡ false)
          ⊎ ((exception_failure e).code ≡ upstream_unavailable))
unfolding exception_failure
exception_failure-retryable (http_status_error status body) = ground arith
exception_failure-retryable _ = ground arith

-- The body of an answer with an error names an outage upstream.
abbrev pub IsOutage : Option Json → Type 0
IsOutage body =
    (b : Json) × (body ≡ some b)
    × (is_obj (get "detail" b) ≡ true)
    × (get "code" (get "detail" b) ≡ str (codes "upstream_unavailable"))

-- What is fixed for the status of an answer: an outage that the body names says itself whether it may
-- be retried, 429 is a spent quota, and else an outage is retried from 500 on.
pub data IsStatusFailure (status : ℕ) (body : Option Json) : Code → Bool → Type 0 where
  named_lasting :
      (b : Json)
      → IsOutage body
      → body ≡ some b
      → get "retryable" (get "detail" b) ≢ bool true
      → IsStatusFailure status body upstream_unavailable false
  named_passing :
      (b : Json)
      → IsOutage body
      → body ≡ some b
      → get "retryable" (get "detail" b) ≡ bool true
      → IsStatusFailure status body upstream_unavailable true
  spent : ¬ IsOutage body → status ≡ 429 → IsStatusFailure status body quota_exceeded false
  refused :
      ¬ IsOutage body
      → status ≢ 429
      → status < 500
      → IsStatusFailure status body upstream_unavailable false
  down : ¬ IsOutage body → 500 ≤ status → IsStatusFailure status body upstream_unavailable true

-- What is fixed for each exception.
pub data IsClassified : Exc → Code → Bool → Type 0 where
  quota : IsClassified quota_error quota_exceeded false
  bad_output :
      (raw : Str) (truncated : Bool)
      → IsClassified (structured_output_error raw truncated) selection_invalid false
  no_budget : IsClassified budget_exceeded selection_invalid false
  outage :
      (e : Exc)
      → (e ≡ cancelled_error)
        ⊎ ((e ≡ timeout_error) ⊎ ((e ≡ timeout_exception) ⊎ (e ≡ request_error)))
      → IsClassified e upstream_unavailable true
  by_status :
      (status : ℕ) (body : Option Json) (code : Code) (retryable : Bool)
      → IsStatusFailure status body code retryable
      → IsClassified (http_status_error status body) code retryable
  unclassified :
      (e : Exc)
      → (e ≡ value_error)
        ⊎ ((e ≡ type_error)
            ⊎ ((e ≡ key_error)
                ⊎ ((e ≡ attribute_error) ⊎ ((e ≡ runtime_error) ⊎ (e ≡ other_error)))))
      → IsClassified e generation_failed false

is_true-eq :
    (v : Json) → ((is_true v ≡ true) × (v ≡ bool true)) ⊎ ((is_true v ≡ false) × (v ≢ bool true))
unfolding is_true
is_true-eq (bool true) = inl (refl, refl)
is_true-eq _ = inr (refl, λ k. cc k)

names_outage-eq : (v : Json) → names_outage v ≡ true → v ≡ str (codes "upstream_unavailable")
unfolding names_outage
names_outage-eq (str s) h = ap str (str_eq→eq s (codes "upstream_unavailable") h)
names_outage-eq _ h = cc h

unnamed :
    (status : ℕ) (body : Option Json)
    → ¬ IsOutage body
    → let f =
        (if status == 429
          then failure quota_exceeded false
          else failure upstream_unavailable (leb 500 status)) in
      IsStatusFailure status body f.code f.retryable
unnamed status body h = elim (Bool-cases (status == 429)) [
  | inl e ↦ rw e (spent h (ground arith))
  | inr e ↦ elim (Bool-cases (leb 500 status)) [
    | inl f ↦ rw (e, f) (down h (ground arith))
    | inr f ↦ rw (e, f) (refused h (ground arith) (ground arith))
  ]
]

named :
    (b : Json)
    → IsOutage (some b)
    → (is_obj (get "detail" b) && names_outage (get "code" (get "detail" b))) ≡ true
unfolding names_outage
named b (x, e, o, n) =
    let same : x ≡ b = cc in
    let dict : is_obj (get "detail" b) ≡ true = rw same at o in
    let code : get "code" (get "detail" b) ≡ str (codes "upstream_unavailable") = rw same at n in
    rw (dict, code) refl

status-IsStatusFailure :
    (status : ℕ) (body : Option Json)
    → IsStatusFailure status body
        (status_failure status (detail_of body)).code
        (status_failure status (detail_of body)).retryable
unfolding status_failure detail_of
status-IsStatusFailure status none = unnamed status none (λ (b, e, o, n). cc e)
status-IsStatusFailure status (some b) =
    let d = get "detail" b in
    elim (Bool-cases (is_obj d && names_outage (get "code" d))) [
      | inr c ↦ simp c (unnamed status (some b) (λ o. let k = named b o in cc (c, k)))
      | inl c ↦
          let o : IsOutage (some b) =
            (b, refl, ground arith, names_outage-eq (get "code" d) (ground arith)) in
          elim (is_true-eq (get "retryable" d)) [
            | inl (t, e) ↦ simp (c, t) (named_passing b o refl e)
            | inr (t, e) ↦ simp (c, t) (named_lasting b o refl e)
          ]
    ]

pub exception_failure-IsClassified :
    (e : Exc) → IsClassified e (exception_failure e).code (exception_failure e).retryable
unfolding exception_failure
exception_failure-IsClassified quota_error = quota
exception_failure-IsClassified (structured_output_error raw truncated) = bad_output raw truncated
exception_failure-IsClassified budget_exceeded = no_budget
exception_failure-IsClassified cancelled_error = outage _ (inl refl)
exception_failure-IsClassified timeout_error = outage _ (inr (inl refl))
exception_failure-IsClassified timeout_exception = outage _ (inr (inr (inl refl)))
exception_failure-IsClassified request_error = outage _ (inr (inr (inr refl)))
exception_failure-IsClassified (http_status_error status body) =
    by_status status body _ _ (status-IsStatusFailure status body)
exception_failure-IsClassified value_error = unclassified _ (inl refl)
exception_failure-IsClassified type_error = unclassified _ (inr (inl refl))
exception_failure-IsClassified key_error = unclassified _ (inr (inr (inl refl)))
exception_failure-IsClassified attribute_error = unclassified _ (inr (inr (inr (inl refl))))
exception_failure-IsClassified runtime_error = unclassified _ (inr (inr (inr (inr (inl refl)))))
exception_failure-IsClassified other_error = unclassified _ (inr (inr (inr (inr (inr refl)))))

-- What a call gives: its value, or the exception that it raises.
pub data Result {ℓ} (A : Type ℓ) : Type ℓ where
  returned : A → Result A
  raised : Exc → Result A

infixl 5 ◌>>=◌
abbrev pub ◌>>=◌ {ℓ κ} : {A : Type ℓ} {B : Type κ} → Result A → (A → Result B) → Result B
returned a >>= f = f a
raised e >>= f = raised e
