-- ===== src/Service/Admission.antt =====
-- app/main.py: `_verify_internal_token`, `_resolve_places` and `recommend`. How a seal is opened
-- (`Seal.Location.open_seal`) and how a request is validated again are parameters, as are the settings
-- and the id of a new job.
pub mod Decided
use map_service_agent.Prelude.{
  ℕ, Bool, true, false, ◌≡◌, ◌⊎◌, refl, ap, Option, none, some, List, [], ◌∷◌, Bool-cases,
  Option-cases, inl, inr, arith, not, if◌then◌else◌,
}
use map_service_agent.Value.{
  Str, str_eq, str_eq→eq, str_eq_self, Json, arr, obj, Items, Fields, get,
}
use map_service_agent.Failure.{Result, returned, raised}
use map_service_agent.Seal.Location.{Opened, opened, seal_error, escaped}
use map_service_agent.Schema.Model.{AgentRequest, SelectedPlace}

-- What a handler gives: its value, or the status of the exception that it raises.
pub data Answer {ℓ} (A : Type ℓ) : Type ℓ where
  going_on : A → Answer A
  http_exception : (status : ℕ) → Answer A

-- `hmac.compare_digest(…)` after `provided is None`
unfoldable pub is_token : Str → Option Str → Bool
is_token expected none = false
is_token expected (some provided) = str_eq provided expected

-- `_verify_internal_token`: the status of the exception, if there is one
unfoldable pub verify_internal_token : (expected provided : Option Str) → Option ℕ
verify_internal_token none provided = none
verify_internal_token (some []) provided = none
verify_internal_token (some (c ∷ cs)) provided =
    if is_token (c ∷ cs) provided then none else some 401

-- `not req.loc`
unfoldable pub is_blank : Option Str → Bool
is_blank none = true
is_blank (some []) = true
is_blank (some (c ∷ cs)) = false

-- `not req.places`
unfoldable pub has_no_places : Option (List SelectedPlace) → Bool
has_no_places none = true
has_no_places (some []) = true
has_no_places (some (p ∷ ps)) = false

unfoldable pub or_400 {ℓ} : {A : Type ℓ} → Option A → Answer A
or_400 none = http_exception 400
or_400 (some a) = going_on a

-- `places` has to be a list, and the request has to be valid with it.
unfoldable pub with_places : (Items → Option AgentRequest) → Json → Answer AgentRequest
with_places validate (arr vs) = or_400 (validate vs)
with_places validate _ = http_exception 400

-- What follows `location_seal.open_seal`: only `SealError` is caught.
unfoldable pub after_open : (Items → Option AgentRequest) → Opened → Result (Answer AgentRequest)
after_open validate seal_error = returned (http_exception 400)
after_open validate (escaped e) = raised e
after_open validate (opened fields) = returned (with_places validate (get "places" (obj fields)))

unfoldable pub from_location :
    (Str → Opened) → (Items → Option AgentRequest) → Option Str → Result (Answer AgentRequest)
from_location open_seal validate none = returned (http_exception 400)
from_location open_seal validate (some loc) = after_open validate (open_seal loc)

module _ (enabled : Bool) (open_seal : Str → Opened)
    (validate : AgentRequest → Items → Option AgentRequest) where
  -- `_resolve_places`
  unfoldable pub resolve_places : AgentRequest → Result (Answer AgentRequest)
  resolve_places req =
      if not enabled
      then returned (going_on req)
      else if is_blank req.loc
      then (if has_no_places req.places
          then returned (going_on req)
          else returned (http_exception 400))
      else from_location open_seal (validate req) req.loc

-- The jobs that are going on: ids and requests.
abbrev pub Tasks : Type 0
Tasks = List (Str × AgentRequest)

-- `hasattr(app.state, "graph")`, and the new task
unfoldable pub start_job :
    (ready : Bool) → Str → Tasks → Result (Answer AgentRequest) → Result (Answer Tasks)
start_job ready job_id tasks (raised e) = raised e
start_job ready job_id tasks (returned (http_exception status)) = returned (http_exception status)
start_job ready job_id tasks (returned (going_on req)) =
    returned (if ready then going_on ((job_id, req) ∷ tasks) else http_exception 503)

unfoldable pub unless_refused {ℓ} : {A : Type ℓ} → Option ℕ → Result (Answer A) → Result (Answer A)
unless_refused (some status) answer = returned (http_exception status)
unless_refused none answer = answer

-- `recommend`: `resolve` is `_resolve_places`
unfoldable pub recommend :
    (resolve : AgentRequest → Result (Answer AgentRequest)) (expected : Option Str) (ready : Bool)
    (job_id : Str) (provided : Option Str)
    → AgentRequest
    → Tasks
    → Result (Answer Tasks)
recommend resolve expected ready job_id provided req tasks =
    unless_refused (verify_internal_token expected provided)
      (start_job ready job_id tasks (resolve req))
