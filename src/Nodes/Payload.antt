-- ===== src/Nodes/Payload.antt =====
-- app/nodes/agent_nodes.py, the end of a job: `build_payload` and `publish_done`. The publisher is
-- a parameter.
pub mod Sent
use map_service_agent.Prelude.{
  ℕ, zero, suc, Bool, true, false, ◌&&◌, ◌||◌, not, Option, none, some, List, [], ◌∷◌, map,
  if◌then◌else◌, ◌==◌,
}
use map_service_agent.Value.{Str}
use map_service_agent.Failure.{
  Exc, Code, generation_failed, Result, returned, raised, ◌>>=◌, key_error,
}
use map_service_agent.Schema.Model.{Place, Leg, JobStatus, done, failed, JobDonePayload}
use map_service_agent.Nodes.State.{AgentState, Slot, has_error, or_empty}
use map_service_agent.Nodes.Timeline.Visits.{find_slot}
use map_service_agent.Nodes.Timeline.Build.{is_empty_list}

-- `d[key]` for a key of a dict, if it is there
unfoldable pub entry {ℓ} : {A : Type ℓ} → ℕ → List (ℕ × A) → Option A
entry pid [] = none
entry pid ((q, a) ∷ es) = if q == pid then some a else entry pid es

abbrev or_else {ℓ} : {A : Type ℓ} → Option A → Option A → Option A
or_else (some a) old = some a
or_else none old = old

-- `update.update(slot)`
unfoldable pub with_slot : Option Slot → Place → Place
with_slot none p = p
with_slot (some slot) p = record p {
  stay_minutes = some slot.stay_minutes;
  visit_start = some slot.visit_start;
  visit_end = some slot.visit_end;
  stay_source = or_else slot.stay_source p.stay_source;
}

-- `p.model_copy(update=…)`
unfoldable pub merged : List (ℕ × Str) → List (ℕ × List Str) → List (ℕ × Slot) → Place → Place
merged reasons summaries timeline p = with_slot (find_slot p.place_id timeline) (record p {
  reason = or_else (entry p.place_id reasons) p.reason;
  bullets = or_else (entry p.place_id summaries) p.bullets;
})

unfoldable pub build_payload : AgentState → AgentState
build_payload s =
    let reasons = or_empty s.reasons in
    let summaries = or_empty s.summaries in
    let timeline = or_empty s.timeline in
    let places = or_empty s.places in
    if has_error s
    then s
    else if (not (is_empty_list reasons)
          || not (is_empty_list summaries)
          || not (is_empty_list timeline))
        && not (is_empty_list places)
    then record s { places = some (map (merged reasons summaries timeline) places) }
    else s

-- `state.get("warnings") or None`
abbrev pub none_if_empty : Option (List Str) → Option (List Str)
none_if_empty none = none
none_if_empty (some []) = none
none_if_empty (some (w ∷ ws)) = some (w ∷ ws)

abbrev pub or_generation_failed : Option Code → Code
or_generation_failed none = generation_failed
or_generation_failed (some c) = c

abbrev pub or_false : Option Bool → Bool
or_false none = false
or_false (some b) = b

-- `state[key]`
abbrev pub required {ℓ} : {A : Type ℓ} → Option A → Result A
required none = raised key_error
required (some a) = returned a

-- The payload of a failed job
unfoldable pub failed_payload : Str → Code → Bool → JobDonePayload
failed_payload job_id code retryable = record {
  job_id = job_id;
  status = failed;
  places = none;
  visit_order = none;
  legs = none;
  clothing = none;
  timeline_status = none;
  warnings = none;
  error = some code;
  code = some code;
  retryable = some retryable;
}

-- The payload of a job that is done
unfoldable pub done_payload : AgentState → List Place → List ℕ → List Leg → JobDonePayload
done_payload s places order legs = record {
  job_id = s.job_id;
  status = done;
  places = some places;
  visit_order = some order;
  legs = some legs;
  clothing = s.clothing;
  timeline_status = s.timeline_status;
  warnings = none_if_empty s.warnings;
  error = none;
  code = none;
  retryable = none;
}

unfoldable pub payload_of : AgentState → Result JobDonePayload
payload_of s =
    if has_error s
    then returned (failed_payload s.job_id (or_generation_failed s.code) (or_false s.retryable))
    else required s.places >>= (λ places. required s.visit_order >>= λ order.
        required s.legs >>= λ legs. returned (done_payload s places order legs))

-- `publish_done`: the stream gives the id of the entry
unfoldable pub publish_done :
    (publish : JobDonePayload → Result Str) → AgentState → Result AgentState
publish_done publish s = payload_of s >>= λ p. publish p >>= λ sent. returned s
