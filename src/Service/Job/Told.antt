-- ===== src/Service/Job/Told.antt =====
-- app/main.py, `_run_job`: how a job tells its end.
use map_service_agent.Prelude.{
  ℕ, zero, suc, Bool, true, ◌≡◌, ◌≢◌, refl, Option, none, some, List, [], ◌∷◌, Option-cases, inl,
  inr,
}
use map_service_agent.Value.{Str}
use map_service_agent.Failure.{
  Exc, timeout_error, cancelled_error, Code, generation_timeout, upstream_unavailable, IsClassified,
  exception_failure-IsClassified, Result, returned, raised,
}
use map_service_agent.Schema.Model.{AgentRequest, JobDonePayload, failed}
use map_service_agent.Nodes.State.{AgentState, initial}
use map_service_agent.Nodes.Payload.{failed_payload}
use map_service_agent.Graph.{Node, parse_input, edge, Run, after, run, invoke}
use map_service_agent.Graph.Runs.{
  Publishes, later, Ended, invoke-Ended, Result-cases, run-raised, run-last, run-next,
  Publishes-last, edge-none,
}
use map_service_agent.Service.Job.{
  Limit, in_time, timeout, shutdown, broken_off, await_graph, escaping, Report, publish_failure,
  failure_of, reraised, report_of, run_job,
}

-- A run within any number of nodes: still going, broken by an exception, or published.
data Stopped : Run → Type 0 where
  going : (trace : List Node) → Stopped (trace, none)
  broke : (trace : List Node) (e : Exc) → Stopped (trace, some (raised e))
  ended :
      (trace : List Node) (t : AgentState) → Publishes trace → Stopped (trace, some (returned t))

Stopped-after : (n : Node) (r : Run) → Stopped r → Stopped (after n r)
Stopped-after n _ (going trace) = going (n ∷ trace)
Stopped-after n _ (broke trace e) = broke (n ∷ trace) e
Stopped-after n _ (ended trace t p) = ended (n ∷ trace) t (later p)

run-Stopped :
    (node : Node → AgentState → Result AgentState) (k : ℕ) (n : Node) (s : AgentState)
    → Stopped (run node k n s)
unfolding run
run-Stopped node zero n s = going []
run-Stopped node (suc k) n s = elim (Result-cases (node n s)) [
  | inr (e, r) ↦ rw (run-raised node k n s e r) (broke (n ∷ []) e)
  | inl (t, r) ↦ elim (Option-cases (edge n t)) [
    | inl o ↦
        rw (run-last node k n s t r o) (ended (n ∷ []) t (Publishes-last node n (edge-none n t o)))
    | inr (m, o) ↦
        rw (run-next node k n m s t r o) (Stopped-after n (run node k m t) (run-Stopped node k m t))
  ]
]

-- A run that has come to its end, published or broken.
data Settled : Run → Type 0 where
  broken : (trace : List Node) (e : Exc) → Settled (trace, some (raised e))
  done : (trace : List Node) (t : AgentState) → Publishes trace → Settled (trace, some (returned t))

Settled-broken_off : (e : Exc) (r : Run) → Stopped r → Settled (broken_off e r)
unfolding broken_off
Settled-broken_off e _ (going trace) = broken trace e
Settled-broken_off e _ (broke trace f) = broken trace f
Settled-broken_off e _ (ended trace t p) = done trace t p

Settled-Ended : (r : Run) → Ended 14 r → Settled r
Settled-Ended _ (Ended.published trace t b p) = done trace t p
Settled-Ended _ (Ended.broken trace e b) = broken trace e

await_graph-Settled :
    (node : Node → AgentState → Result AgentState) (limit : Limit) (s : AgentState)
    → Settled (await_graph node limit s)
unfolding await_graph
await_graph-Settled node in_time s = Settled-Ended (invoke node s) (invoke-Ended node s)
await_graph-Settled node (timeout k) s =
    Settled-broken_off timeout_error (run node k parse_input s) (run-Stopped node k parse_input s)
await_graph-Settled node (shutdown k) s =
    Settled-broken_off cancelled_error (run node k parse_input s) (run-Stopped node k parse_input s)

-- The failure that a job tells of an exception: a timeout of the job or a shutdown may be retried, and
-- any other exception is classified on its own.
pub data IsFailure : Exc → Code → Bool → Type 0 where
  timed_out : IsFailure timeout_error generation_timeout true
  shut_down : IsFailure cancelled_error upstream_unavailable true
  other :
      {e : Exc} {code : Code} {retryable : Bool}
      → e ≢ timeout_error
      → e ≢ cancelled_error
      → IsClassified e code retryable
      → IsFailure e code retryable

-- What a job raises in the end, after an exception and what the publisher gave for the report of it:
-- a cancellation of either, and nothing else.
pub data IsRaised (e : Exc) (sent : Result Str) : Option Exc → Type 0 where
  again : e ≡ cancelled_error → IsRaised e sent (some cancelled_error)
  interrupted : sent ≡ raised cancelled_error → IsRaised e sent (some cancelled_error)
  quiet : e ≢ cancelled_error → sent ≢ raised cancelled_error → IsRaised e sent none

-- The report of a failure
abbrev pub report : Str → Code → Bool → JobDonePayload
report job_id code retryable = record {
  job_id = job_id;
  status = failed;
  places = none;
  visit_order = none;
  legs = none;
  clothing = none;
  timeline_status = none;
  warnings = none;
  error = some code;
  code = some code;
  retryable = some retryable;
}

-- A job has told its end: the run ended and the graph published, and nothing else is sent or raised;
-- or an exception broke the run, and one report of its failure is handed to the publisher.
pub data Told (publish : JobDonePayload → Result Str) (job_id : Str) (ran : Run)
    : List Node × Report → Type 0 where
  by_graph :
      (trace : List Node) (t : AgentState)
      → ran ≡ (trace, some (returned t))
      → Publishes trace
      → Told publish job_id ran (trace, (none, none))
  by_job :
      (trace : List Node) (e : Exc) (code : Code) (retryable : Bool) (escaped : Option Exc)
      → ran ≡ (trace, some (raised e))
      → IsFailure e code retryable
      → IsRaised e (publish (report job_id code retryable)) escaped
      → Told publish job_id ran (trace, (some (report job_id code retryable), escaped))

failure_of-IsFailure : (e : Exc) → IsFailure e (failure_of e).code (failure_of e).retryable
unfolding failure_of
failure_of-IsFailure timeout_error = timed_out
failure_of-IsFailure cancelled_error = shut_down
failure_of-IsFailure e = other (λ h. cc h) (λ h. cc h) (exception_failure-IsClassified e)

reraised-IsRaised : (e : Exc) (sent : Result Str) → IsRaised e sent (reraised e (escaping sent))
unfolding reraised escaping
reraised-IsRaised cancelled_error sent = again refl
reraised-IsRaised e (returned id) = quiet (λ h. cc h) (λ h. cc h)
reraised-IsRaised e (raised cancelled_error) = interrupted refl
reraised-IsRaised e (raised _) = quiet (λ h. cc h) (λ h. cc h)

Told-Settled :
    (publish : JobDonePayload → Result Str) (job_id : Str) (r : Run)
    → Settled r
    → Told publish job_id r (r.0, report_of publish job_id r.1)
unfolding report_of publish_failure failed_payload
Told-Settled publish job_id _ (done trace t p) = by_graph trace t refl p
Told-Settled publish job_id _ (broken trace e) =
    let f = failure_of e in
    by_job trace e f.code f.retryable
      (reraised e (escaping (publish (report job_id f.code f.retryable)))) refl
      (failure_of-IsFailure e) (reraised-IsRaised e (publish (report job_id f.code f.retryable)))

-- Whatever the nodes and the publisher do, and wherever a timeout or a shutdown breaks the run off, a
-- job tells its end in one of two ways. Where the run came to its end, the graph published last, and
-- the job sends and raises nothing. Where an exception broke it, the job hands one report with its
-- own id to the publisher: a timeout of the job and a shutdown may be retried, any other exception
-- tells the failure that is fixed for it; and the job raises a cancellation exactly if the run or the
-- publisher was cancelled, and nothing else.
pub run_job-Told :
    (node : Node → AgentState → Result AgentState) (publish : JobDonePayload → Result Str)
    (limit : Limit) (job_id : Str) (req : AgentRequest)
    → Told publish job_id
        (await_graph node limit (initial job_id req))
        (run_job node publish limit job_id req)
unfolding run_job
run_job-Told node publish limit job_id req =
    Told-Settled publish job_id (await_graph node limit (initial job_id req))
      (await_graph-Settled node limit (initial job_id req))
