-- ===== src/Service/Job.antt =====
-- app/main.py: `_run_job` and `_publish_failure`. The publisher is a parameter, and so is the moment
-- at which `asyncio.wait_for` or a shutdown breaks the run off, counted in nodes that are done; what
-- a node does before it is broken off is not seen.
pub mod Told
use map_service_agent.Prelude.{
  ℕ, zero, suc, Bool, true, false, ◌≡◌, ◌⊎◌, refl, Option, none, some, List, [], ◌∷◌, Option-cases,
  inl, inr,
}
use map_service_agent.Value.{Str}
use map_service_agent.Failure.{
  Exc, timeout_error, cancelled_error, Code, generation_timeout, upstream_unavailable, Failure,
  failure, exception_failure, exception_failure-retryable, Result, returned, raised,
}
use map_service_agent.Schema.Model.{AgentRequest, JobDonePayload}
use map_service_agent.Nodes.State.{AgentState, initial}
use map_service_agent.Nodes.Payload.{failed_payload}
use map_service_agent.Graph.{Node, parse_input, edge, Run, after, run, invoke}
use map_service_agent.Graph.Runs.{
  Publishes, later, Ended, invoke-Ended, Result-cases, run-raised, run-last, run-next,
  Publishes-last, edge-none,
}

-- How long the run may go on: to its end, or for some nodes.
pub data Limit : Type 0 where
  in_time : Limit
  timeout : (nodes : ℕ) → Limit
  shutdown : (nodes : ℕ) → Limit

-- A run that has no result yet is broken off by an exception.
unfoldable pub broken_off : Exc → Run → Run
broken_off e (trace, none) = (trace, some (raised e))
broken_off e (trace, some r) = (trace, some r)

-- `asyncio.wait_for(graph.ainvoke(…), timeout)`
unfoldable pub await_graph : (Node → AgentState → Result AgentState) → Limit → AgentState → Run
await_graph node in_time s = invoke node s
await_graph node (timeout k) s = broken_off timeout_error (run node k parse_input s)
await_graph node (shutdown k) s = broken_off cancelled_error (run node k parse_input s)

-- `except Exception`, which a cancellation passes
unfoldable pub escaping : Result Str → Option Exc
escaping (raised cancelled_error) = some cancelled_error
escaping _ = none

-- What a job hands to the publisher in the end, and what it raises.
abbrev pub Report : Type 0
Report = Option JobDonePayload × Option Exc

-- `_publish_failure`
unfoldable pub publish_failure : (JobDonePayload → Result Str) → Str → Failure → Report
publish_failure publish job_id f = (
  some (failed_payload job_id f.code f.retryable),
  escaping (publish (failed_payload job_id f.code f.retryable)),
)

-- The failure that each `except` clause of `_run_job` publishes
unfoldable pub failure_of : Exc → Failure
failure_of timeout_error = failure generation_timeout true
failure_of cancelled_error = failure upstream_unavailable true
failure_of e = exception_failure e

-- `raise`, in the clause of a cancellation
unfoldable pub reraised : Exc → Option Exc → Option Exc
reraised cancelled_error escaped = some cancelled_error
reraised _ escaped = escaped

-- The `except` clauses of `_run_job`
unfoldable pub report_of : (JobDonePayload → Result Str) → Str → Option (Result AgentState) → Report
report_of publish job_id (some (raised e)) =
    let report = publish_failure publish job_id (failure_of e) in (report.0, reraised e report.1)
report_of publish job_id _ = (none, none)

-- `_run_job`: the nodes that ran, and the report
unfoldable pub run_job :
    (Node → AgentState → Result AgentState)
    → (JobDonePayload → Result Str)
    → Limit
    → Str
    → AgentRequest
    → List Node × Report
run_job node publish limit job_id req =
    let ran = await_graph node limit (initial job_id req) in (ran.0, report_of publish job_id ran.1)
