-- ===== src/Samples/Services.antt =====
-- Requests that are let in, and jobs that end.
use map_service_agent.Prelude.{true, Option, none, some, []}
use map_service_agent.Value.{Str, codes, Items, nil, field, end, arr}
use map_service_agent.Failure.{Result, returned}
use map_service_agent.Schema.Model.{AgentRequest, JobDonePayload, init}
use map_service_agent.Service.Job.{timeout, await_graph, run_job}
use map_service_agent.Service.Job.Told.{Told, run_job-Told}
use map_service_agent.Seal.Location.{Opened, opened}
use map_service_agent.Nodes.State.{initial}
use map_service_agent.Service.Admission.{resolve_places, recommend}
use map_service_agent.Service.Admission.Decided.{
  IsTrusted, Resolved, Escapes, Decided, recommend-Decided,
}
use map_service_agent.Samples.{started}
use map_service_agent.Samples.Jobs.{idle}

abbrev accepts : JobDonePayload → Result Str
accepts p = returned (codes "1-0")

-- The time is up after three nodes.
run_job-Told_example :
    Told accepts
      (codes "job")
      (await_graph idle (timeout 3) (initial (codes "job") (started init).request))
      (run_job idle accepts (timeout 3) (codes "job") (started init).request)
run_job-Told_example = run_job-Told idle accepts (timeout 3) (codes "job") (started init).request

abbrev sealed_request : AgentRequest
sealed_request = record (started init).request { loc = some (codes "v1.a.b") }

abbrev open_seal : Str → Opened
open_seal s = opened (field (codes "places") (arr nil) end)

abbrev validate : AgentRequest → Items → Option AgentRequest
validate req vs = some (record req { places = none; loc = none })

-- A sealed request with the right token
recommend-Decided_example :
    Decided
      (IsTrusted (some (codes "key")) (some (codes "key")))
      (Resolved true open_seal validate sealed_request)
      (Escapes true open_seal sealed_request)
      true
      (codes "job")
      []
      (recommend
        (resolve_places true open_seal validate)
        (some (codes "key"))
        true
        (codes "job")
        (some (codes "key"))
        sealed_request
        [])
recommend-Decided_example =
    recommend-Decided true open_seal validate (some (codes "key")) true (codes "job")
      (some (codes "key")) sealed_request []
