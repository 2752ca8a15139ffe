-- ===== src/Lib.antt =====
-- map-service-agent: a service that plans trips. A request gives dates, times and a region; a job
-- runs a graph of nodes that check it, fetch the weather, search and select places, order them,
-- compute a timetable, ask a language model for reasons, and publish the result.
--
-- The modules and the code that they model:
--   Failure            app/errors.py: exceptions, failure codes, and the results of calls
--   Llm.RateLimit      app/llm/rate_limit.py: the script in Redis and the loop of `acquire`
--   Llm.StructuredCall app/llm/structured_call.py: the budget and the corrective retry
--   Llm.PromptJson     app/llm/prompt_json.py: `prune_empty` and `dump_prompt_json`
--   Sanitize           app/security/sanitize.py, and the forbidden texts of the schemas
--   Schema             app/schemas/agent_schemas.py: the models, and the checks of their fields
--   Nodes.State        app/nodes/agent_nodes.py: `AgentState`, and app/agent_settings.py
--   Nodes.Input        `parse_input`
--   Nodes.Candidates   `_place_from_candidate` and `_cap_candidates`
--   Nodes.Given        `_verify_selected_places` and `load_given_places`
--   Nodes.Reviews      `_fetch_reviews_for`: reviews for the selection
--   Nodes.Select       `_select_places`, `_merge_pinned` and `recommend_places`
--   Nodes.Search       `_theme_keywords`, `_merge_place_results` and `search_places`
--   Nodes.Affinity     `_affinity` and `_segment_gain`: what taste adds to a score
--   Nodes.Rank         `rules_filter` and `score_and_rank`
--   Nodes.Strategy     `fetch_weather` and `plan_strategy`
--   Nodes.Route        `recommend_route`, `_order_places`, `_tour`, `_two_opt`, `_rebuild_legs`
--   Nodes.Timeline     `_plan_timeline`, `build_timeline`, `fit_time_budget`
--   Nodes.Reason       `llm_reason`
--   Nodes.Payload      `build_payload` and `publish_done`
--   Graph              app/graph/agent_graph.py: the edges, and a run of them
--   Summary            app/nodes/summary_nodes.py and app/graph/summary_graph.py: two lines for
--                      each place from its reviews
--   Service            app/main.py: `recommend`, which lets a request in, `_run_job`, and the two
--                      endpoints of summaries
--   Eval               eval/segment_stats.py: how often places were shown and saved
--   Seal               app/crypto/location_seal.py and app/crypto/checkpoint_seal.py: base64, sealed
--                      locations, and the ciphers of the checkpoints
-- Prelude has the names, tests and list lemmas that these share, Value the texts, numbers and JSON
-- values of Python, and Samples the data on which the theorems are tried.
--
-- State and operations. A node is a function on `AgentState`, a record with an option for each key
-- of the dict; one that may raise gives a `Result`. The graph only reads the states that the nodes
-- leave, so that `Graph.run` takes the nodes as a parameter. Calls of the hub, of Redis and of the
-- model are parameters, as are `str`, `date.fromisoformat`, how a number is read from JSON, and
-- floating point arithmetic; a Python float is its bit pattern, and comparisons are those of IEEE 754.
-- `Service.Job.run_job` runs the graph on a new state, to its end or until a timeout or a shutdown
-- breaks it off after some nodes. A break inside a node counts as one before it, so that a message
-- which had left by then is not seen.
--
-- Numbers. Tokens of the bucket are counted in units of 1/60000, which makes the refill of one
-- millisecond whole; the rounding by `tostring` in the script, to 14 digits, is not modelled, so that
-- nothing is stated of whether the wait that it advises is enough. Shares of indoor places are in tenths. The hub gives stays as natural numbers of minutes. The depth limit of
-- `sanitize_struct` is a natural number.
--
-- Fuel. `acquire` gets `max_wait_ms / 50 + 2` rounds, since every pause takes 50 ms or more. A run of
-- the graph gets 14 nodes, all that there are. Nearest-neighbour tours get the number of places, and
-- a two-opt tour the 20 rounds of the source.
--
-- Parameters. Besides the above: AES-GCM, with the hypothesis that it opens what it sealed, to bytes;
-- `json.dumps` and `json.loads`; the strict and the plain decoder of base64 keys; the clock and the
-- random bytes; `==` of Python on what can be a key, and `<` on numbers of JSON, of which only
-- asymmetry is used; and what the file of statistics holds, which is read once.
--
-- Not modelled: the health checks and the start of the service in app/main.py, the signal for training
-- that `publish_done` adds, the clients of app/clients and the scorer of eval, which the manifest
-- lists with the reasons; the status events and the log, which no node reads; and the wording of the
-- prompts. A candidate with a coordinate too large for `float`, whose OverflowError the code does not
-- catch, is taken as one that is no place.
pub mod Prelude
pub mod Value
pub mod Failure
pub mod Llm
pub mod Sanitize
pub mod Summary
pub mod Seal
pub mod Service
pub mod Schema
pub mod Nodes
pub mod Graph
pub mod Eval
mod Samples
