-- ===== src/Lib.antt =====
-- Agenyx runs agents: an agent service drives executions through inference and tool calls, and an
-- inference service answers each inference request by one of several providers. This library models
-- the Python code of both services and of the worker that feeds them from a queue, part by part.
--
-- Which file models which part (paths from the repository's root):
--   Base and its children: the shared names; ℤ for Python's int, Dict for dict (an association list in
--     insertion order), sets as lists, `Action` for a method call (state and exceptions; the state
--     comes back after a raise too), `Value` for `Any` where it holds JSON-like data without floats.
--   Execution, Execution.States, Execution.StateMachine, Execution.Snapshot: `Execution`,
--     `ExecutionState`, `ExecutionStatus`, `ExecutionStateMachine` and `ExecutionResult` of
--     internal/agent/app/agent_runtime/domain and state_machine.py. A method is a function of the same
--     name; each `utc_now()` of it is an argument, in the order of the calls. Execution.Graph has the
--     lifecycle diagram, Execution.Invariant, Traces and Times the proofs.
--   Step: domain/step.py and step_status.py. An execution holds a list of steps.
--   Limits: execution_limits.py. Retry, Retry.Errors: retry_policy.py and core/errors.py.
--   Idempotency: idempotency.py. Idempotency.Race: what several callers of tools/executor.py do to one
--     store, as steps in any order; Safety and Once have the proofs.
--   Tools, Tools.Executor: tools/registry.py, tools/result.py, authorization.py, tools/executor.py. The
--     executor uses the registry, the policy and the store.
--   Approval: approval.py. `wait_for_resolution` is two operations, before and after its await;
--     Invariant, History and Resolution have the proofs.
--   Context, Context.Tokens: context_manager.py and domain/context.py. A message is a JSON object; the
--     context manager keeps no state besides the context, so its methods are functions of the context.
--   Persistence, Persistence.Executions: persistence/in_memory.py and persistence/models.py, the stores
--     of events, and of executions and results. Persistence.Mappers: persistence/mappers.py.
--   Events: events.py, event_stream.py and cancellation.py; the reads of all consumers of a stream are
--     one operation, in any order with the others.
--   Planner: planner.py and domain/decision.py. `Planner` has the registry of the tools and the reader
--     of JSON, a parameter.
--   Runtime and its children: runtime.py. A coroutine is a `Run` over `Runtime`, the record of one
--     execution with its context: it changes the state, and returns or raises an exception with its
--     class and its text. Runtime.Admission, Batch and Calls have `_execute_tool_calls` and what it
--     calls, Runtime.Loop `_execute`, Runtime.Lifecycle `_create_execution`, `_run_execution` and the
--     queries. Their proofs: Keeps has a rule for each way to build a coroutine, Running, Batches,
--     Approvals, Reasoning and Executing use them for each coroutine, Leads, Stopping, Endings,
--     Completion and Ends bring the execution to its end, Silence and Late are about its errors.
--   Reliability: inference/app/reliability. Reliability.Breaker states the abstract circuit breaker and
--     the refinement; Invariant, Record, Allow, Register and Traces have the invariant of the manager.
--   Providers: inference/app/providers/registry.py. Concurrency: inference/app/concurrency.py.
--   Failover: inference/app/failover/manager.py. It reads the registry and drives the reliability
--     manager; the answers of the providers, the clock, and the calls that other requests make while
--     this one waits are its `World`, by the position in the route.
--   Inference: internal/agent/app/inference/client.py, which asks Retry whether it tries again and after
--     which delay; Inference.Deadline has the proof.
--   Models: inference/app/models and tenancy. Backend: inference/app/backend.py and the constructor of
--     providers/openai_compatible.py. Backend.Transient and Retries have the proofs about the retries.
--   Service: inference/app/main.py and auth.py. Service has the checks of a request, Service.Chat the
--     handler, Service.Startup what the module builds when it is loaded. A request passes Service,
--     takes a slot of Concurrency, and calls Failover with the routes that Service.Startup made from
--     the models and the providers; its `World` has what other requests do meanwhile to the limiter
--     and the reliability manager, and which responses can be rendered. Messages and Acceptance,
--     Holding, Endings, and Startup.Routes and Requests have the proofs.
--   Worker: worker/app/queue.py; Worker.Executor: executor.py; Worker.Loop: worker.py. `Valkey` is the
--     client as a record of commands over an unknown state of the server; `IsLawful` and `IsReliable`
--     of Worker.Lawful are what the proofs ask of it, and Worker.Memory is a server that has both.
--     Ensures is a triple for coroutines, Commands its rules for commands; Safe and Loss, Views and
--     Attempts, and Rounds, have the proofs.
--
-- Conventions. An exception is its class, outside the runtime and the worker: messages are kept only where
-- the code stores them. Times are whole microseconds, also where the source has floats or a timedelta;
-- UTC times are not before 1970. A lock makes the body of a method one step. A UUID is a number. What
-- tools, the sandbox and providers answer are arguments. `steps_run` of Limits.Budget takes fuel:
-- `max_steps` of it is enough.
--
-- What a coroutine of the runtime awaits is in its `World`: the readings of the clocks, the cancellation
-- of the token by another task and the outcomes of storing by the number of the reading, the answers of
-- the router, the model, the tools and the approvals by the step of the loop and the position in the
-- batch. The calls of one batch touch the steps of their own calls alone and are run in the order of the
-- batch; when no time is left before they are awaited, the code leaves them running without an owner, and
-- the model drops them. Approvals are awaited one after another. The loop recurs on the steps that are
-- left, `max_steps` at first. The inputs of steps, the data of events, the metadata but for the route,
-- and the `plan` of the context's step beyond the task are left out; the texts of the errors that the
-- limits and the domain raise are not kept, and they are never empty.
--
-- A `Session` is the state of one worker process: the server, and the number of the readings of its
-- `World`, which has the clock, the agent, the signals and the ends of its waits. The proofs about a
-- delivery let no other process act on its task meanwhile. The texts of times, and whether an error of
-- the server is BUSYGROUP, are parameters; `int` reads the digits of ASCII. The loop is watched for a
-- number of rounds; waiting two seconds after a failed read changes nothing and is left out. The texts
-- of API errors and the durations of requests are left out of Service; an HTTP response is its status,
-- whether `raise_for_status` raises, and its JSON. The loop of Backend recurs on the attempts that are
-- left, `max_retries + 1` at first.
--
-- Not modelled: logging; the API of the agent and its clients of the router and the sandbox; the
-- persistence of executions in PostgreSQL, whose code is queries of a library; the
-- recovery, which reads attributes and calls methods that do not exist; the submission of executions as
-- tasks; the middleware of the inference service; the reading of configurations; the Go services.
pub mod Approval
pub mod Base
pub mod Execution
pub mod Runtime
pub mod Step
pub mod Reliability
pub mod Persistence
pub mod Events
pub mod Inference
pub mod Models
pub mod Backend
pub mod Service
pub mod Worker
pub mod Planner
pub mod Providers
pub mod Failover
pub mod Concurrency
pub mod Context
pub mod Retry
pub mod Limits
pub mod Idempotency
pub mod Tools
