-- ===== src/Lib.antt =====
-- A model of the BPMN engine of this repository and the theorems that make it correct.
--
-- The program reads a process definition, keeps instances of it, and runs an instance by a loop: a pool
-- of workers executes the elements at which tokens stand, and the loop handles each result by making
-- the next flows. A queue retries the jobs that elements leave behind. All of them keep their state in
-- a store.
--
-- The parts and their files:
--
-- Process: internal/process/state.go. Process.State has the state machine, Process.Instance the
-- instance (`Instance`, NewInstance, Transition, TryComplete, NextThreadID, SetVariable, ToRecord),
-- Process.Sanitize the sanitising of variables. Process.Lifecycle and Process.Sanitize.Bounds hold the
-- theorems.
--
-- Model, Records: the data of pkg/bpmn/model.go and of pkg/store/store.go.
--
-- Element: internal/element. An element is a function from its definition and its context to the
-- instance with the variables that it set and a result. Element.Gateways, Element.Events and
-- Element.Activities have one function for each `Execute`. Element.AiTask is ai_task.go, the task of a
-- language model, with its Execute in Element.AiTask.Execute; its world is what the gateways change.
-- The theorems stand below Element.Gateways and in Element.AiTask.Frame.
--
-- Engine: internal/engine. Engine.Router, Engine.FailSafe and Engine.Registry are the files of those
-- names. The rest is engine.go: Engine.State has what the loop acts on and the monad of its steps;
-- Engine.Execute is executeElement, Engine.Send is enqueueFlow and the threads, Engine.Jobs the jobs and
-- scheduleBoundaryTimers, Engine.Handle is handleResult with a function for each case of its switch,
-- Engine.CallActivity the flattening of a called process, in its child Own for a process that calls
-- itself, Engine.Catch is findErrorCatch,
-- Engine.Loop is runLoop with its workers, and Engine.Resume is Run, Continue and SendMessage.
--
-- Queue: internal/queue: worker.go, retry.go and deadletter.go, with the wrap-around of int64 written
-- out. Store: the interfaces of the store, which the engine and the queue take as records, and
-- Store.Memory, pkg/store/memory/store.go, which fills them.
--
-- Parser: pkg/bpmn/parser.go. Parser.Xml is what encoding/xml decodes, Parser.Elements has parseEvent,
-- parseGateway, parseActivity and parseFlow, Parser.Csv splitCSV, Parser.Wiring wireFlows and the
-- synthetic flows, Parser.Flatten the sub-processes, and Parser.Parse the whole of Parse. The order in
-- which Go visits a map is an argument of every loop over one.
--
-- Timer: internal/element/events/timer.go from CalculateSchedule on. Timer.Numbers is strconv.Atoi,
-- Timer.Duration parseISODuration, Timer.Field cronFieldMatches, Timer.Cron nextCron and Timer.Schedule
-- the rest. The calendar of the time package is an argument.
--
-- Ai: pkg/ai. Ai.Gateway has requests and responses, Ai.Cache cache.go, Ai.Fallback fallback.go and
-- cross_provider.go, Ai.Guardrail guardrail.go, Ai.Tools tools.go, Ai.Router router.go with its tables
-- in Ai.Router.Tables, Ai.Prompt prompt.go, Ai.Agent agent.go, Ai.Rag rag.go and Ai.Schema schema.go. A
-- provider is a function of the request and of the
-- world; float64, SHA-256 and regular expressions are arguments.
--
-- Base holds the shared helpers, Errors the error values, and Tests the concrete runs.
--
-- Concurrency: the goroutines of a run are a list of moves (Engine.Loop), each of which is one step: a
-- worker takes the next item, a worker executes an item that it took, the loop receives a result or an
-- error, or the context ends. An execution of an element is one step; so is the handling of a result.
-- A worker takes an item only if fewer than WorkerCount have one, and a result waits for room in its
-- channel of 1024. The work channel is a list without its bound of 1024: a send that would wait for room
-- is taken to happen at once, so that a run in which the loop and the workers wait for each other is none
-- of the model's, and no theorem says that a run goes on. The lists of moves, of results and of polls are arguments. The
-- search of nextCron runs on fuel, the nanoseconds up to its end, which are enough where every turn
-- moves the time on, as in UTC.
--
-- Not modelled: the expression library govaluate, which enters as the record `Govaluate`, and
-- encoding/xml, as the record `Decoder`; the clock, identifiers and randomness, which are arguments;
-- SendSignal and the job handler, which are left for later; the clients of providers and the vectors
-- of pkg/ai, the HTTP API, the SQL store, logging and metrics, which are input and output around the
-- engine.
pub mod Base
pub mod Errors
pub mod Model
pub mod Records
pub mod Govaluate
pub mod Parser
pub mod Process
pub mod Element
pub mod Timer
pub mod Engine
pub mod Queue
pub mod Store
pub mod Ai
pub mod Tests
