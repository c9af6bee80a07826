-- ===== src/Lib.antt =====
-- The core of BlueShip, a framework for assistants that run tasks, tools and conversations.
--
-- A graph task is a plan of steps with dependencies. It is validated when it is saved, then a
-- coordinator claims the task and workers claim its steps, all through writes to a database that any
-- number of processes share. Tools are registered by the ship and by its peers, and a policy of the
-- host decides for every turn which of them the model may call. A voice connection runs one turn at
-- a time and lets the user interrupt it.
--
-- The files, and the code that they model:
-- - Prelude: shared names, lists, sets of keys, text tests and signed integers.
-- - Graph: the depth-first check of dependencies that two validations share. `each`, `walk` and
--   `walk_all` are the closures `walk` of ValidateTaskSteps (internal/core/task_steps.go) and `visit`
--   of Validate (runtime/workflow/graph.go); a map from keys to true is the list of its true keys.
--   The recursion takes fuel, one more than the number of nodes: every level of it marks a node that
--   was not marked, as Graph/Total shows.
-- - TaskSteps: ValidateTaskSteps. The range over a map takes its keys in any order: `keys` is a
--   parameter. The lengths of identifiers are counted in bytes, as in Go.
-- - Workflow: Validate and Descendants of runtime/workflow/graph.go. The fixpoint of Descendants takes
--   fuel, one round more than there are stages: every round but the last adds a stage.
-- - StepStore: the writes of internal/core/task_steps.go and internal/core/task_run.go, as functions
--   on the rows of one task: Save for new plans, Ops for claims,
--   checkpoints and completions, Failures for failures,
--   recovery and the resolution of stuck steps, Runs for the coordinator's lease. A transaction is one
--   function from the database to the database and a result, since it locks the task's row. Instants
--   are numbers of milliseconds, identifiers of runs are numbers. Schedule has sequences of writes
--   by any callers at any times.
-- - GraphExecutor: `Run` and `runStep` of internal/agenttask/graph.go, one function for every part of
--   the loop; Workers has the end of a worker and Steps the relation of the loop, its workers and
--   everybody else over one database of StepStore.
-- - TaskLifecycle: one task's row in agent_tasks with its results, its submission and its checkpoint:
--   internal/core/agent_finalize.go (Finalize, and Draft for the text of a result), the writes of
--   agent_store.go and agent_deadline.go (Writes), agent_submission.go and agent_checkpoint.go
--   (Submissions), and the owner's controls of task_control.go and task_restart.go (Control).
--   Deadlines has the maintenance of the wall-clock budget, in agent_deadline.go and
--   internal/agenttask/deadline.go, for a store that finalizes.
--   Schedule has sequences of these writes and those of StepStore; a result is queued in Outbox. The
--   functions on texts, the merge of JSON and the database's order of step ids are parameters.
-- - Outbox: the journal of task notifications in internal/core/agent_store.go, one function for every
--   write, and `deliverTaskNotification` and `resolveTaskNotificationAttempt` of
--   internal/agenttask/scheduler.go. A call of the transport is its outcome. Retry has
--   `drainRetryableNotifications` and `retryTaskNotification`, the 20 rounds being the code's own
--   limit, and `validatedTaskNotifier` of delivery_validation.go; Ledger has `LookupDelivered`,
--   `MarkDelivered` and `NextNotificationRetry`. Steps has everything that senders, finalizations,
--   the gateway and crashes do to one journal, and Session what one sender does from beginning to
--   end. The hash of an occurrence and the parser of a message are parameters.
-- - Transcript: `trimOrphanedLeading` and `sanitizeOrphanedToolUse` of runtime/session/compact.go,
--   in the order of their caller in runtime/session/messages.go; Compaction has `findSplitPoint`
--   and Compactor has `Compact` of runtime/agent/compact.go, with the text that is summarised and
--   the model as arguments.
-- - ToolRegistry: internal/core/registry.go, with the maps as lists and the handlers of any type.
--   Evidence has the registry that is left when external research has closed.
-- - TurnPolicy: the resolution, normalisation and application of a turn's policy in
--   internal/gateway/turn_policy.go and tool_selection.go, with the denylist of
--   internal/core/reqctx.go. The host's resolver is an argument.
-- - TaskProgram: `Validate` and `RequestedTools` of internal/core/task_program.go. `json.Valid` is a
--   parameter; the pattern of the ids is written out.
-- - Budget: `ResolveMessageBudget` of internal/core/budget.go and `EstimateTextTokens` of
--   internal/core/types.go. The JSON of the tools is an argument.
-- - FinalValidation: `validateGraphResult` of internal/agenttask/graph_validation.go, the checks that
--   a final report passes before a graph task is finished. Stages has its parts, in a monad that goes
--   on or returns; Triples the rule for two parts in turn. The clock, the repairer, the output guard,
--   the reviewer and the acceptance of writes are functions of the history of saved records. The
--   recursion takes fuel, and 4 is enough: a call that repeats itself has used one more of two
--   repairs, and the first need not have.
-- - Grounding: the rules on grounding audits of internal/agenttask/graph_grounding.go.
-- - Keyboard: internal/core/keyboard.go, with the map of the screens as a list in the order of one
--   iteration. `strings.ToLower` is a parameter.
-- - SplitMessage: `splitMessage` of internal/transport/telegram/client.go, on the runes of the text.
--   The loop takes fuel, one unit for every rune: every chunk has at least one.
-- - TurnManager: the actor of internal/transport/ws/turn_manager.go. Steps is the select of its loop
--   together with its goroutines, as a relation on states. Base64 decoding is a parameter.
-- The modules named Examples run the definitions on small inputs.
--
-- Not modelled: the clients of model providers and transports, the prompts, the SQL of other tables,
-- faults of the database, the columns that no write reads (acceptance, estimates, progress of
-- a step), the handlers of tools, the runner of graph tasks and the agent loop. They are
-- input and output for the most part, or run models whose answers nothing bounds. An error is
-- its kind, without the text.
pub mod Budget
pub mod FinalValidation
pub mod Graph
pub mod GraphExecutor
pub mod Grounding
pub mod Keyboard
pub mod Outbox
pub mod Prelude
pub mod SplitMessage
pub mod StepStore
pub mod TaskLifecycle
pub mod TaskProgram
pub mod TaskSteps
pub mod ToolRegistry
pub mod Transcript
pub mod TurnManager
pub mod TurnPolicy
pub mod Workflow
