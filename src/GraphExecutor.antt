-- ===== src/GraphExecutor.antt =====
-- The executor of graph steps (internal/agenttask/graph.go): `Run`, the loop that claims ready steps
-- and starts a worker for each, and `runStep`, a worker's end. This file has one function for every
-- part of the loop, and Workers the end of a worker; Steps has the executor, its workers and everybody else in steps of one database.
-- A worker stays in `running` from its claim until the loop has received its completion, which it
-- carries from when it has sent it. Errors are kept by what the loop asks of them.
pub mod Workers
pub mod Steps
pub mod Slots
pub mod Orderly
pub mod Schedules
pub mod Complete
mod Examples
use Prim.Native.String.{◌++◌ as str_append}
use blueship.StepStore.{
  Kind, Status, Row, Db, Checkpoint, Field, absent, text, other, Result, ok, err, Error, claim_lost,
  is_read, is_finalize, is_pending, is_done,
}
use blueship.StepStore.Ops.{claim_task_step, complete_task_step}
use blueship.StepStore.Failures.{fail_task_step_after}
use blueship.Prelude.Int.{ℤ, pos}
use blueship.Prelude.{
  ℕ, zero, suc, ◌+◌, String, Bool, true, false, not, ◌&&◌, ◌||◌, Option, none, some, List, [], ◌∷◌,
  ◌++◌, length, ◌==◌, leb, ltb, if◌then◌else◌, str_eq, is_blank,
}

pub record GraphExecutor : Type 0 where
  pub research_deadline : Option ℕ
  pub separate_read_budget : Bool
  pub parallel_reads : ℕ
  pub lease : ℕ

-- The check before the loop, for a store and a handler that are there.
unfoldable pub valid_executor : GraphExecutor → Bool
valid_executor g =
    leb 1 g.parallel_reads && leb g.parallel_reads 8 && leb 1000 g.lease && leb g.lease 600000

-- Why the loop stops: `ctx.Err()`, a failed call of the store, a task without steps, the research
-- deadline, or the error of a step.
pub data Stop : Type 0 where
  context_done store_failed no_plan research_budget step_failed : Stop

-- What a worker reports: its error, if any, by what `errors.Is` finds in it.
pub record Completion : Type 0 where
  pub failed : Bool
  pub is_waiting : Bool
  pub deadline_exceeded : Bool
  pub budget_exhausted : Bool

-- A goroutine with the kind of the step that was looked at, and the row that was claimed.
pub record Worker : Type 0 where
  pub id : String
  pub kind : Kind
  pub row : Row
  pub run : ℕ
  pub inputs : List (String × String)
  pub completion : Option Completion

-- The variables of the loop.
pub record Loop : Type 0 where
  pub running : List Worker
  pub exclusive : Bool
  pub stopped : Option Stop

abbrev pub new_loop : Loop
new_loop = record { running = []; exclusive = false; stopped = none }

-- `running[id]`
unfoldable pub is_running_id : List Worker → String → Bool
is_running_id [] id = false
is_running_id (w ∷ ws) id = str_eq w.id id || is_running_id ws id

-- `delete(running, id)`
unfoldable pub delete : List Worker → String → List Worker
delete [] id = []
delete (w ∷ ws) id = let rest = delete ws id in if str_eq w.id id then rest else w ∷ rest

-- `byID[dep]`
unfoldable pub by_id : List Row → String → Option Row
by_id [] id = none
by_id (r ∷ rs) id = if str_eq r.id id then some r else by_id rs id

-- The results of the dependencies, if all of them are done.
unfoldable pub dependency_inputs : List Row → List String → Option (List (String × String))
dependency_inputs steps [] = some []
dependency_inputs steps (dep ∷ deps) =
    let rest = dependency_inputs steps deps in
    elim (by_id steps dep) [
      | none ↦ none
      | some p ↦
          if is_done p.status
          then elim rest [ none ↦ none | some inputs ↦ some ((dep, p.result) ∷ inputs) ]
          else none
    ]

-- The reads that are done.
unfoldable pub observed_reads : List Row → List (String × String)
observed_reads [] = []
observed_reads (r ∷ rs) =
    let rest = observed_reads rs in
    if is_read r.kind && is_done r.status then (r.id, r.result) ∷ rest else rest

unfoldable pub all_steps_done : List Row → Bool
all_steps_done [] = true
all_steps_done (r ∷ rs) = is_done r.status && all_steps_done rs

abbrev is_true : Field → Bool
is_true (other s) = str_eq s "true"
is_true _ = false

abbrev is_output : Field → Bool
is_output (text s) = not (is_blank s)
is_output _ = false

-- `core.TaskStepHasCandidate`
unfoldable pub task_step_has_candidate : Row → Bool
task_step_has_candidate r =
    is_read r.kind && is_true r.checkpoint.candidate_ready && is_output r.checkpoint.output

-- A deadline that is set and not ahead.
unfoldable pub expired : ℕ → Option ℕ → Bool
expired now none = false
expired now (some d) = leb d now

-- What the loop over the steps does with one of them.
pub data Turn : Type 0 where
  -- `break`: no more workers may start
  full : Turn
  -- `continue`
  skip : Turn
  -- not before this instant
  later : ℕ → Turn
  -- the research deadline has passed
  out_of_research : Turn
  -- claim it, with these inputs
  claim : List (String × String) → Turn

abbrev when_ready : GraphExecutor → ℕ → List Row → Row → List (String × String) → Turn
when_ready g now steps step inputs =
    if ltb now step.next_attempt_at
    then later step.next_attempt_at
    else if not (is_finalize step.kind)
        && not (g.separate_read_budget && task_step_has_candidate step)
        && expired now g.research_deadline
    then out_of_research
    else claim (
        if is_read step.kind || is_finalize step.kind
        then inputs ++ observed_reads steps
        else inputs)

unfoldable pub consider : GraphExecutor → ℕ → List Row → Loop → Row → Turn
consider g now steps l step =
    if l.exclusive || leb g.parallel_reads (length l.running)
    then full
    else if not (is_pending step.status) || is_running_id l.running step.id
    then skip
    else if not (is_read step.kind) && ltb 0 (length l.running)
    then skip
    else elim (dependency_inputs steps step.dependencies) [
      | none ↦ skip
      | some inputs ↦ when_ready g now steps step inputs
    ]

unfoldable pub start_worker : Row → Row → ℕ → List (String × String) → Loop → Loop
start_worker step row run inputs l = record l {
  running =
      record {
        id = step.id;
        kind = step.kind;
        row = row;
        run = run;
        inputs = inputs;
        completion = none;
      }
      ∷ l.running;
  exclusive = not (is_read step.kind);
}

abbrev stop_loop : Stop → Loop → Loop
stop_loop why l = record l { stopped = some why }

-- After `ClaimTaskStep`: the loop goes on with the next step, or breaks.
unfoldable pub claimed : Row → ℕ → List (String × String) → Result (Option Row) → Loop → Bool × Loop
claimed step run inputs (err e) l = (false, stop_loop Stop.store_failed l)
claimed step run inputs (ok none) l = (true, l)
claimed step run inputs (ok (some row)) l = (true, start_worker step row run inputs l)

-- The error of a step, if the loop has not stopped for another.
abbrev stop_for : Bool → Completion → Loop → Loop
stop_for research c l = elim l.stopped [
  | some s ↦ l
  | none ↦
      if c.budget_exhausted || (research && c.deadline_exceeded)
      then stop_loop Stop.research_budget l
      else stop_loop Stop.step_failed l
]

-- The end of the loop's body, for a completion that it has received.
unfoldable pub complete_worker : GraphExecutor → ℕ → Bool → Worker → Completion → Loop → Loop
complete_worker g now ctx_done w c l =
    let research_expired =
      not (is_finalize w.row.kind)
      && not (g.separate_read_budget && is_read w.row.kind)
      && expired now g.research_deadline in
    let l' = record l { running = delete l.running w.id; exclusive = false } in
    if c.is_waiting && not ctx_done && not (research_expired && c.deadline_exceeded)
    then l'
    else if c.failed
    then stop_for (research_expired && not ctx_done) c l'
    else l'
