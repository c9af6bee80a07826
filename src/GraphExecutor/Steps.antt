-- ===== src/GraphExecutor/Steps.antt =====
-- `Run`, its workers and everybody else, in steps. A step is a part of the loop up to the next access
-- to the database or to the channel of completions, the end of a worker, or a write to the store by
-- anybody: the heartbeats and checkpoints of the workers are such writes. The instants, the runs'
-- ids and whether a context is done are arbitrary.
use blueship.StepStore.{Row, Db}
use blueship.StepStore.Ops.{claim_task_step}
use blueship.StepStore.Schedule.{Op, apply}
use blueship.GraphExecutor.{
  valid_executor, GraphExecutor, Stop, Completion, Worker, Loop, Turn, full, skip, later,
  out_of_research, claim, new_loop, stop_loop, all_steps_done, consider, claimed, complete_worker,
}
use blueship.GraphExecutor.Workers.{Heartbeat, Execution, end_step}
use blueship.Prelude.{
  true, ℕ, Bool, ◌&&◌, Option, none, some, List, [], ◌∷◌, ◌++◌, ◌≡◌, length, ◌==◌, if◌then◌else◌,
}

-- How `Run` returns: nil, `ErrGraphWaiting`, or the error that stopped it.
pub data Return : Type 0 where
  finished waits : Return
  stops : Stop → Return

-- Where the loop is: at its head, among the steps that it has read with the rest of them to look
-- at, before the test for running workers, at the receipt of a completion, or out of it.
pub data Place : Type 0 where
  head settling receiving : Place
  scanning : (steps rest : List Row) → Place
  returned : Return → Place

pub record State : Type 0 where
  pub db : Db
  pub loop : Loop
  pub place : Place

abbrev pub stop_at : Stop → State → State
stop_at why s = record s { loop = stop_loop why s.loop; place = Place.settling }

-- `TaskSteps` has returned the steps.
unfoldable pub read_steps : List Row → State → State
read_steps [] s = stop_at Stop.no_plan s
read_steps (r ∷ rs) s =
    if all_steps_done (r ∷ rs) && length s.loop.running == 0
    then record s { place = Place.returned Return.finished }
    else record s { place = Place.scanning (r ∷ rs) (r ∷ rs) }

unfoldable pub take_turn :
    GraphExecutor → ℕ → Option ℕ → ℕ → List Row → Row → List Row → State → Turn → State
take_turn g now ctx_run run steps step rest s full = record s { place = Place.settling }
take_turn g now ctx_run run steps step rest s skip = record s { place = Place.scanning steps rest }
take_turn g now ctx_run run steps step rest s (later t) = record s {
  place = Place.scanning steps rest;
}
take_turn g now ctx_run run steps step rest s out_of_research = stop_at Stop.research_budget s
take_turn g now ctx_run run steps step rest s (claim inputs) =
    let (db', result) = claim_task_step now ctx_run step.id run g.lease s.db in
    let (goes_on, loop') = claimed step run inputs result s.loop in
    record s {
      db = db';
      loop = loop';
      place = if goes_on then Place.scanning steps rest else Place.settling;
    }

unfoldable pub settle : State → State
settle s = elim s.loop.running [
  | [] ↦ record s {
    place = Place.returned (elim s.loop.stopped [ none ↦ Return.waits | some e ↦ Return.stops e ]);
  }
  | w ∷ ws ↦ record s { place = Place.receiving }
]

module _ (g : GraphExecutor) where
  pub data Step (s : State) : State → Type 0 where
    others : (op : Op) → Step s (record s { db = apply op s.db })
    sees_context :
        s.place ≡ Place.head → s.loop.stopped ≡ none → Step s (stop_at Stop.context_done s)
    fails_to_read :
        s.place ≡ Place.head → s.loop.stopped ≡ none → Step s (stop_at Stop.store_failed s)
    reads : s.place ≡ Place.head → s.loop.stopped ≡ none → Step s (read_steps s.db.steps s)
    has_stopped :
        (e : Stop)
        → s.place ≡ Place.head
        → s.loop.stopped ≡ some e
        → Step s (record s { place = Place.settling })
    looks :
        (now : ℕ) (ctx_run : Option ℕ) (run : ℕ) (steps : List Row) (step : Row) (rest : List Row)
        → s.place ≡ Place.scanning steps (step ∷ rest)
        → Step s (take_turn g now ctx_run run steps step rest s (consider g now steps s.loop step))
    has_looked :
        (steps : List Row)
        → s.place ≡ Place.scanning steps []
        → Step s (record s { place = Place.settling })
    settles : s.place ≡ Place.settling → Step s (settle s)
    ends_worker :
        (now : ℕ) (ctx_run : Option ℕ) (ctx_done : Bool) (before after : List Worker) (w : Worker)
        (h : Heartbeat) (e : Execution)
        → s.loop.running ≡ before ++ w ∷ after
        → w.completion ≡ none
        → Step s (record s {
          db = (end_step g now ctx_run ctx_done w h e s.db).0;
          loop = record s.loop {
            running =
                before
                ++ record w { completion = some (end_step g now ctx_run ctx_done w h e s.db).1 }
                  ∷ after;
          };
        })
    receives :
        (now : ℕ) (ctx_done : Bool) (before after : List Worker) (w : Worker) (c : Completion)
        → s.place ≡ Place.receiving
        → s.loop.running ≡ before ++ w ∷ after
        → w.completion ≡ some c
        → Step s (record s { loop = complete_worker g now ctx_done w c s.loop; place = Place.head })
    -- the timer or the end of the context
    wakes :
        s.place ≡ Place.receiving → s.loop.stopped ≡ none → Step s (record s { place = Place.head })

  pub data Run (db : Db) : State → Type 0 where
    begins :
        valid_executor g ≡ true → Run db (record { db = db; loop = new_loop; place = Place.head })
    goes : {s s' : State} → Run db s → Step s s' → Run db s'
