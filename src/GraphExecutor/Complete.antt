-- ===== src/GraphExecutor/Complete.antt =====
-- `Run` reports a finished task only when every step is done.
use blueship.StepStore.{Row, Db, is_done}
use blueship.StepStore.Ops.{claim_task_step}
use blueship.StepStore.Schedule.{Op, apply, run_ops}
use blueship.StepStore.Safety.{Each, Final, run_ops-Final}
use blueship.GraphExecutor.{
  GraphExecutor, Worker, Turn, full, skip, later, out_of_research, claim, all_steps_done, consider,
  claimed, Stop,
}
use blueship.GraphExecutor.Steps.{
  Return, Place, State, read_steps, take_turn, settle, Step, Run, others, sees_context,
  fails_to_read, reads, has_stopped, looks, has_looked, settles, ends_worker, receives, wakes,
  begins, goes,
}
use blueship.GraphExecutor.Orderly.{IsDrained, not_empty, Run-IsOrderly}
use blueship.Prelude.{
  ℕ, Bool, true, false, ◌&&◌, Option, none, some, List, [], ◌∷◌, ◌++◌, ◌≡◌, refl, sym, ◌∙◌, ap,
  subst, if◌then◌else◌, arith, length, ◌==◌,
}

both : (a b : Bool) → (a && b) ≡ true → (a ≡ true) × (b ≡ true)
both a b h = ground arith

Final-all_steps_done :
    (rows rows' : List Row)
    → Each Final rows rows'
    → all_steps_done rows ≡ true
    → all_steps_done rows' ≡ true
unfolding all_steps_done
Final-all_steps_done [] [] h d = refl
Final-all_steps_done (r ∷ rows) (r' ∷ rows') h d =
    let (here, rest) = both (is_done r.status) (all_steps_done rows) d in
    ground (
      arith,
      ap (λ x. is_done x.status) (h.0 here) ∙ here,
      Final-all_steps_done rows rows' h.1 rest,
    )
Final-all_steps_done [] (r' ∷ rows') h d = absurd h
Final-all_steps_done (r ∷ rows) [] h d = absurd h

-- A plan that is reported as finished.
abbrev pub IsComplete : Place → Db → Type 0
IsComplete (Place.returned Return.finished) db = all_steps_done db.steps ≡ true
IsComplete _ db = Unit

kept-IsComplete : (p : Place) (db : Db) (op : Op) → IsComplete p db → IsComplete p (apply op db)
kept-IsComplete (Place.returned Return.finished) db op d =
    Final-all_steps_done db.steps (apply op db).steps (unfold run_ops in run_ops-Final (op ∷ []) db)
      d
kept-IsComplete (Place.returned Return.waits) db op d = tt
kept-IsComplete (Place.returned (Return.stops e)) db op d = tt
kept-IsComplete Place.head db op d = tt
kept-IsComplete Place.settling db op d = tt
kept-IsComplete Place.receiving db op d = tt
kept-IsComplete (Place.scanning steps rest) db op d = tt

read_steps-IsComplete :
    (steps : List Row) (s : State)
    → s.db.steps ≡ steps
    → IsComplete (read_steps steps s).place (read_steps steps s).db
unfolding read_steps
read_steps-IsComplete [] s e = tt
read_steps-IsComplete (r ∷ rs) s e =
    placed (all_steps_done (r ∷ rs) && length s.loop.running == 0)
      (λ h. ap all_steps_done e ∙ (both (all_steps_done (r ∷ rs)) (length s.loop.running == 0) h).0)
  where
    placed :
        (b : Bool)
        → (b ≡ true → all_steps_done s.db.steps ≡ true)
        → IsComplete
            (if b
              then record s { place = Place.returned Return.finished }
              else record s { place = Place.scanning (r ∷ rs) (r ∷ rs) }).place
            (if b
              then record s { place = Place.returned Return.finished }
              else record s { place = Place.scanning (r ∷ rs) (r ∷ rs) }).db
    placed true h = h refl
    placed false h = tt

take_turn-IsComplete :
    (g : GraphExecutor) (now : ℕ) (ctx_run : Option ℕ) (run : ℕ) (steps : List Row) (step : Row)
    (rest : List Row) (s : State) (turn : Turn) (db : Db)
    → IsComplete (take_turn g now ctx_run run steps step rest s turn).place db
unfolding take_turn
take_turn-IsComplete g now ctx_run run steps step rest s full db = tt
take_turn-IsComplete g now ctx_run run steps step rest s skip db = tt
take_turn-IsComplete g now ctx_run run steps step rest s (later t) db = tt
take_turn-IsComplete g now ctx_run run steps step rest s out_of_research db = tt
take_turn-IsComplete g now ctx_run run steps step rest s (claim inputs) db =
    free (claimed step run inputs (claim_task_step now ctx_run step.id run g.lease s.db).1 s.loop).0
  where
    free :
        (goes_on : Bool)
        → IsComplete (if goes_on then Place.scanning steps rest else Place.settling) db
    free true = tt
    free false = tt

settle-IsComplete :
    (s : State) (ws : List Worker) (why : Option Stop) (db : Db)
    → s.loop.running ≡ ws
    → s.loop.stopped ≡ why
    → IsComplete (settle s).place db
unfolding settle
settle-IsComplete s [] none db e o = rw (e, o, settle) tt
settle-IsComplete s [] (some x) db e o = rw (e, o, settle) tt
settle-IsComplete s (w ∷ ws) why db e o = rw (e, settle) tt

-- A worker is left only where the place is no return.
busy-IsComplete :
    (p : Place) (before after : List Worker) (w : Worker) (ws : List Worker) (db : Db)
    → ws ≡ before ++ w ∷ after
    → IsDrained p ws
    → IsComplete p db
busy-IsComplete (Place.returned r) before after w ws db e d =
    absurd (not_empty before after w (sym d ∙ e))
busy-IsComplete Place.head before after w ws db e d = tt
busy-IsComplete Place.settling before after w ws db e d = tt
busy-IsComplete Place.receiving before after w ws db e d = tt
busy-IsComplete (Place.scanning steps rest) before after w ws db e d = tt

Step-IsComplete :
    (g : GraphExecutor) (s s' : State)
    → Step g s s'
    → IsDrained s.place s.loop.running
    → IsComplete s.place s.db
    → IsComplete s'.place s'.db
Step-IsComplete g s s' (others op) d i = kept-IsComplete s.place s.db op i
Step-IsComplete g s s' (sees_context p o) d i = tt
Step-IsComplete g s s' (fails_to_read p o) d i = tt
Step-IsComplete g s s' (reads p o) d i = read_steps-IsComplete s.db.steps s refl
Step-IsComplete g s s' (has_stopped e p o) d i = tt
Step-IsComplete g s s' (looks now ctx_run run steps step rest p) d i =
    take_turn-IsComplete g now ctx_run run steps step rest s (consider g now steps s.loop step) _
Step-IsComplete g s s' (has_looked steps p) d i = tt
Step-IsComplete g s s' (settles p) d i =
    settle-IsComplete s s.loop.running s.loop.stopped _ refl refl
Step-IsComplete g s s' (ends_worker now ctx_run ctx_done before after w h e split none_sent) d i =
    busy-IsComplete s.place before after w s.loop.running _ split d
Step-IsComplete g s s' (receives now ctx_done before after w c p split sent) d i = tt
Step-IsComplete g s s' (wakes p o) d i = tt

-- When Run has returned nil, every step of the plan is done, now and whatever is done to it later.
pub Run-IsComplete :
    (g : GraphExecutor) (db : Db) (s : State)
    → s.place ≡ Place.returned Return.finished
    → Run g db s
    → all_steps_done s.db.steps ≡ true
Run-IsComplete g db s e r = subst (λ p. IsComplete p s.db) e (complete r)
  where
    complete : {s : State} → Run g db s → IsComplete s.place s.db
    complete (begins v) = tt
    complete {s = s'} (goes {s = s} r step) =
        Step-IsComplete g s s' step (Run-IsOrderly g db s r).1 (complete r)
