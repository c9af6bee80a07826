-- ===== src/GraphExecutor/Schedules.antt =====
-- The executor against the step store: whatever it does to the database is a schedule of the store's
-- operations.
use Prim.Native.String.{◌++◌ as str_append}
use blueship.StepStore.{Row, Db}
use blueship.StepStore.Schedule.{Op, apply, run_ops}
use blueship.GraphExecutor.{
  GraphExecutor, Worker, Turn, full, skip, later, out_of_research, claim, all_steps_done, consider,
}
use blueship.GraphExecutor.Workers.{
  Heartbeat, Execution, fail_worker, end_execution, end_step, alive, lost_claim, broken, done,
  error, is_retry, delay_of,
}
use blueship.GraphExecutor.Steps.{
  Place, State, read_steps, take_turn, settle, Step, Run, others, sees_context, fails_to_read,
  reads, has_stopped, looks, has_looked, settles, ends_worker, receives, wakes, begins, goes,
}
use blueship.Prelude.Int.{ℤ, pos}
use blueship.Prelude.{
  ℕ, String, Bool, true, false, not, ◌&&◌, ◌||◌, ◌⊎◌, inl, inr, Option, none, List, [], ◌∷◌, ◌++◌,
  ◌≡◌, refl, sym, ◌∙◌, ap, if◌then◌else◌, Bool-cases, is_blank, length, ◌==◌,
}

-- A database that is as before or has taken one operation of the store.
IsOneOp : Db → Db → Type 0
IsOneOp db db' = (db' ≡ db) ⊎ ((op : Op) × (db' ≡ apply op db))

fail_worker-IsOneOp :
    (now : ℕ) (ctx_run : Option ℕ) (w : Worker) (reason : String) (retry : Option ℤ)
    (exceeded : Bool) (db : Db)
    → IsOneOp db (fail_worker now ctx_run w reason retry exceeded db).0
unfolding fail_worker IsOneOp apply
fail_worker-IsOneOp now ctx_run w reason retry exceeded db =
    inr (Op.fail now ctx_run w.id w.run reason (is_retry retry) (delay_of retry), refl)

end_execution-IsOneOp :
    (now : ℕ) (ctx_run : Option ℕ) (w : Worker) (e : Execution) (db : Db)
    → IsOneOp db (end_execution now ctx_run w e db).0
unfolding end_execution IsOneOp apply
end_execution-IsOneOp now ctx_run w (error reason retry exceeded) db =
    fail_worker-IsOneOp now ctx_run w reason retry exceeded db
end_execution-IsOneOp now ctx_run w (done accepted output) db =
    elim (Bool-cases (not accepted || is_blank output)) [
      | inl t ↦
          rw (t, end_execution)
            (unfold IsOneOp in
              fail_worker-IsOneOp now ctx_run w
                (str_append "step " (str_append w.id " did not pass acceptance")) none false db)
      | inr f ↦ rw (f, end_execution) (inr (Op.complete now ctx_run w.id w.run output, refl))
    ]

end_step-IsOneOp :
    (g : GraphExecutor) (now : ℕ) (ctx_run : Option ℕ) (ctx_done : Bool) (w : Worker)
    (h : Heartbeat) (e : Execution) (db : Db)
    → IsOneOp db (end_step g now ctx_run ctx_done w h e db).0
unfolding end_step IsOneOp apply
end_step-IsOneOp g now ctx_run ctx_done w alive e db = end_execution-IsOneOp now ctx_run w e db
end_step-IsOneOp g now ctx_run ctx_done w lost_claim e db = inl refl
end_step-IsOneOp g now ctx_run ctx_done w (broken reason exceeded) e db =
    inr (Op.fail now ctx_run w.id w.run reason true (pos 0), refl)

take_turn-IsOneOp :
    (g : GraphExecutor) (now : ℕ) (ctx_run : Option ℕ) (run : ℕ) (steps : List Row) (step : Row)
    (rest : List Row) (s : State) (turn : Turn)
    → IsOneOp s.db (take_turn g now ctx_run run steps step rest s turn).db
unfolding take_turn IsOneOp apply
take_turn-IsOneOp g now ctx_run run steps step rest s (claim inputs) =
    inr (Op.claim now ctx_run step.id run g.lease, refl)
take_turn-IsOneOp g now ctx_run run steps step rest s full = inl refl
take_turn-IsOneOp g now ctx_run run steps step rest s skip = inl refl
take_turn-IsOneOp g now ctx_run run steps step rest s (later t) = inl refl
take_turn-IsOneOp g now ctx_run run steps step rest s out_of_research = inl refl

placed-db :
    (b : Bool) (p q : Place) (s : State)
    → (if b then record s { place = p } else record s { place = q }).db ≡ s.db
placed-db true p q s = refl
placed-db false p q s = refl

read_steps-db : (steps : List Row) (s : State) → (read_steps steps s).db ≡ s.db
unfolding read_steps
read_steps-db [] s = refl
read_steps-db (r ∷ rs) s = placed-db (all_steps_done (r ∷ rs) && length s.loop.running == 0) _ _ s

settle-db : (s : State) (ws : List Worker) → s.loop.running ≡ ws → (settle s).db ≡ s.db
unfolding settle
settle-db s [] e = rw (e, settle) refl
settle-db s (w ∷ ws) e = rw (e, settle) refl

Step-IsOneOp : (g : GraphExecutor) (s s' : State) → Step g s s' → IsOneOp s.db s'.db
unfolding IsOneOp
Step-IsOneOp g s s' (others op) = inr (op, refl)
Step-IsOneOp g s s' (sees_context p o) = inl refl
Step-IsOneOp g s s' (fails_to_read p o) = inl refl
Step-IsOneOp g s s' (reads p o) = inl (read_steps-db s.db.steps s)
Step-IsOneOp g s s' (has_stopped e p o) = inl refl
Step-IsOneOp g s s' (looks now ctx_run run steps step rest p) =
    take_turn-IsOneOp g now ctx_run run steps step rest s (consider g now steps s.loop step)
Step-IsOneOp g s s' (has_looked steps p) = inl refl
Step-IsOneOp g s s' (settles p) = inl (settle-db s s.loop.running refl)
Step-IsOneOp g s s' (ends_worker now ctx_run ctx_done before after w h e split none_sent) =
    end_step-IsOneOp g now ctx_run ctx_done w h e s.db
Step-IsOneOp g s s' (receives now ctx_done before after w c p split sent) = inl refl
Step-IsOneOp g s s' (wakes p o) = inl refl

run_ops-snoc :
    (ops : List Op) (op : Op) (db : Db) → run_ops (ops ++ op ∷ []) db ≡ apply op (run_ops ops db)
unfolding run_ops
run_ops-snoc [] op db = refl
run_ops-snoc (o ∷ ops) op db = run_ops-snoc ops op (apply o db)

-- The database of a run is that of a schedule of store operations.
pub Run-run_ops :
    (g : GraphExecutor) (db : Db) (s : State)
    → Run g db s
    → (ops : List Op) × (s.db ≡ run_ops ops db)
unfolding run_ops IsOneOp
Run-run_ops g db s (begins v) = ([], refl)
Run-run_ops g db s' (goes {s = s} r step) =
    let (ops, e) = Run-run_ops g db s r in
    elim (Step-IsOneOp g s s' step) [
      | inl same ↦ (ops, same ∙ e)
      | inr (op, one) ↦ (ops ++ op ∷ [], one ∙ ap (apply op) e ∙ sym (run_ops-snoc ops op db))
    ]
