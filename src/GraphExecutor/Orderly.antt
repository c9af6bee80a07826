-- ===== src/GraphExecutor/Orderly.antt =====
-- The slots of the workers through a whole run, and that no worker is left when `Run` returns.
use blueship.StepStore.{Row, Db}
use blueship.StepStore.Ops.{claim_task_step}
use blueship.GraphExecutor.{
  GraphExecutor, Stop, Worker, Turn, full, skip, later, out_of_research, claim, consider, claimed,
  all_steps_done,
}
use blueship.GraphExecutor.Steps.{
  Return, Place, State, read_steps, take_turn, settle, Step, Run, others, sees_context,
  fails_to_read, reads, has_stopped, looks, has_looked, settles, ends_worker, receives, wakes,
  begins, goes,
}
use blueship.GraphExecutor.Slots.{
  received-IsSlotted, ended-IsAlike, alike-IsSlotted, take_turn-IsSlotted, stopped-IsSlotted,
  read_steps-IsSlotted, IsSlotted,
}
use blueship.Prelude.{
  ℕ, Bool, true, false, ◌&&◌, Option, List, [], ◌∷◌, ◌++◌, ◌≡◌, refl, sym, ◌∙◌, length,
  if◌then◌else◌, arith, ◌==◌,
}

-- Nobody runs once `Run` has returned.
abbrev pub IsDrained : Place → List Worker → Type 0
IsDrained (Place.returned r) ws = ws ≡ []
IsDrained _ ws = Unit

settle_lem :
    (g : GraphExecutor) (s : State) (ws : List Worker)
    → s.loop.running ≡ ws
    → IsSlotted g s.loop
    → IsSlotted g (settle s).loop × IsDrained (settle s).place (settle s).loop.running
unfolding settle
settle_lem g s [] e i = rw (e, settle) (i, e)
settle_lem g s (w ∷ ws) e i = rw (e, settle) (i, tt)

-- Both.
abbrev pub IsOrderly : GraphExecutor → State → Type 0
IsOrderly g s = IsSlotted g s.loop × IsDrained s.place s.loop.running

take_turn-IsDrained :
    (g : GraphExecutor) (now : ℕ) (ctx_run : Option ℕ) (run : ℕ) (steps : List Row) (step : Row)
    (rest : List Row) (s : State) (turn : Turn) (ws : List Worker)
    → IsDrained (take_turn g now ctx_run run steps step rest s turn).place ws
unfolding take_turn
take_turn-IsDrained g now ctx_run run steps step rest s full ws = tt
take_turn-IsDrained g now ctx_run run steps step rest s skip ws = tt
take_turn-IsDrained g now ctx_run run steps step rest s (later t) ws = tt
take_turn-IsDrained g now ctx_run run steps step rest s out_of_research ws = tt
take_turn-IsDrained g now ctx_run run steps step rest s (claim inputs) ws =
    free (claimed step run inputs (claim_task_step now ctx_run step.id run g.lease s.db).1 s.loop).0
  where
    free :
        (goes_on : Bool)
        → IsDrained (if goes_on then Place.scanning steps rest else Place.settling) ws
    free true = tt
    free false = tt

placed-IsDrained :
    (b : Bool) (p q : Place) (s : State)
    → (b ≡ true → IsDrained p s.loop.running)
    → IsDrained q s.loop.running
    → IsDrained
        (if b then record s { place = p } else record s { place = q }).place
        (if b then record s { place = p } else record s { place = q }).loop.running
placed-IsDrained true p q s hp hq = hp refl
placed-IsDrained false p q s hp hq = hq

length_zero : (ws : List Worker) → length ws ≡ 0 → ws ≡ []
length_zero [] h = refl
length_zero (w ∷ ws) h = absurd (omega (arith, h))

read_steps-IsDrained :
    (steps : List Row) (s : State)
    → IsDrained (read_steps steps s).place (read_steps steps s).loop.running
unfolding read_steps
read_steps-IsDrained [] s = tt
read_steps-IsDrained (r ∷ rs) s =
    placed-IsDrained (all_steps_done (r ∷ rs) && length s.loop.running == 0)
      (Place.returned Return.finished) (Place.scanning (r ∷ rs) (r ∷ rs)) s
      (λ h. length_zero s.loop.running (ground (arith, h))) tt

pub not_empty : (before after : List Worker) (w : Worker) → [] ≡ before ++ w ∷ after → ⊥
not_empty [] after w e = cc
not_empty (v ∷ before) after w e = cc

ended-IsDrained :
    (p : Place) (before after : List Worker) (w w' : Worker) (ws : List Worker)
    → ws ≡ before ++ w ∷ after
    → IsDrained p ws
    → IsDrained p (before ++ w' ∷ after)
ended-IsDrained (Place.returned r) before after w w' ws e d =
    absurd (not_empty before after w (sym d ∙ e))
ended-IsDrained Place.head before after w w' ws e d = tt
ended-IsDrained Place.settling before after w w' ws e d = tt
ended-IsDrained Place.receiving before after w w' ws e d = tt
ended-IsDrained (Place.scanning steps rest) before after w w' ws e d = tt

Step-IsOrderly : (g : GraphExecutor) (s s' : State) → Step g s s' → IsOrderly g s → IsOrderly g s'
Step-IsOrderly g s s' (others op) i = i
Step-IsOrderly g s s' (sees_context p o) i = (stopped-IsSlotted g Stop.context_done s.loop i.0, tt)
Step-IsOrderly g s s' (fails_to_read p o) i = (stopped-IsSlotted g Stop.store_failed s.loop i.0, tt)
Step-IsOrderly g s s' (reads p o) i =
    (read_steps-IsSlotted g s.db.steps s i.0, read_steps-IsDrained s.db.steps s)
Step-IsOrderly g s s' (has_stopped e p o) i = (i.0, tt)
Step-IsOrderly g s s' (looks now ctx_run run steps step rest p) i = (
  take_turn-IsSlotted g now ctx_run run steps step rest s (consider g now steps s.loop step) refl
      i.0,
  take_turn-IsDrained g now ctx_run run steps step rest s (consider g now steps s.loop step) _,
)
Step-IsOrderly g s s' (has_looked steps p) i = (i.0, tt)
Step-IsOrderly g s s' (settles p) i = settle_lem g s s.loop.running refl i.0
Step-IsOrderly g s s' (ends_worker now ctx_run ctx_done before after w h e split none_sent) i = (
  alike-IsSlotted g s.loop (before ++ w ∷ after) _ split (ended-IsAlike before after w _) i.0,
  ended-IsDrained s.place before after w _ s.loop.running split i.1,
)
Step-IsOrderly g s s' (receives now ctx_done before after w c p split sent) i =
    (received-IsSlotted g now ctx_done before after w c s.loop split i.0, tt)
Step-IsOrderly g s s' (wakes p o) i = (i.0, tt)

-- At every moment of a run of the executor no more workers run than ParallelReads, a worker for a step
-- that is not a read runs alone, and when Run has returned none is left.
pub Run-IsOrderly : (g : GraphExecutor) (db : Db) (s : State) → Run g db s → IsOrderly g s
Run-IsOrderly g db s (begins v) =
    (record { bound = omega arith; alone = λ x. omega arith; shared = λ x. tt }, tt)
Run-IsOrderly g db s' (goes {s = s} r step) = Step-IsOrderly g s s' step (Run-IsOrderly g db s r)
