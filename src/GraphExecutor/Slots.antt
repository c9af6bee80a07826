-- ===== src/GraphExecutor/Slots.antt =====
-- How many workers run beside each other, for every part of the loop.
use blueship.StepStore.{Row, Result, ok, err, is_read}
use blueship.StepStore.Ops.{claim_task_step}
use blueship.GraphExecutor.{
  GraphExecutor, Stop, Completion, Worker, Loop, Turn, full, skip, later, out_of_research, claim,
  stop_loop, delete, consider, start_worker, claimed, complete_worker,
}
use blueship.GraphExecutor.Steps.{Place, State, read_steps, take_turn}
use blueship.Prelude.{
  ℕ, suc, ◌≤◌, ◌<◌, String, Bool, true, false, ◌⊎◌, inl, inr, Option, none, some, List, [], ◌∷◌,
  ◌++◌, ◌≡◌, refl, sym, ◌∙◌, ap, All, length, length-append, if◌then◌else◌, str_eq, eq_iff, arith,
  Bool-cases, true≢false, subst,
}

abbrev pub IsReader : Worker → Type 0
IsReader w = is_read w.kind ≡ true

-- At most so many workers; one that is no read runs alone.
pub record IsSlotted (g : GraphExecutor) (l : Loop) : Type 0 where
  pub bound : length l.running ≤ g.parallel_reads
  pub alone : l.exclusive ≡ true → length l.running ≤ 1
  pub shared : l.exclusive ≡ false → All IsReader l.running

length-delete : (ws : List Worker) (id : String) → length (delete ws id) ≤ length ws
unfolding delete
length-delete [] id = omega arith
length-delete (w ∷ ws) id = ground (arith, length-delete ws id)

delete-All :
    (P : Worker → Type 0) (ws : List Worker) (id : String) → All P ws → All P (delete ws id)
unfolding delete
delete-All P [] id h = tt
delete-All P (w ∷ ws) id h = elim (Bool-cases (str_eq w.id id)) [
  | inl e ↦ rw (e, delete) (delete-All P ws id h.1)
  | inr e ↦ rw (e, delete) (h.0, delete-All P ws id h.1)
]

-- A worker that runs alone leaves nobody.
delete_only :
    (ws before after : List Worker) (w : Worker)
    → ws ≡ before ++ w ∷ after
    → length ws ≤ 1
    → delete ws w.id ≡ []
unfolding delete
delete_only ws [] [] w e h = rw e (rw ((eq_iff w.id w.id).1 refl, delete) refl)
delete_only ws [] (v ∷ after) w e h = absurd (omega (arith, ap length e, h))
delete_only ws (v ∷ before) after w e h =
    absurd (omega (arith, ap length e, length-append before (w ∷ after), h))

consider-claim :
    (g : GraphExecutor) (now : ℕ) (steps : List Row) (l : Loop) (step : Row)
    (inputs : List (String × String))
    → consider g now steps l step ≡ claim inputs
    → (l.exclusive ≡ false)
      × (length l.running < g.parallel_reads)
      × ((is_read step.kind ≡ true) ⊎ (length l.running ≡ 0))
unfolding consider
consider-claim g now steps l step inputs h = ground arith

start_worker-IsSlotted :
    (g : GraphExecutor) (step row : Row) (run : ℕ) (inputs : List (String × String)) (l : Loop)
    → l.exclusive ≡ false
    → length l.running < g.parallel_reads
    → (is_read step.kind ≡ true) ⊎ (length l.running ≡ 0)
    → IsSlotted g l
    → IsSlotted g (start_worker step row run inputs l)
unfolding start_worker
start_worker-IsSlotted g step row run inputs l off room kind s = record {
  bound = omega (arith, room);
  alone = λ x. ground (arith, kind, x);
  shared = λ x. (ground (arith, x), s.shared off);
}

claimed-IsSlotted :
    (g : GraphExecutor) (step : Row) (run : ℕ) (inputs : List (String × String))
    (result : Result (Option Row)) (l : Loop)
    → l.exclusive ≡ false
    → length l.running < g.parallel_reads
    → (is_read step.kind ≡ true) ⊎ (length l.running ≡ 0)
    → IsSlotted g l
    → IsSlotted g (claimed step run inputs result l).1
unfolding claimed
claimed-IsSlotted g step run inputs (err e) l off room kind s = record {
  bound = s.bound;
  alone = s.alone;
  shared = s.shared;
}
claimed-IsSlotted g step run inputs (ok none) l off room kind s = s
claimed-IsSlotted g step run inputs (ok (some row)) l off room kind s =
    start_worker-IsSlotted g step row run inputs l off room kind s

-- What the receipt of a completion leaves.
complete_worker-running :
    (g : GraphExecutor) (now : ℕ) (ctx_done : Bool) (w : Worker) (c : Completion) (l : Loop)
    → ((complete_worker g now ctx_done w c l).running ≡ delete l.running w.id)
      × ((complete_worker g now ctx_done w c l).exclusive ≡ false)
unfolding complete_worker
complete_worker-running g now ctx_done w c l = (ground arith, ground arith)

pub received-IsSlotted :
    (g : GraphExecutor) (now : ℕ) (ctx_done : Bool) (before after : List Worker) (w : Worker)
    (c : Completion) (l : Loop)
    → l.running ≡ before ++ w ∷ after
    → IsSlotted g l
    → IsSlotted g (complete_worker g now ctx_done w c l)
received-IsSlotted g now ctx_done before after w c l e s =
    let (left, off) = complete_worker-running g now ctx_done w c l in
    record {
      bound = omega (arith, ap length left, length-delete l.running w.id, s.bound);
      alone = λ x. absurd (true≢false (sym x ∙ off));
      shared = λ _. subst (All IsReader) (sym left) (readers (Bool-cases l.exclusive));
    }
  where
    readers : (l.exclusive ≡ true) ⊎ (l.exclusive ≡ false) → All IsReader (delete l.running w.id)
    readers (inl x) =
        subst (All IsReader) (sym (delete_only l.running before after w e (s.alone x))) tt
    readers (inr x) = delete-All IsReader l.running w.id (s.shared x)

-- Two lists of workers of the same kinds.
abbrev IsAlike : List Worker → List Worker → Type 0
IsAlike ws ws' = (length ws' ≡ length ws) × (All IsReader ws → All IsReader ws')

pub ended-IsAlike :
    (before after : List Worker) (w : Worker) (c : Option Completion)
    → IsAlike (before ++ w ∷ after) (before ++ record w { completion = c } ∷ after)
ended-IsAlike [] after w c = (refl, λ h. h)
ended-IsAlike (v ∷ before) after w c =
    let (same, readers) = ended-IsAlike before after w c in (ap suc same, λ h. (h.0, readers h.1))

pub alike-IsSlotted :
    (g : GraphExecutor) (l : Loop) (ws ws' : List Worker)
    → l.running ≡ ws
    → IsAlike ws ws'
    → IsSlotted g l
    → IsSlotted g (record l { running = ws' })
alike-IsSlotted g l ws ws' e (same, readers) s = record {
  bound = omega (arith, same, ap length e, s.bound);
  alone = λ x. omega (arith, same, ap length e, s.alone x);
  shared = λ x. readers (subst (All IsReader) e (s.shared x));
}

pub take_turn-IsSlotted :
    (g : GraphExecutor) (now : ℕ) (ctx_run : Option ℕ) (run : ℕ) (steps : List Row) (step : Row)
    (rest : List Row) (s : State) (turn : Turn)
    → consider g now steps s.loop step ≡ turn
    → IsSlotted g s.loop
    → IsSlotted g (take_turn g now ctx_run run steps step rest s turn).loop
unfolding take_turn
take_turn-IsSlotted g now ctx_run run steps step rest s full e i = i
take_turn-IsSlotted g now ctx_run run steps step rest s skip e i = i
take_turn-IsSlotted g now ctx_run run steps step rest s (later t) e i = i
take_turn-IsSlotted g now ctx_run run steps step rest s out_of_research e i = record {
  bound = i.bound;
  alone = i.alone;
  shared = i.shared;
}
take_turn-IsSlotted g now ctx_run run steps step rest s (claim inputs) e i =
    let (off, room, kind) = consider-claim g now steps s.loop step inputs e in
    claimed-IsSlotted g step run inputs (claim_task_step now ctx_run step.id run g.lease s.db).1
      s.loop off room kind i

pub stopped-IsSlotted :
    (g : GraphExecutor) (why : Stop) (l : Loop) → IsSlotted g l → IsSlotted g (stop_loop why l)
stopped-IsSlotted g why l i = record { bound = i.bound; alone = i.alone; shared = i.shared }

placed-IsSlotted :
    (g : GraphExecutor) (b : Bool) (p q : Place) (s : State)
    → IsSlotted g s.loop
    → IsSlotted g (if b then record s { place = p } else record s { place = q }).loop
placed-IsSlotted g true p q s i = i
placed-IsSlotted g false p q s i = i

pub read_steps-IsSlotted :
    (g : GraphExecutor) (steps : List Row) (s : State)
    → IsSlotted g s.loop
    → IsSlotted g (read_steps steps s).loop
unfolding read_steps
read_steps-IsSlotted g [] s i = stopped-IsSlotted g Stop.no_plan s.loop i
read_steps-IsSlotted g (r ∷ rs) s i = placed-IsSlotted g _ _ _ s i
