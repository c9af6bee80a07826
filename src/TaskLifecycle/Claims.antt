-- ===== src/TaskLifecycle/Claims.antt =====
-- The claim of a worker on a task of version 1, which is the instant of `TrySetRunning`.
use blueship.Prelude.{
  ℕ, ◌==◌, String, Bool, true, false, ◌&&◌, Option, none, some, List, [], ◌∷◌, ◌≡◌, ◌≢◌, refl,
  Option-cases, inl, inr, arith,
}
use blueship.Outbox.{Ref}
use blueship.TaskLifecycle.{TaskRow, Store}
use blueship.TaskLifecycle.Draft.{Texts}
use blueship.TaskLifecycle.Finalize.{
  TaskFinalization, lost_claim, finalize_row, finalize_selected, finalize_task_tx,
}
use blueship.TaskLifecycle.Schedule.{StoreOp, apply_op, run_all}
use blueship.TaskLifecycle.Writes.{change_row, is_hit, try_set_running}
use blueship.TaskLifecycle.Submissions.{
  is_claimed, save_task_submission, defer_task_verification, reject_task_submission,
  checkpoint_task,
}

abbrev is_claim : ℕ → Option ℕ → Bool
is_claim c none = false
is_claim c (some d) = d == c

-- A write that a worker makes under its claim.
unfoldable pub is_under : ℕ → StoreOp → Bool
is_under c (StoreOp.submit now claim output) = claim == c
is_under c (StoreOp.defer claim reason next_at) = claim == c
is_under c (StoreOp.reject claim p) = claim == c
is_under c (StoreOp.checkpoint claim n session phase output p) = claim == c
is_under c (StoreOp.finalize now ctx_run fresh given) = is_claim c given.claim_started_at
is_under c _ = false

unfoldable pub all_under : ℕ → List StoreOp → Bool
all_under c [] = true
all_under c (op ∷ ops) = is_under c op && all_under c ops

-- The claim of a task that another worker has taken later is not current.
is_claimed-lost :
    (now claim : ℕ) (db db' : Store)
    → try_set_running now db ≡ (db', true)
    → claim ≢ now
    → is_hit (is_claimed claim) db'.task ≡ false
unfolding try_set_running is_hit change_row
is_claimed-lost now claim db db' h other = ground arith

lost_claim-lost :
    (now claim : ℕ) (db db' : Store) (t : TaskRow)
    → try_set_running now db ≡ (db', true)
    → claim ≢ now
    → db'.task ≡ some t
    → lost_claim (some claim) t ≡ true
unfolding try_set_running is_hit change_row lost_claim
lost_claim-lost now claim db db' t h other e = ground arith

-- The claim `claim` on the task of `db` is not current.
record Stale (claim : ℕ) (db : Store) : Type 0 where
  unclaimed : is_hit (is_claimed claim) db.task ≡ false
  lost : (t : TaskRow) → db.task ≡ some t → lost_claim (some claim) t ≡ true

try_set_running-Stale :
    (now claim : ℕ) (db db' : Store)
    → try_set_running now db ≡ (db', true)
    → claim ≢ now
    → Stale claim db'
try_set_running-Stale now claim db db' h other = record {
  unclaimed = is_claimed-lost now claim db db' h other;
  lost = λ t e. lost_claim-lost now claim db db' t h other e;
}

unclaimed_at :
    (claim c : ℕ) (db : Store)
    → Stale claim db
    → (c == claim) ≡ true
    → is_hit (is_claimed c) db.task ≡ false
unclaimed_at claim c db stale same = let e : c ≡ claim = ground arith in rw e stale.unclaimed

module _ (texts : Texts) (key : List Ref → String) (version_key : ℕ → String)
    (merge : String → String → String) (metadata : String → ℕ → String → String)
    (peer_of : String → Option String) where
  finalize-Stale :
      (now : ℕ) (c : Option ℕ) (fresh claim : ℕ) (given : TaskFinalization) (db : Store)
      → Stale claim db
      → given.claim_started_at ≡ some claim
      → (finalize_task_tx texts key version_key merge metadata now c fresh given db).0 ≡ db
  unfolding finalize_task_tx finalize_selected finalize_row
  finalize-Stale now c fresh claim given db stale e = elim (Option-cases db.task) [
    | inl n ↦ ground (arith, n)
    | inr (t, n) ↦
        let l : lost_claim given.claim_started_at t ≡ true = rw e (stale.lost t n) in ground arith
  ]

  apply_op-Stale :
      (claim : ℕ) (op : StoreOp) (db : Store)
      → Stale claim db
      → is_under claim op ≡ true
      → apply_op texts key version_key merge metadata peer_of op db ≡ db
  unfolding apply_op is_under save_task_submission defer_task_verification reject_task_submission
      checkpoint_task
  apply_op-Stale claim (StoreOp.submit now c output) db stale under =
      let shut = unclaimed_at claim c db stale under in ground arith
  apply_op-Stale claim (StoreOp.defer c reason next_at) db stale under =
      let shut = unclaimed_at claim c db stale under in ground arith
  apply_op-Stale claim (StoreOp.reject c p) db stale under =
      let shut = unclaimed_at claim c db stale under in ground arith
  apply_op-Stale claim (StoreOp.checkpoint c n session phase output p) db stale under =
      let shut = unclaimed_at claim c db stale under in ground arith
  apply_op-Stale claim (StoreOp.finalize now ctx_run fresh given) db stale under =
      finalize-Stale now ctx_run fresh claim given db stale (ground arith)
  apply_op-Stale claim _ db stale under = absurd (ground arith)

  run_all-Stale :
      (claim : ℕ) (ops : List StoreOp) (db : Store)
      → Stale claim db
      → all_under claim ops ≡ true
      → run_all texts key version_key merge metadata peer_of ops db ≡ db
  unfolding run_all all_under
  run_all-Stale claim [] db stale under = refl
  run_all-Stale claim (op ∷ ops) db stale under =
      let first : is_under claim op ≡ true = ground arith in
      let rest : all_under claim ops ≡ true = ground arith in
      rw (apply_op-Stale claim op db stale first) (run_all-Stale claim ops db stale rest)

  -- Once a worker has taken a task, nothing changes through the writes that carry another claim: no
  -- submission, no deferral and no rejection of one, no checkpoint and no result under it gets in.
  -- Writes that carry no claim, such as `UpdateProgress`, are not meant.
  pub try_set_running-fences :
      (now claim : ℕ) (ops : List StoreOp) (db db' : Store)
      → try_set_running now db ≡ (db', true)
      → claim ≢ now
      → all_under claim ops ≡ true
      → run_all texts key version_key merge metadata peer_of ops db' ≡ db'
  try_set_running-fences now claim ops db db' h other under =
      run_all-Stale claim ops db' (try_set_running-Stale now claim db db' h other) under
