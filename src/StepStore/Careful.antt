-- ===== src/StepStore/Careful.antt =====
-- The writes of steps that start nothing (internal/core/task_steps.go, task_run.go).
use blueship.Prelude.Int.{ℤ}
use blueship.Prelude.{ℕ, String, Bool, true, false, Option, ◌≡◌, refl, arith}
use blueship.StepStore.{Row, Checkpoint, is_pending, is_done, is_running, needs_reconciliation}
use blueship.StepStore.Ops.{is_active, fenced, complete_row, checkpoint_row}
use blueship.StepStore.Failures.{
  fail_row, recover_row, resolve_row, lapsed, is_stuck, recovered_status,
}
use blueship.StepStore.Runs.{was_running, orphan_row}
use blueship.StepStore.Invariant.{Tame}

-- A write that starts nothing, leaves finished rows alone and replays no uncertain effect.
pub record Careful (hit : Row → Bool) (change : Row → Row) : Type 0 where
  pub tame : Tame hit change
  pub unfinished : (r : Row) → hit r ≡ true → is_done r.status ≡ false
  pub no_replay :
      (r : Row)
      → hit r ≡ true
      → is_running r.status ≡ true
      → is_pending (change r).status ≡ true
      → needs_reconciliation r ≡ false
  pub no_retry :
      (r : Row) → hit r ≡ true → is_running r.status ≡ false → is_pending (change r).status ≡ false
  pub no_start :
      (r : Row) → hit r ≡ true → is_running r.status ≡ false → is_running (change r).status ≡ false

pub complete-Careful :
    (now : ℕ) (id : String) (run : ℕ) (result : String)
    → Careful (fenced now id run) (complete_row now result)
unfolding complete_row fenced is_active is_pending is_done is_running
complete-Careful now id run result = record {
  tame = record {
    keeps = record {
      id = λ r. refl;
      kind = λ r. refl;
      dependencies = λ r. refl;
      max_attempts = λ r. refl;
      done = λ r h d. ground arith;
    };
    attempts = λ r. refl;
    active = λ r h a. ground arith;
    started = λ r h p. ground arith;
  };
  unfinished = λ r h. ground arith;
  no_replay = λ r h s p. ground arith;
  no_retry = λ r h s. ground arith;
  no_start = λ r h s. ground arith;
}

pub checkpoint-Careful :
    (now : ℕ) (id : String) (run lease : ℕ) (cp : Option Checkpoint)
    → Careful (fenced now id run) (checkpoint_row now lease cp)
unfolding checkpoint_row fenced is_active is_pending is_done is_running
checkpoint-Careful now id run lease cp = record {
  tame = record {
    keeps = record {
      id = λ r. refl;
      kind = λ r. refl;
      dependencies = λ r. refl;
      max_attempts = λ r. refl;
      done = λ r h d. ground arith;
    };
    attempts = λ r. refl;
    active = λ r h a. ground arith;
    started = λ r h p. ground arith;
  };
  unfinished = λ r h. ground arith;
  no_replay = λ r h s p. ground arith;
  no_retry = λ r h s. ground arith;
  no_start = λ r h s. ground arith;
}

pub fail-Careful :
    (now : ℕ) (id : String) (run : ℕ) (reason : String) (retryable : Bool) (delay : ℤ)
    → Careful (fenced now id run) (fail_row now reason retryable delay)
unfolding fail_row fenced is_active is_pending is_done is_running
fail-Careful now id run reason retryable delay = record {
  tame = record {
    keeps = record {
      id = λ r. refl;
      kind = λ r. refl;
      dependencies = λ r. refl;
      max_attempts = λ r. refl;
      done = λ r h d. ground arith;
    };
    attempts = λ r. refl;
    active = λ r h a. ground arith;
    started = λ r h p. ground arith;
  };
  unfinished = λ r h. ground arith;
  no_replay = λ r h s p. ground arith;
  no_retry = λ r h s. ground arith;
  no_start = λ r h s. ground arith;
}

pub recover-Careful : (now : ℕ) → Careful (lapsed now) (recover_row)
unfolding recover_row recovered_status lapsed is_active is_pending is_done is_running
recover-Careful now = record {
  tame = record {
    keeps = record {
      id = λ r. refl;
      kind = λ r. refl;
      dependencies = λ r. refl;
      max_attempts = λ r. refl;
      done = λ r h d. ground arith;
    };
    attempts = λ r. refl;
    active = λ r h a. ground arith;
    started = λ r h p. ground arith;
  };
  unfinished = λ r h. ground arith;
  no_replay = λ r h s p. ground arith;
  no_retry = λ r h s. ground arith;
  no_start = λ r h s. ground arith;
}

pub orphan-Careful : Careful (was_running) (orphan_row)
unfolding orphan_row recovered_status was_running is_active is_pending is_done is_running
orphan-Careful = record {
  tame = record {
    keeps = record {
      id = λ r. refl;
      kind = λ r. refl;
      dependencies = λ r. refl;
      max_attempts = λ r. refl;
      done = λ r h d. ground arith;
    };
    attempts = λ r. refl;
    active = λ r h a. ground arith;
    started = λ r h p. ground arith;
  };
  unfinished = λ r h. ground arith;
  no_replay = λ r h s p. ground arith;
  no_retry = λ r h s. ground arith;
  no_start = λ r h s. ground arith;
}

pub resolve-Careful : (now : ℕ) → Careful (is_stuck) (resolve_row now)
unfolding resolve_row is_stuck is_active is_pending is_done is_running
resolve-Careful now = record {
  tame = record {
    keeps = record {
      id = λ r. refl;
      kind = λ r. refl;
      dependencies = λ r. refl;
      max_attempts = λ r. refl;
      done = λ r h d. ground arith;
    };
    attempts = λ r. refl;
    active = λ r h a. ground arith;
    started = λ r h p. ground arith;
  };
  unfinished = λ r h. ground arith;
  no_replay = λ r h s p. ground arith;
  no_retry = λ r h s. ground arith;
  no_start = λ r h s. ground arith;
}
