-- ===== src/TaskLifecycle/Outcome.antt =====
-- What may stand after `finalizeTaskTx`.
use blueship.Prelude.{
  ℕ, ◌+◌, String, Bool, true, false, ◌&&◌, Option, none, some, List, [], ◌∷◌, ◌≡◌, refl, arith, ltb,
  ◌⊎◌, eq_iff, leb, str_eq, if◌then◌else◌,
}
use blueship.TaskLifecycle.{
  TaskStatus, is_recurring, task_runs_to_completion, TaskRow, TaskArtifact, Store, StoreResult, ok,
  err, is_open, is_terminal,
}
use blueship.TaskLifecycle.Draft.{Texts, clean_task_draft}
use blueship.TaskLifecycle.Finalize.{
  TaskFinalization, task_terminal_status, before_deadline, last_version,
}
use blueship.TaskLifecycle.Announced.{Announced}

pub task_terminal_status-is_terminal :
    (t : TaskRow) (outcome : String) → is_terminal (task_terminal_status t outcome) ≡ true
unfolding task_terminal_status is_terminal
task_terminal_status-is_terminal t outcome = ground arith

-- Every result's version is below `v`.
unfoldable pub all_below : ℕ → List TaskArtifact → Bool
all_below v [] = true
all_below v (a ∷ artifacts) = ltb a.version v && all_below v artifacts

all_below-leb :
    (v w : ℕ) (artifacts : List TaskArtifact)
    → leb v w ≡ true
    → all_below v artifacts ≡ true
    → all_below w artifacts ≡ true
unfolding all_below
all_below-leb v w [] h k = refl
all_below-leb v w (a ∷ artifacts) h k =
    let rest : all_below v artifacts ≡ true = ground arith in
    let more = all_below-leb v w artifacts h rest in ground arith

pub last_version-is_last :
    (artifacts : List TaskArtifact) → all_below (last_version artifacts + 1) artifacts ≡ true
unfolding all_below last_version
last_version-is_last [] = refl
last_version-is_last (a ∷ artifacts) =
    let rest =
      all_below-leb (last_version artifacts + 1) (last_version (a ∷ artifacts) + 1) artifacts
        (ground arith) (last_version-is_last artifacts) in
    ground arith

-- The body that was given is a result, and the deadline has not passed.
unfoldable pub IsEarned : Texts → ℕ → TaskFinalization → TaskRow → Type 0
IsEarned texts now given t =
    (before_deadline now t.deadline ≡ true)
    × (str_eq (clean_task_draft texts given.body) "" ≡ false)

-- What counts as done: a completed result, or a partial one of a graph that runs once.
unfoldable pub IsReport : TaskRow → String → Type 0
IsReport t outcome =
    (str_eq outcome "completed" ≡ true)
    ⊎ ((str_eq outcome "partial" ≡ true) × (t.executor_version ≡ 2) × (is_recurring t ≡ false))

pub task_terminal_status-done :
    (t : TaskRow) (outcome : String)
    → str_eq outcome "completed" ≡ true
    → task_terminal_status t outcome ≡ TaskStatus.done
unfolding task_terminal_status
task_terminal_status-done t outcome h = ground arith

pub task_terminal_status-canceled :
    (t : TaskRow) (outcome : String)
    → str_eq outcome "cancelled" ≡ true
    → task_terminal_status t outcome ≡ TaskStatus.canceled
unfolding task_terminal_status
task_terminal_status-canceled t outcome h =
    let is : outcome ≡ "cancelled" = ground (arith, eq_iff outcome "cancelled") in rw is refl

pub task_terminal_status-IsReport :
    (t : TaskRow) (outcome : String)
    → task_terminal_status t outcome ≡ TaskStatus.done
    → IsReport t outcome
unfolding task_terminal_status task_runs_to_completion IsReport
task_terminal_status-IsReport t outcome h = ground arith

-- A result that is there.
pub record Finished (texts : Texts) (now : ℕ) (given : TaskFinalization) (db db' : Store)
    (a : TaskArtifact) : Type 0 where
  pub before : TaskRow
  pub was : db.task ≡ some before
  pub was_open : is_open before.status ≡ true
  pub after : TaskRow
  pub stands : db'.task ≡ some after
  pub status : after.status ≡ task_terminal_status before a.outcome
  pub closed : is_terminal after.status ≡ true
  pub completes : str_eq a.outcome "completed" ≡ true → after.status ≡ TaskStatus.done
  pub cancels : str_eq a.outcome "cancelled" ≡ true → after.status ≡ TaskStatus.canceled
  pub done_of : after.status ≡ TaskStatus.done → IsReport before a.outcome
  pub result : after.result ≡ some a.body
  pub deadline : after.deadline ≡ before.deadline
  pub filled : str_eq a.body "" ≡ false
  pub kept : db'.artifacts ≡ a ∷ db.artifacts
  pub newest : all_below a.version db.artifacts ≡ true
  pub announced : str_eq a.outcome "completed" ≡ true → Announced before db.journal db'.journal
  pub earned : str_eq a.outcome "completed" ≡ true → IsEarned texts now given before

-- What may stand after a finalization with the result `r`.
unfoldable pub IsOutcome :
    Texts → ℕ → TaskFinalization → Store → Store × StoreResult (Option TaskArtifact) → Type 0
IsOutcome texts now given db (db', err e) = db' ≡ db
IsOutcome texts now given db (db', ok none) = db' ≡ db
IsOutcome texts now given db (db', ok (some a)) = Finished texts now given db db' a

abbrev is_published : StoreResult (Option TaskArtifact) → Bool
is_published (ok (some a)) = true
is_published _ = false

-- Without a draft, what counts as completed was given as completed.
pub explained_completed :
    (is_partial : Bool) (outcome : String)
    → str_eq (if is_partial then "blocked" else outcome) "completed" ≡ true
    → str_eq outcome "completed" ≡ true
explained_completed true outcome h = absurd (ground arith)
explained_completed false outcome h = h

pub if-IsOutcome :
    (texts : Texts) (now : ℕ) (given : TaskFinalization) (db : Store) (b : Bool)
    (x y : Store × StoreResult (Option TaskArtifact))
    → (b ≡ true → IsOutcome texts now given db x)
    → (b ≡ false → IsOutcome texts now given db y)
    → IsOutcome texts now given db (if b then x else y)
if-IsOutcome texts now given db true x y f g = f refl
if-IsOutcome texts now given db false x y f g = g refl

pub unchanged-IsOutcome :
    (texts : Texts) (now : ℕ) (given : TaskFinalization) (db : Store)
    (r : StoreResult (Option TaskArtifact))
    → is_published r ≡ false
    → IsOutcome texts now given db (db, r)
unfolding IsOutcome
unchanged-IsOutcome texts now given db (err e) h = refl
unchanged-IsOutcome texts now given db (ok none) h = refl
unchanged-IsOutcome texts now given db (ok (some a)) h = absurd (ground arith)
