-- ===== src/TaskLifecycle/Excuses.antt =====
-- The errors of the finalization of an overdue task, by their reasons.
use blueship.Outbox.{Ref, Journal}
use blueship.TaskLifecycle.{
  TaskRow, TaskArtifact, Store, StoreError, StoreResult, ok, err, no_explanation, bad_delivery,
}
use blueship.TaskLifecycle.Draft.{Texts, draft_body, clean_task_draft}
use blueship.TaskLifecycle.Finalize.{
  TaskFinalization, store_result, publish, explain, finalize_body, notified, last_version,
}
use blueship.Prelude.{
  ℕ, ◌+◌, String, Bool, true, false, ◌&&◌, Option, none, some, List, ◌≡◌, refl, arith, str_eq,
  is_blank, trim_space, if◌then◌else◌,
}

-- The text on a task without a result is blank, or the notification cannot be queued.
abbrev pub is_excuse : String → StoreError → Bool
is_excuse empty_body no_explanation = str_eq (trim_space empty_body) ""
is_excuse empty_body bad_delivery = true
is_excuse empty_body _ = false

abbrev pub is_said : String → StoreResult (Option TaskArtifact) → Bool
is_said empty_body (ok none) = false
is_said empty_body (ok (some a)) = true
is_said empty_body (err e) = is_excuse empty_body e

-- A result, or an error with an excuse.
unfoldable pub IsSaid : String → Store × StoreResult (Option TaskArtifact) → Type 0
IsSaid empty_body r = is_said empty_body r.1 ≡ true

if-IsSaid :
    (s : String) (b : Bool) (x y : Store × StoreResult (Option TaskArtifact))
    → (b ≡ true → IsSaid s x)
    → IsSaid s y
    → IsSaid s (if b then x else y)
if-IsSaid s true x y p q = p refl
if-IsSaid s false x y p q = q

module _ (texts : Texts) (key : List Ref → String) (version_key : ℕ → String)
    (merge : String → String → String) (metadata : String → ℕ → String → String) where
  explained-IsSaid :
      (s : String) (db : Store)
      → str_eq (trim_space s) "" ≡ true
      → IsSaid s (db, err no_explanation)
  unfolding IsSaid
  explained-IsSaid s db blank = blank

  store_result-IsSaid :
      (s : String) (now : ℕ) (given : TaskFinalization) (a : TaskArtifact) (t : TaskRow)
      (j : Option Journal) (db : Store)
      → IsSaid s (store_result texts key version_key merge metadata now given a t j db)
  unfolding store_result IsSaid
  store_result-IsSaid s now given a t none db = refl
  store_result-IsSaid s now given a t (some j) db = refl

  publish-IsSaid :
      (s : String) (now fresh : ℕ) (given : TaskFinalization) (outcome body notify : String)
      (t : TaskRow) (db : Store)
      → IsSaid s
          (publish texts key version_key merge metadata now fresh given outcome body notify t db)
  unfolding publish
  publish-IsSaid s now fresh given outcome body notify t db =
      let version = last_version db.artifacts + 1 in
      let text = (if str_eq outcome "completed" && is_blank notify then body else notify) in
      store_result-IsSaid s now given
        (record { version = version; outcome = outcome; body = body; reason = given.reason }) t
        (notified texts key version_key merge metadata now fresh t version text
          given.pending_deliveries db.journal)
        db

  pub finalize_body-IsSaid :
      (now fresh : ℕ) (given : TaskFinalization) (t : TaskRow) (db : Store)
      → str_eq given.outcome "completed" ≡ false
      → IsSaid given.empty_body
          (finalize_body texts key version_key merge metadata now fresh given t db)
  unfolding finalize_body explain
  finalize_body-IsSaid now fresh given t db other =
      let s = given.empty_body in
      let body = draft_body texts given.unverified_draft_fmt given.body t db in
      if-IsSaid s
        (str_eq (clean_task_draft texts given.body) "" && str_eq given.outcome "completed") _ _
        (λ both. absurd (ground arith))
        (if-IsSaid s (str_eq body "") _ _
          (λ none_left. if-IsSaid s (str_eq (trim_space s) "") _ _ (explained-IsSaid s db) (
            publish-IsSaid s now fresh given
              (if str_eq given.outcome "partial" then "blocked" else given.outcome) (trim_space s)
              given.empty_notify t db))
          (publish-IsSaid s now fresh given given.outcome body given.notify t db))
