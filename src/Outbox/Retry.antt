-- ===== src/Outbox/Retry.antt =====
-- The worker that drains the outbox (`drainRetryableNotifications`, `retryTaskNotification` of
-- internal/agenttask/scheduler.go), and the checks before a send (`validatedTaskNotifier` of
-- internal/agenttask/delivery_validation.go). What a round reads from outside, such as the task, the
-- host's validator and the transport, is a function of the round.
use blueship.StepStore.{TaskStatus}
use blueship.Outbox.{Ref, Journal, JournalResult, ok, err}
use blueship.Outbox.Resolution.{Parsed}
use blueship.Outbox.Claim.{Intent, claim_retryable_notification}
use blueship.Outbox.Deliver.{
  CallOutcome, permanently_not_sent, definitely_not_sent, resolve_task_notification_attempt,
}
use blueship.Prelude.{
  ℕ, zero, suc, String, Bool, true, false, not, ◌&&◌, ◌||◌, Option, none, some, List, [], ◌∷◌, ◌==◌,
  if◌then◌else◌, str_eq,
}

-- The task of an intent; `bad_origin` is an error of `TaskOriginFromConfig`.
pub record FoundTask : Type 0 where
  pub user_id : ℕ
  pub status : TaskStatus
  pub bad_origin : Bool

-- The host's validator says whether the refs are current, or fails.
pub record Outside : Type 0 where
  pub lookup : Option (ℕ → Option FoundTask)
  pub validator : Option (FoundTask → List Ref → Option Bool)
  pub notify : Option (ℕ → String → CallOutcome)

abbrev pub max_notification_retries_per_tick : ℕ
max_notification_retries_per_tick = 20

abbrev pub is_none_left : List Ref → Bool
is_none_left [] = true
is_none_left (r ∷ refs) = false

unfoldable pub validated : Option Bool → CallOutcome → CallOutcome
validated none sent = definitely_not_sent none "validate notification occurrences"
validated (some false) sent = permanently_not_sent "notification occurrences are no longer current"
validated (some true) sent = sent

-- The function that `validatedTaskNotifier` returns.
unfoldable pub validated_call :
    Option (FoundTask → List Ref → Option Bool)
    → FoundTask
    → List Ref
    → ℕ
    → CallOutcome
    → CallOutcome
validated_call validator t refs user sent =
    if not (user == t.user_id)
    then permanently_not_sent "delivery user does not match task user"
    else if t.bad_origin
    then permanently_not_sent "task delivery origin"
    else if is_none_left refs
    then sent
    else elim validator [ none ↦ sent | some validate ↦ validated (validate t refs) sent ]

unfoldable pub is_open_status : TaskStatus → Bool
is_open_status TaskStatus.pending = true
is_open_status TaskStatus.running = true
is_open_status TaskStatus.paused = true
is_open_status _ = false

unfoldable pub has_progress : List Ref → Bool
has_progress [] = false
has_progress (r ∷ refs) =
    (str_eq r.input_id "task_lifecycle" && str_eq r.item_key "progress") || has_progress refs

-- What `retryTaskNotification` does with a task that it has found.
unfoldable pub found_outcome : Outside → FoundTask → Intent → CallOutcome
found_outcome o t i =
    if not (t.user_id == i.user_id)
    then permanently_not_sent "notification user does not match task user"
    else if has_progress i.refs && not (is_open_status t.status)
    then permanently_not_sent "task is already terminal"
    else elim o.notify [
      | none ↦ definitely_not_sent none "sender unavailable"
      | some notify ↦ validated_call o.validator t i.refs i.user_id (notify i.id i.text)
    ]

unfoldable pub retry_outcome : Outside → Intent → CallOutcome
retry_outcome o i = elim o.lookup [
  | none ↦ definitely_not_sent none "task lookup unavailable"
  | some lookup ↦ elim (lookup i.task_id) [
    | none ↦ definitely_not_sent none "lookup task"
    | some t ↦ found_outcome o t i
  ]
]

module _ (parse : String → Parsed) where
  -- `retryTaskNotification`; the hook after a delivery is left out.
  unfoldable pub retry_task_notification : ℕ → Outside → Intent → Journal → Journal
  retry_task_notification now o i j =
      (resolve_task_notification_attempt parse now i.id (retry_outcome o i) j).0

  -- A round after its claim; `rest` has the rounds to come.
  unfoldable pub after_round :
      (Journal → Journal) → ℕ → Outside → Journal → JournalResult (Option Intent) → Journal
  after_round rest now o k (err e) = k
  after_round rest now o k (ok none) = k
  after_round rest now o k (ok (some i)) = rest (retry_task_notification now o i k)

  -- The rounds of `drainRetryableNotifications`; `locked` has the rows of other workers.
  unfoldable pub drain : ℕ → ℕ → (ℕ → ℕ) → (ℕ → ℕ → Bool) → (ℕ → Outside) → Journal → Journal
  drain zero claim_before clock locked outside j = j
  drain (suc left) claim_before clock locked outside j =
      let (k, r) = claim_retryable_notification claim_before (locked left) j in
      after_round (drain left claim_before clock locked outside) (clock left) (outside left) k r

  -- `drainRetryableNotifications`, with a journal
  unfoldable pub drain_retryable_notifications :
      ℕ → (ℕ → ℕ) → (ℕ → ℕ → Bool) → (ℕ → Outside) → Journal → Journal
  drain_retryable_notifications = drain max_notification_retries_per_tick
