-- ===== src/Outbox/Resolution.antt =====
-- What becomes of an attempt: `ConfirmNotificationAttempt`, `MarkNotificationUncertain`,
-- `DeferNotificationAttempt` and `RejectNotificationAttempt` (internal/core/agent_store.go).
use blueship.Outbox.{
  Ref, AttemptState, dispatching, retryable, sent, uncertain, rejected, Receipt, Attempt, Item,
  Delivery, Journal, missing_ids, missing_transport, not_found, bad_text, wrong_user, is_sent,
  is_uncertain, invalid_state, missing_reason, missing_time, JournalResult, ok, err, same_ref,
  find_attempt, update_attempt,
}
use blueship.Prelude.{
  ℕ, String, Bool, true, false, not, ◌&&◌, ◌||◌, Option, none, some, List, [], ◌∷◌, ◌==◌,
  if◌then◌else◌, str_eq, is_blank, trim_space,
}

-- The text of an attempt, as `ParseAutonomousTurnNotification` reads it.
pub data Parsed : Type 0 where
  plain malformed : Parsed
  autonomous : ℕ → Parsed

unfoldable pub is_delivered : ℕ → Ref → List Delivery → Bool
is_delivered task r [] = false
is_delivered task r (d ∷ ds) = (d.task_id == task && same_ref d.ref r) || is_delivered task r ds

-- INSERT INTO agent_task_deliveries … ON CONFLICT DO NOTHING
unfoldable pub deliver_items : ℕ → List Item → List Delivery → List Delivery
deliver_items id [] ds = ds
deliver_items id (i ∷ items) ds =
    let rest = deliver_items id items ds in
    if not (i.attempt_id == id) || is_delivered i.task_id i.ref rest
    then rest
    else record { task_id = i.task_id; ref = i.ref } ∷ rest

abbrev pub set_attempt : ℕ → (Attempt → Attempt) → Journal → Journal
set_attempt id change j = record j { attempts = update_attempt id change j.attempts }

abbrev pub to_sent : ℕ → Receipt → Attempt → Attempt
to_sent now receipt a = record a {
  state = sent;
  receipt = some receipt;
  error_message = none;
  next_attempt_at = none;
  resolved_at = some now;
}

abbrev pub user_matches : Parsed → ℕ → Bool
user_matches (autonomous u) user = u == user
user_matches _ user = true

abbrev pub is_malformed : Parsed → Bool
is_malformed malformed = true
is_malformed _ = false

unfoldable pub confirm_locked :
    ℕ → ℕ → Receipt → Journal → AttemptState → Journal × JournalResult Unit
confirm_locked now id receipt j sent = (j, ok tt)
confirm_locked now id receipt j uncertain = (j, err is_uncertain)
confirm_locked now id receipt j dispatching = (
  record j {
    attempts = update_attempt id (to_sent now receipt) j.attempts;
    deliveries = deliver_items id j.items j.deliveries;
  },
  ok tt,
)
confirm_locked now id receipt j retryable = (j, err invalid_state)
confirm_locked now id receipt j rejected = (j, err invalid_state)

unfoldable pub confirm_found :
    (String → Parsed) → ℕ → ℕ → Receipt → Journal → Option Attempt → Journal × JournalResult Unit
confirm_found parse now id receipt j none = (j, err not_found)
confirm_found parse now id receipt j (some a) =
    if is_malformed (parse a.message_text)
    then (j, err bad_text)
    else if not (user_matches (parse a.message_text) a.user_id)
    then (j, err wrong_user)
    else confirm_locked now id receipt j a.state

-- `ConfirmNotificationAttempt`; `parse` is `ParseAutonomousTurnNotification`.
unfoldable pub confirm_notification_attempt :
    (String → Parsed) → ℕ → ℕ → Receipt → Journal → Journal × JournalResult Unit
confirm_notification_attempt parse now id receipt j =
    if id == 0
    then (j, err missing_ids)
    else if is_blank receipt.transport
    then (j, err missing_transport)
    else confirm_found parse now id receipt j (find_attempt id j.attempts)

abbrev pub to_closed : AttemptState → ℕ → String → Attempt → Attempt
to_closed state now reason a = record a {
  state = state;
  error_message = some reason;
  next_attempt_at = none;
  resolved_at = some now;
}

unfoldable pub mark_locked : ℕ → ℕ → String → Journal → AttemptState → Journal × JournalResult Unit
mark_locked now id reason j uncertain = (j, ok tt)
mark_locked now id reason j sent = (j, err is_sent)
mark_locked now id reason j dispatching = (set_attempt id (to_closed uncertain now reason) j, ok tt)
mark_locked now id reason j retryable = (j, err invalid_state)
mark_locked now id reason j rejected = (j, err invalid_state)

unfoldable pub on_state :
    ℕ → (AttemptState → Journal × JournalResult Unit) → Journal → Journal × JournalResult Unit
on_state id f j = elim (find_attempt id j.attempts) [
  | none ↦ (j, err not_found)
  | some a ↦ f a.state
]

abbrev or_default : String → String → String
or_default s d = if str_eq s "" then d else s

-- `MarkNotificationUncertain`
unfoldable pub mark_notification_uncertain : ℕ → ℕ → String → Journal → Journal × JournalResult Unit
mark_notification_uncertain now id reason j =
    if id == 0
    then (j, err missing_ids)
    else on_state id
        (mark_locked now id
          (or_default (trim_space reason) "notification delivery outcome is uncertain") j)
        j

abbrev pub to_retryable : ℕ → String → Attempt → Attempt
to_retryable retry_at reason a = record a {
  state = retryable;
  error_message = some reason;
  next_attempt_at = some retry_at;
  resolved_at = none;
}

unfoldable pub defer_locked : ℕ → ℕ → String → Journal → AttemptState → Journal × JournalResult Unit
defer_locked retry_at id reason j retryable = (j, ok tt)
defer_locked retry_at id reason j dispatching =
    (set_attempt id (to_retryable retry_at reason) j, ok tt)
defer_locked retry_at id reason j sent = (j, err invalid_state)
defer_locked retry_at id reason j uncertain = (j, err invalid_state)
defer_locked retry_at id reason j rejected = (j, err invalid_state)

-- `DeferNotificationAttempt`; the zero time is 0.
unfoldable pub defer_notification_attempt : ℕ → ℕ → String → Journal → Journal × JournalResult Unit
defer_notification_attempt retry_at id reason j =
    if id == 0
    then (j, err missing_ids)
    else if is_blank reason
    then (j, err missing_reason)
    else if retry_at == 0
    then (j, err missing_time)
    else on_state id (defer_locked retry_at id (trim_space reason) j) j

unfoldable pub reject_locked :
    ℕ → ℕ → String → Journal → AttemptState → Journal × JournalResult Unit
reject_locked now id reason j rejected = (j, ok tt)
reject_locked now id reason j dispatching =
    (set_attempt id (to_closed rejected now reason) j, ok tt)
reject_locked now id reason j retryable = (j, err invalid_state)
reject_locked now id reason j sent = (j, err invalid_state)
reject_locked now id reason j uncertain = (j, err invalid_state)

-- `RejectNotificationAttempt`
unfoldable pub reject_notification_attempt : ℕ → ℕ → String → Journal → Journal × JournalResult Unit
reject_notification_attempt now id reason j =
    if id == 0
    then (j, err missing_ids)
    else if is_blank reason
    then (j, err missing_reason)
    else on_state id (reject_locked now id (trim_space reason) j) j
