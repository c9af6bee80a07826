-- ===== src/Outbox.antt =====
-- The journal of task notifications: tables `agent_task_notification_attempts`,
-- `agent_task_notification_attempt_items` and `agent_task_deliveries` (internal/core/agent_store.go;
-- internal/migrate/sql/018_agent_task_notification_journal.sql for the columns). Identifiers and
-- instants are numbers, and the nil UUID is 0. `NOW()` is read once in a transaction. A transaction
-- that fails leaves the journal as it was; faults of the database itself are not modelled.
pub mod Ops
pub mod Resolution
pub mod Claim
pub mod Deliver
pub mod Steps
pub mod States
pub mod Moves
pub mod Admission
pub mod Owners
pub mod Counts
pub mod Senders
pub mod Once
pub mod AtMostOnce
pub mod Session
pub mod Runs
pub mod Ledger
pub mod Retry
pub mod Allowed
pub mod Drained
pub mod Kept
pub mod Lookups
pub mod Wakes
pub mod Normalized
mod Examples
use Prim.Native.String.{len, compare}
use blueship.Prelude.{
  ℕ, String, Bool, true, false, not, ◌&&◌, ◌||◌, Option, none, some, List, [], ◌∷◌, ◌==◌, ltb,
  Ordering, if◌then◌else◌, str_eq, trim_space,
}

pub record Ref : Type 0 where
  pub input_id : String
  pub item_key : String

-- CHECK (state IN ('dispatching', 'retryable', 'sent', 'uncertain', 'rejected'))
pub data AttemptState : Type 0 where
  dispatching retryable sent uncertain rejected : AttemptState

pub record Receipt : Type 0 where
  pub transport : String
  pub message_id : String

pub record Attempt : Type 0 where
  pub id : ℕ
  pub task_id : ℕ
  pub user_id : ℕ
  pub occurrence_key : String
  pub message_text : String
  pub state : AttemptState
  pub receipt : Option Receipt
  pub error_message : Option String
  pub attempt_count : ℕ
  pub next_attempt_at : Option ℕ
  pub last_attempt_at : ℕ
  pub created_at : ℕ
  pub resolved_at : Option ℕ

pub record Item : Type 0 where
  pub attempt_id : ℕ
  pub task_id : ℕ
  pub ref : Ref

pub record Delivery : Type 0 where
  pub task_id : ℕ
  pub ref : Ref

pub record Journal : Type 0 where
  pub attempts : List Attempt
  pub items : List Item
  pub deliveries : List Delivery

pub data JournalError : Type 0 where
  missing_ids missing_text ref_too_long no_refs pair_not_found partial_overlap : JournalError
  missing_transport not_found bad_text wrong_user is_sent is_uncertain invalid_state : JournalError
  missing_reason missing_time no_reserved_refs : JournalError

pub data JournalResult (A : Type 0) : Type 0 where
  ok : A → JournalResult A
  err : JournalError → JournalResult A

unfoldable pub same_ref : Ref → Ref → Bool
same_ref a b = str_eq a.input_id b.input_id && str_eq a.item_key b.item_key

unfoldable pub has_ref : Ref → List Ref → Bool
has_ref r [] = false
has_ref r (s ∷ refs) = same_ref s r || has_ref r refs

abbrev pub task_delivery_input_id_max_bytes : ℕ
task_delivery_input_id_max_bytes = 64

abbrev pub task_delivery_item_key_max_bytes : ℕ
task_delivery_item_key_max_bytes = 512

abbrev pub trimmed_ref : Ref → Ref
trimmed_ref r = record { input_id = trim_space r.input_id; item_key = trim_space r.item_key }

-- The loop of `normalizeTaskDeliveryRefs`, with `seen`; `none` is an error.
unfoldable pub normalize_loop : List Ref → List Ref → Option (List Ref)
normalize_loop seen [] = some []
normalize_loop seen (r ∷ refs) =
    let skip = normalize_loop seen refs in
    let keep = normalize_loop (trimmed_ref r ∷ seen) refs in
    if str_eq (trimmed_ref r).input_id "" || str_eq (trimmed_ref r).item_key ""
    then skip
    else if ltb task_delivery_input_id_max_bytes (len (trimmed_ref r).input_id)
    then none
    else if ltb task_delivery_item_key_max_bytes (len (trimmed_ref r).item_key)
    then none
    else if has_ref (trimmed_ref r) seen
    then skip
    else elim keep [ none ↦ none | some out ↦ some (trimmed_ref r ∷ out) ]

unfoldable pub normalize_task_delivery_refs : List Ref → Option (List Ref)
normalize_task_delivery_refs refs = normalize_loop [] refs

abbrev text_before : String → String → Bool
text_before a b = elim (compare a b) [ Ordering.lt ↦ true | _ ↦ false ]

-- The comparison of `sortTaskDeliveryRefs`.
unfoldable pub ref_before : Ref → Ref → Bool
ref_before a b =
    if not (str_eq a.input_id b.input_id)
    then text_before a.input_id b.input_id
    else text_before a.item_key b.item_key

unfoldable pub insert_ref : Ref → List Ref → List Ref
insert_ref r [] = r ∷ []
insert_ref r (s ∷ refs) =
    let rest = insert_ref r refs in if ref_before s r then s ∷ rest else r ∷ s ∷ refs

unfoldable pub sort_task_delivery_refs : List Ref → List Ref
sort_task_delivery_refs [] = []
sort_task_delivery_refs (r ∷ refs) = insert_ref r (sort_task_delivery_refs refs)

-- WHERE id = $1
unfoldable pub find_attempt : ℕ → List Attempt → Option Attempt
find_attempt id [] = none
find_attempt id (a ∷ attempts) = if a.id == id then some a else find_attempt id attempts

unfoldable pub update_attempt : ℕ → (Attempt → Attempt) → List Attempt → List Attempt
update_attempt id change [] = []
update_attempt id change (a ∷ attempts) =
    (if a.id == id then change a else a) ∷ update_attempt id change attempts
