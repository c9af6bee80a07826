-- ===== src/Outbox/Kept.antt =====
-- What `LookupDelivered` has reported of a task stays reported.
use blueship.Outbox.{
  Ref, Receipt, AttemptState, Attempt, Item, Delivery, Journal, normalize_task_delivery_refs,
  sort_task_delivery_refs, find_attempt,
}
use blueship.Outbox.Ops.{
  is_reserved, reserve_items, existing_attempt, insert_attempt, admit, begin_normalized,
  begin_notification_attempt, queue_items, queue_attempt,
}
use blueship.Outbox.Resolution.{
  Parsed, is_delivered, deliver_items, confirm_locked, confirm_found, confirm_notification_attempt,
  on_state, mark_locked, mark_notification_uncertain, defer_locked, defer_notification_attempt,
  reject_locked, reject_notification_attempt,
}
use blueship.Outbox.Claim.{claim_attempt, claim_retryable_notification}
use blueship.Outbox.Deliver.{
  CallOutcome, acknowledged, permanently_not_sent, definitely_not_sent, ambiguous, retry_delay,
  confirm_loop, resolve_task_notification_attempt,
}
use blueship.Outbox.Steps.{
  Deployment, Step, begin, queue, claim, send, confirm, resolve, crash, Reach, here, next,
}
use blueship.Outbox.Ledger.{is_known}
use blueship.Prelude.{
  ℕ, zero, suc, ◌+◌, String, Bool, true, Option, none, some, List, [], ◌∷◌, ◌≡◌, arith,
}

module _ (task : ℕ) (r : Ref) where
  abbrev pub Keeps : Journal → Journal → Type 0
  Keeps j k = is_known task j r ≡ true → is_known task k r ≡ true

  reserve_items-kept :
      (id t : ℕ) (refs : List Ref) (items : List Item)
      → is_reserved task r items ≡ true
      → is_reserved task r (reserve_items id t refs items).0 ≡ true
  unfolding reserve_items is_reserved
  reserve_items-kept id t [] items h = h
  reserve_items-kept id t (s ∷ refs) items h = ground (
    arith,
    reserve_items-kept id t refs items,
    reserve_items-kept id t refs (record { attempt_id = id; task_id = t; ref = s } ∷ items),
  )

  deliver_items-kept :
      (id : ℕ) (items : List Item) (ds : List Delivery)
      → is_delivered task r ds ≡ true
      → is_delivered task r (deliver_items id items ds) ≡ true
  unfolding deliver_items is_delivered
  deliver_items-kept id [] ds h = h
  deliver_items-kept id (i ∷ items) ds h = ground (arith, deliver_items-kept id items ds)

  module _ (key : List Ref → String) (now fresh t user : ℕ) (text : String) (j : Journal) where
    insert_attempt-Keeps :
        (refs : List Ref) → Keeps j (insert_attempt key now fresh t user text refs j).0
    unfolding insert_attempt is_known
    insert_attempt-Keeps refs h = ground (arith, reserve_items-kept fresh t refs j.items)

    admit-Keeps :
        (owned : Bool) (refs : List Ref) → Keeps j (admit key now fresh owned t user text refs j).0
    unfolding admit existing_attempt
    admit-Keeps owned refs h = ground (arith, insert_attempt-Keeps refs)

    normalized-Keeps :
        (owned : Bool) (refs : Option (List Ref))
        → Keeps j (begin_normalized key now fresh owned t user text refs j).0
    unfolding begin_normalized
    normalized-Keeps owned none h = h
    normalized-Keeps owned (some []) h = h
    normalized-Keeps owned (some (s ∷ refs)) h =
        admit-Keeps owned (sort_task_delivery_refs (s ∷ refs)) h

    begin-Keeps :
        (owned : Bool) (refs : List Ref)
        → Keeps j (begin_notification_attempt key now fresh owned t user text refs j).0
    unfolding begin_notification_attempt
    begin-Keeps owned refs h =
        ground (arith, normalized-Keeps owned (normalize_task_delivery_refs refs))

    queue-Keeps :
        (refs : List Ref) (k : Journal)
        → queue_attempt key now fresh t user text refs j ≡ some k
        → Keeps j k
    unfolding queue_attempt queue_items is_known
    queue-Keeps refs k e h = ground (arith, reserve_items-kept fresh t refs j.items)

  claim-Keeps :
      (now : ℕ) (locked : ℕ → Bool) (j : Journal)
      → Keeps j (claim_retryable_notification now locked j).0
  unfolding claim_retryable_notification claim_attempt is_known
  claim-Keeps now locked j h = ground arith

  defer-Keeps :
      (retry_at id : ℕ) (reason : String) (j : Journal)
      → Keeps j (defer_notification_attempt retry_at id reason j).0
  unfolding defer_notification_attempt on_state defer_locked is_known
  defer-Keeps retry_at id reason j h = ground arith

  module _ (parse : String → Parsed) (now id : ℕ) where
    confirm_locked-Keeps :
        (receipt : Receipt) (j : Journal) (s : AttemptState)
        → Keeps j (confirm_locked now id receipt j s).0
    unfolding confirm_locked is_known
    confirm_locked-Keeps receipt j s h = ground (arith, deliver_items-kept id j.items j.deliveries)

    confirm_found-Keeps :
        (receipt : Receipt) (j : Journal) (a : Option Attempt)
        → Keeps j (confirm_found parse now id receipt j a).0
    unfolding confirm_found
    confirm_found-Keeps receipt j none h = h
    confirm_found-Keeps receipt j (some a) h =
        ground (arith, confirm_locked-Keeps receipt j a.state)

    confirm-Keeps :
        (receipt : Receipt) (j : Journal)
        → Keeps j (confirm_notification_attempt parse now id receipt j).0
    unfolding confirm_notification_attempt
    confirm-Keeps receipt j h =
        ground (arith, confirm_found-Keeps receipt j (find_attempt id j.attempts))

    confirm_loop-Keeps :
        (tries : ℕ) (receipt : Receipt) (j : Journal)
        → Keeps j (confirm_loop parse tries now id receipt j)
    unfolding confirm_loop
    confirm_loop-Keeps zero receipt j h = h
    confirm_loop-Keeps (suc tries) receipt j h = ground (
      arith,
      confirm-Keeps receipt j h,
      confirm_loop-Keeps tries receipt (confirm_notification_attempt parse now id receipt j).0,
    )

    mark-Keeps :
        (reason : String) (j : Journal) → Keeps j (mark_notification_uncertain now id reason j).0
    unfolding mark_notification_uncertain on_state mark_locked is_known
    mark-Keeps reason j h = ground arith

    reject-Keeps :
        (reason : String) (j : Journal) → Keeps j (reject_notification_attempt now id reason j).0
    unfolding reject_notification_attempt on_state reject_locked is_known
    reject-Keeps reason j h = ground arith

    resolve-Keeps :
        (o : CallOutcome) (j : Journal)
        → Keeps j (resolve_task_notification_attempt parse now id o j).0
    unfolding resolve_task_notification_attempt
    resolve-Keeps (acknowledged receipt) j h = confirm_loop-Keeps 3 receipt j h
    resolve-Keeps (permanently_not_sent reason) j h = reject-Keeps reason j h
    resolve-Keeps (definitely_not_sent delay reason) j h =
        defer-Keeps (now + retry_delay delay) id reason j h
    resolve-Keeps (ambiguous reason) j h = mark-Keeps reason j h

  module _ (key : List Ref → String) (parse : String → Parsed) where
    Step-Keeps : {w v : Deployment} → Step key parse w v → Keeps w.journal v.journal
    Step-Keeps {w} (begin now fresh owned t user text refs unused) h =
        begin-Keeps key now fresh t user text w.journal owned refs h
    Step-Keeps {w} (queue now fresh t user text refs j unused queued) h =
        queue-Keeps key now fresh t user text w.journal refs j queued h
    Step-Keeps {w} (claim now locked) h = claim-Keeps now locked w.journal h
    Step-Keeps (send id o before after held) h = h
    Step-Keeps {w} (confirm now id o receipt before after held may) h =
        confirm-Keeps parse now id receipt w.journal h
    Step-Keeps {w} (resolve now id o before after held) h = resolve-Keeps parse now id o w.journal h
    Step-Keeps (crash x before after held) h = h

    -- A ref that LookupDelivered reports for a task is reported for good: no step of a sender, a
    -- finalization, the gateway or a crash frees it, so no program generates its notification again.
    pub Reach-Keeps : {w v : Deployment} → Reach key parse w v → Keeps w.journal v.journal
    Reach-Keeps here h = h
    Reach-Keeps (next before step) h = Step-Keeps step (Reach-Keeps before h)
