-- ===== src/Outbox/Examples.antt =====
-- Witnesses for the theorems about the journal of notifications, and tests.
use blueship.Outbox.{
  Ref, trimmed_ref, Receipt, Journal, ok, AttemptState, find_attempt, update_attempt, same_ref,
  has_ref, normalize_loop, normalize_task_delivery_refs, insert_ref, sort_task_delivery_refs,
}
use blueship.Outbox.Ops.{
  is_reserved, reserve_items, find_occurrence, insert_attempt, admit, begin_normalized,
  begin_notification_attempt,
}
use blueship.Outbox.Resolution.{
  Parsed, plain, is_delivered, deliver_items, confirm_locked, confirm_found,
  confirm_notification_attempt, on_state, defer_locked, defer_notification_attempt,
}
use blueship.Outbox.Claim.{
  is_retryable, is_due, sooner, next_due, refs_of, claim_attempt, claim_retryable_notification,
}
use blueship.Outbox.Deliver.{
  CallOutcome, acknowledged, definitely_not_sent, confirm_loop, retry_delay,
  resolve_task_notification_attempt, deliver_created, deliver_keyed, deliver_task_notification,
}
use blueship.Outbox.Steps.{
  Deployment, may_reach, after_begin, after_claim, begin, claim, send, resolve, Reach, here, next,
}
use blueship.Outbox.Owners.{owns}
use blueship.Outbox.AtMostOnce.{empty_world, sends_for, at_most_once}
use blueship.Outbox.Runs.{intents, Becomes, IsDelivery, due, deliver-Reach}
use blueship.Outbox.Ledger.{
  is_known, taken_refs, lookup_delivered, next_notification_retry, mark_refs, mark_delivered,
}
use blueship.Outbox.Retry.{
  FoundTask, Outside, validated, is_open_status, has_progress, validated_call, found_outcome,
  retry_outcome, retry_task_notification, after_round, drain, drain_retryable_notifications,
}
use blueship.Outbox.Drained.{IsRound, IsDrained, drain-Reach}
use blueship.Outbox.Lookups.{lookup-mark_delivered, lookup_delivered-lasts}
use blueship.Outbox.Normalized.{is_named, Origin}
use blueship.Outbox.Wakes.{unlocked, is_offer, next_notification_retry-wakes}
use blueship.StepStore.{TaskStatus}
use mathlib.Core.List.{Memᴰ}
use blueship.Prelude.{
  ℕ, ◌<◌, ◌⊎◌, arith, ◌≤◌, String, true, false, none, some, List, [], ◌∷◌, ◌≡◌, refl, is_blank,
  trim_space,
}

abbrev hash : List Ref → String
hash refs = "refs:v1:"

abbrev parse : String → Parsed
parse text = plain

abbrev a_ref : Ref
a_ref = record { input_id = "task_lifecycle"; item_key = "deadline" }

abbrev a_receipt : Receipt
a_receipt = record { transport = "telegram"; message_id = "12" }

-- The first call of the transport is refused.
abbrev refused : CallOutcome
refused = definitely_not_sent (some 2000) "flood control"

abbrev deferred : Journal
deferred =
    (deliver_task_notification hash parse 100 7 true 1 2 "stopped" (a_ref ∷ [])
      (some (λ id. refused)) empty_world.journal).0

deliver_deferred :
    find_attempt 7 deferred.attempts
    ≡ some (record {
      id = 7;
      task_id = 1;
      user_id = 2;
      occurrence_key = "refs:v1:";
      message_text = "stopped";
      state = AttemptState.retryable;
      receipt = none;
      error_message = some "flood control";
      attempt_count = 1;
      next_attempt_at = some 2100;
      last_attempt_at = 100;
      created_at = 100;
      resolved_at = none;
    })
unfolding deliver_task_notification deliver_keyed deliver_created resolve_task_notification_attempt
    begin_notification_attempt begin_normalized admit insert_attempt find_occurrence reserve_items
    is_reserved normalize_task_delivery_refs normalize_loop has_ref sort_task_delivery_refs
    insert_ref find_attempt update_attempt defer_notification_attempt on_state defer_locked
    retry_delay is_blank trim_space
deliver_deferred = refl

deliver-Reach_example :
    Becomes hash parse
      (IsDelivery hash parse (some (λ id. refused)))
      (λ calls.
        intents calls ≡ due hash parse 100 7 true 1 2 "stopped" (a_ref ∷ []) empty_world.journal)
      empty_world
      deferred
unfolding find_attempt
deliver-Reach_example =
    deliver-Reach hash parse 100 7 true 1 2 "stopped" (a_ref ∷ []) (some (λ id. refused))
      empty_world refl

-- The second call is acknowledged.
abbrev waiting : Deployment
waiting = record empty_world { journal = deferred }

abbrev claimed : Deployment
claimed = record waiting {
  journal = (claim_retryable_notification 2200 (λ id. false) deferred).0;
  workers = after_claim (claim_retryable_notification 2200 (λ id. false) deferred).1 [];
}

abbrev done : Deployment
done = record claimed {
  journal =
      (resolve_task_notification_attempt parse 2300 7 (acknowledged a_receipt) claimed.journal).0;
  workers = [];
  sends = 7 ∷ [];
}

two_calls : Reach hash parse empty_world done
unfolding deliver_task_notification deliver_keyed deliver_created resolve_task_notification_attempt
    begin_notification_attempt begin_normalized admit insert_attempt find_occurrence reserve_items
    is_reserved normalize_task_delivery_refs normalize_loop has_ref sort_task_delivery_refs
    insert_ref find_attempt update_attempt defer_notification_attempt on_state defer_locked
    retry_delay is_blank trim_space may_reach after_begin after_claim claim_retryable_notification
    next_due is_due is_retryable sooner refs_of claim_attempt
two_calls =
    next
      (next
        (next
          (next
            (next (next here (begin 100 7 true 1 2 "stopped" (a_ref ∷ []) refl))
              (send 7 refused [] [] refl))
            (resolve 100 7 refused [] [] refl))
          (claim 2200 (λ id. false)))
        (send 7 (acknowledged a_receipt) [] [] refl))
      (resolve 2300 7 (acknowledged a_receipt) [] [] refl)

one_send : sends_for 1 a_ref done ≡ 1
unfolding owns same_ref deliver_task_notification deliver_keyed deliver_created
    resolve_task_notification_attempt begin_notification_attempt begin_normalized admit
    insert_attempt find_occurrence reserve_items is_reserved normalize_task_delivery_refs
    normalize_loop has_ref sort_task_delivery_refs insert_ref find_attempt update_attempt
    defer_notification_attempt on_state defer_locked retry_delay is_blank trim_space
    claim_retryable_notification next_due is_due is_retryable sooner refs_of claim_attempt
    confirm_loop confirm_notification_attempt confirm_found confirm_locked
one_send = refl

at_most_once_example : sends_for 1 a_ref done ≤ 1
at_most_once_example = at_most_once hash parse done two_calls 1 a_ref

-- The round after the refused call: the validator agrees, and the transport acknowledges.
abbrev open_task : FoundTask
open_task = record { user_id = 2; status = TaskStatus.running; bad_origin = false }

abbrev outside : Outside
outside = record {
  lookup = some (λ id. some open_task);
  validator = some (λ t refs. some true);
  notify = some (λ id text. acknowledged a_receipt);
}

abbrev drained : Journal
drained =
    drain_retryable_notifications parse 2200 (λ n. 2300) (λ n id. false) (λ n. outside)
      waiting.journal

drained_confirms : drained.deliveries ≡ record { task_id = 1; ref = a_ref } ∷ []
unfolding deliver_task_notification deliver_keyed deliver_created resolve_task_notification_attempt
    begin_notification_attempt begin_normalized admit insert_attempt find_occurrence reserve_items
    is_reserved normalize_task_delivery_refs normalize_loop has_ref sort_task_delivery_refs
    insert_ref find_attempt update_attempt defer_notification_attempt on_state defer_locked
    retry_delay is_blank trim_space claim_retryable_notification same_ref next_due is_due
    is_retryable sooner refs_of claim_attempt confirm_loop confirm_notification_attempt
    confirm_found confirm_locked is_delivered validated deliver_items is_open_status has_progress
    validated_call found_outcome retry_outcome retry_task_notification after_round drain
    drain_retryable_notifications
drained_confirms = refl

drain-Reach_example :
    Becomes hash parse
      (IsRound hash parse 2200 (λ n. 2300) (λ n id. false) (λ n. outside))
      (IsDrained hash parse 2200 (λ n. 2300) (λ n id. false) (λ n. outside) 20 drained)
      waiting
      drained
drain-Reach_example = drain-Reach hash parse 2200 (λ n. 2300) (λ n id. false) (λ n. outside) waiting

abbrev marked : Journal
marked = (mark_delivered 1 (a_ref ∷ []) empty_world.journal).0

lookup-mark_delivered_example :
    (found : List Ref) × (lookup_delivered 1 (a_ref ∷ []) marked ≡ ok found)
    × ((r : Ref) → Memᴰ r (a_ref ∷ []) → is_named r ≡ true → Memᴰ (trimmed_ref r) found)
    × ((x : Ref) → Memᴰ x found → Origin (a_ref ∷ []) x)
unfolding mark_delivered mark_refs normalize_task_delivery_refs normalize_loop has_ref
    sort_task_delivery_refs insert_ref trim_space
lookup-mark_delivered_example = lookup-mark_delivered 1 (a_ref ∷ []) empty_world.journal marked refl

later_calls : Reach hash parse waiting done
unfolding deliver_task_notification deliver_keyed deliver_created resolve_task_notification_attempt
    begin_notification_attempt begin_normalized admit insert_attempt find_occurrence reserve_items
    is_reserved normalize_task_delivery_refs normalize_loop has_ref sort_task_delivery_refs
    insert_ref find_attempt update_attempt defer_notification_attempt on_state defer_locked
    retry_delay is_blank trim_space may_reach after_begin after_claim claim_retryable_notification
    next_due is_due is_retryable sooner refs_of claim_attempt
later_calls =
    next (next (next here (claim 2200 (λ id. false))) (send 7 (acknowledged a_receipt) [] [] refl))
      (resolve 2300 7 (acknowledged a_receipt) [] [] refl)

lookup_delivered-lasts_example :
    (later : List Ref) × (lookup_delivered 1 (a_ref ∷ []) done.journal ≡ ok later)
    × ((r : Ref) → Memᴰ r (a_ref ∷ []) → Memᴰ r later)
unfolding lookup_delivered taken_refs is_known is_reserved same_ref deliver_task_notification
    deliver_keyed deliver_created resolve_task_notification_attempt begin_notification_attempt
    begin_normalized admit insert_attempt find_occurrence reserve_items normalize_task_delivery_refs
    normalize_loop has_ref sort_task_delivery_refs insert_ref find_attempt update_attempt
    defer_notification_attempt on_state defer_locked retry_delay is_blank trim_space is_delivered
lookup_delivered-lasts_example =
    lookup_delivered-lasts 1 hash parse (a_ref ∷ []) (a_ref ∷ []) waiting done refl later_calls

next_notification_retry-wakes_example :
    ((claim_retryable_notification 2200 unlocked deferred).1
      ≡ (claim_retryable_notification 100 unlocked deferred).1)
    ⊎ ((t : ℕ) × (next_notification_retry 100 deferred.attempts ≡ some t)
        × (100 < t)
        × (t ≤ 2200)
        × (is_offer (claim_retryable_notification t unlocked deferred).1 ≡ true))
next_notification_retry-wakes_example =
    next_notification_retry-wakes 100 2200 deferred (ground arith) (ground arith)
