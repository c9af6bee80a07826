-- ===== src/Outbox/Ledger.antt =====
-- What a task program asks the journal before it notifies, and writes after (`LookupDelivered`,
-- `MarkDelivered`, `NextNotificationRetry` of internal/core/agent_store.go).
use blueship.Outbox.{
  Ref, Attempt, Delivery, Journal, ref_too_long, JournalResult, ok, err,
  normalize_task_delivery_refs,
}
use blueship.Outbox.Ops.{is_reserved}
use blueship.Outbox.Resolution.{is_delivered}
use blueship.Outbox.Claim.{is_retryable}
use blueship.Prelude.{ℕ, Bool, ◌&&◌, ◌||◌, Option, none, some, List, [], ◌∷◌, ltb, if◌then◌else◌}

-- A row of the UNION: the ref is confirmed, or an attempt in any state owns it.
unfoldable pub is_known : ℕ → Journal → Ref → Bool
is_known task j r = is_delivered task r j.deliveries || is_reserved task r j.items

unfoldable pub taken_refs : ℕ → Journal → List Ref → List Ref
taken_refs task j [] = []
taken_refs task j (r ∷ refs) =
    let rest = taken_refs task j refs in if is_known task j r then r ∷ rest else rest

-- `LookupDelivered`; the map is the list of its keys.
unfoldable pub lookup_delivered : ℕ → List Ref → Journal → JournalResult (List Ref)
lookup_delivered task refs j = elim (normalize_task_delivery_refs refs) [
  | none ↦ err ref_too_long
  | some wanted ↦ ok (taken_refs task j wanted)
]

-- INSERT … ON CONFLICT DO NOTHING
unfoldable pub mark_refs : ℕ → List Ref → List Delivery → List Delivery
mark_refs task [] ds = ds
mark_refs task (r ∷ refs) ds =
    let rest = mark_refs task refs ds in
    if is_delivered task r rest then rest else record { task_id = task; ref = r } ∷ rest

-- `MarkDelivered`
unfoldable pub mark_delivered : ℕ → List Ref → Journal → Journal × JournalResult Unit
mark_delivered task refs j = elim (normalize_task_delivery_refs refs) [
  | none ↦ (j, err ref_too_long)
  | some wanted ↦ (record j { deliveries = mark_refs task wanted j.deliveries }, ok tt)
]

abbrev pub earlier : ℕ → Option ℕ → Option ℕ
earlier t none = some t
earlier t (some s) = if ltb s t then some s else some t

abbrev pub waits_after : ℕ → Attempt → Option ℕ
waits_after now a = elim a.next_attempt_at [
  | none ↦ none
  | some t ↦ if is_retryable a.state && ltb now t then some t else none
]

-- `NextNotificationRetry`; the zero time is `none`.
unfoldable pub next_notification_retry : ℕ → List Attempt → Option ℕ
next_notification_retry now [] = none
next_notification_retry now (a ∷ attempts) =
    let rest = next_notification_retry now attempts in
    elim (waits_after now a) [ none ↦ rest | some t ↦ earlier t rest ]
