-- ===== src/Outbox/Claim.antt =====
-- The claim of an attempt that waits: `ClaimRetryableNotification` (internal/core/agent_store.go).
use blueship.Outbox.{
  Ref, AttemptState, dispatching, retryable, Attempt, Item, Journal, missing_time, no_reserved_refs,
  JournalResult, ok, err, sort_task_delivery_refs,
}
use blueship.Prelude.{
  ℕ, ◌+◌, String, Bool, true, false, not, ◌&&◌, ◌||◌, Option, none, some, List, [], ◌∷◌, ◌==◌, leb,
  ltb, if◌then◌else◌,
}
use blueship.Outbox.Resolution.{set_attempt}

pub record Intent : Type 0 where
  pub id : ℕ
  pub task_id : ℕ
  pub user_id : ℕ
  pub text : String
  pub refs : List Ref

unfoldable pub is_retryable : AttemptState → Bool
is_retryable retryable = true
is_retryable _ = false

abbrev at_most : ℕ → Option ℕ → Bool
at_most now none = false
at_most now (some t) = leb t now

-- A row of the candidate query that no other transaction has locked.
unfoldable pub is_due : ℕ → (ℕ → Bool) → Attempt → Bool
is_due now locked a = is_retryable a.state && at_most now a.next_attempt_at && not (locked a.id)

abbrev due_at : Attempt → ℕ
due_at a = elim a.next_attempt_at [ none ↦ 0 | some t ↦ t ]

-- ORDER BY next_attempt_at, created_at, id
unfoldable pub is_sooner : Attempt → Attempt → Bool
is_sooner a b =
    ltb (due_at a) (due_at b)
    || (due_at a == due_at b
        && (ltb a.created_at b.created_at || (a.created_at == b.created_at && ltb a.id b.id)))

unfoldable pub sooner : Attempt → Option Attempt → Option Attempt
sooner a none = some a
sooner a (some b) = if is_sooner b a then some b else some a

unfoldable pub next_due : ℕ → (ℕ → Bool) → List Attempt → Option Attempt
next_due now locked [] = none
next_due now locked (a ∷ attempts) =
    let rest = next_due now locked attempts in if is_due now locked a then sooner a rest else rest

unfoldable pub refs_of : ℕ → List Item → List Ref
refs_of id [] = []
refs_of id (i ∷ items) =
    let rest = refs_of id items in if i.attempt_id == id then i.ref ∷ rest else rest

abbrev pub to_dispatching : ℕ → Attempt → Attempt
to_dispatching now a = record a {
  state = dispatching;
  attempt_count = a.attempt_count + 1;
  last_attempt_at = now;
  next_attempt_at = none;
  error_message = none;
  resolved_at = none;
}

unfoldable pub claim_attempt :
    ℕ → Attempt → Journal → List Ref → Journal × JournalResult (Option Intent)
claim_attempt now a j [] = (j, err no_reserved_refs)
claim_attempt now a j (r ∷ refs) = (
  set_attempt a.id (to_dispatching now) j,
  ok (
      some (record {
        id = a.id;
        task_id = a.task_id;
        user_id = a.user_id;
        text = a.message_text;
        refs = r ∷ refs;
      })),
)

-- `ClaimRetryableNotification`; the rows that are `locked` are skipped.
unfoldable pub claim_retryable_notification :
    ℕ → (ℕ → Bool) → Journal → Journal × JournalResult (Option Intent)
claim_retryable_notification now locked j =
    if now == 0 then (j, err missing_time) else elim (next_due now locked j.attempts) [
      | none ↦ (j, ok none)
      | some a ↦ claim_attempt now a j (sort_task_delivery_refs (refs_of a.id j.items))
    ]
