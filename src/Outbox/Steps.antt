-- ===== src/Outbox/Steps.antt =====
-- Everything that happens to the journal: senders that begin, claim, send and resolve
-- (internal/agenttask/scheduler.go), finalizations that queue, the confirmation by the gateway
-- before a send returns (run.go), and crashes, in any order and by any number of processes. A send
-- that is not refused for certain may have reached the user: `sends` has the attempts of these.
use blueship.Outbox.{Ref, Receipt, Journal, JournalResult, ok, err, find_attempt}
use blueship.Outbox.Ops.{begin_notification_attempt, queue_attempt}
use blueship.Outbox.Resolution.{Parsed, confirm_notification_attempt}
use blueship.Outbox.Claim.{Intent, claim_retryable_notification}
use blueship.Outbox.Deliver.{
  CallOutcome, acknowledged, permanently_not_sent, definitely_not_sent, ambiguous,
  resolve_task_notification_attempt,
}
use blueship.Prelude.{
  ℕ, String, Bool, true, false, Option, none, some, List, ◌∷◌, ◌++◌, ◌≡◌, if◌then◌else◌,
}

-- A sender before its call of the transport, and after it.
pub data Sender : Type 0 where
  holding : ℕ → Sender
  resolving : ℕ → CallOutcome → Sender

pub record Deployment : Type 0 where
  pub journal : Journal
  pub workers : List Sender
  pub sends : List ℕ

unfoldable pub may_reach : CallOutcome → Bool
may_reach (acknowledged receipt) = true
may_reach (permanently_not_sent reason) = false
may_reach (definitely_not_sent delay reason) = false
may_reach (ambiguous reason) = true

-- A sender goes on only with an attempt that it created.
unfoldable pub after_begin : JournalResult (ℕ × Bool) → List Sender → List Sender
after_begin (ok (id, true)) ws = holding id ∷ ws
after_begin (ok (id, false)) ws = ws
after_begin (err e) ws = ws

unfoldable pub after_claim : JournalResult (Option Intent) → List Sender → List Sender
after_claim (ok (some i)) ws = holding i.id ∷ ws
after_claim (ok none) ws = ws
after_claim (err e) ws = ws

module _ (key : List Ref → String) (parse : String → Parsed) where
  -- An identifier that `uuid.New()` makes is not in use.
  pub data Step (w : Deployment) : Deployment → Type 0 where
    begin :
        (now fresh : ℕ) (owned : Bool) (task user : ℕ) (text : String) (refs : List Ref)
        → find_attempt fresh w.journal.attempts ≡ none
        → Step w (record w {
          journal =
              (begin_notification_attempt key now fresh owned task user text refs w.journal).0;
          workers =
              after_begin
                (begin_notification_attempt key now fresh owned task user text refs w.journal).1
                w.workers;
        })
    queue :
        (now fresh task user : ℕ) (text : String) (refs : List Ref) (j : Journal)
        → find_attempt fresh w.journal.attempts ≡ none
        → queue_attempt key now fresh task user text refs w.journal ≡ some j
        → Step w (record w { journal = j })
    claim :
        (now : ℕ) (locked : ℕ → Bool)
        → Step w (record w {
          journal = (claim_retryable_notification now locked w.journal).0;
          workers = after_claim (claim_retryable_notification now locked w.journal).1 w.workers;
        })
    send :
        (id : ℕ) (o : CallOutcome) (before after : List Sender)
        → w.workers ≡ before ++ holding id ∷ after
        → Step w (record w {
          workers = before ++ resolving id o ∷ after;
          sends = if may_reach o then id ∷ w.sends else w.sends;
        })
    confirm :
        (now id : ℕ) (o : CallOutcome) (receipt : Receipt) (before after : List Sender)
        → w.workers ≡ before ++ resolving id o ∷ after
        → may_reach o ≡ true
        → Step w
            (record w { journal = (confirm_notification_attempt parse now id receipt w.journal).0 })
    resolve :
        (now id : ℕ) (o : CallOutcome) (before after : List Sender)
        → w.workers ≡ before ++ resolving id o ∷ after
        → Step w (record w {
          journal = (resolve_task_notification_attempt parse now id o w.journal).0;
          workers = before ++ after;
        })
    crash :
        (worker : Sender) (before after : List Sender)
        → w.workers ≡ before ++ worker ∷ after
        → Step w (record w { workers = before ++ after })

  pub data Reach (w : Deployment) : Deployment → Type 0 where
    here : Reach w w
    next : {u v : Deployment} → Reach w u → Step u v → Reach w v
