-- ===== src/Outbox/Moves.antt =====
-- What the writes of a sender do to the states of the attempts.
use blueship.Outbox.{
  AttemptState, dispatching, retryable, sent, uncertain, rejected, Receipt, Attempt, Journal,
  JournalResult, ok, err, find_attempt,
}
use blueship.Outbox.Resolution.{
  Parsed, is_malformed, user_matches, to_sent, confirm_locked, confirm_found,
  confirm_notification_attempt, to_closed, mark_locked, on_state, mark_notification_uncertain,
  to_retryable, defer_locked, defer_notification_attempt, reject_locked,
  reject_notification_attempt,
}
use blueship.Outbox.Deliver.{
  CallOutcome, acknowledged, permanently_not_sent, definitely_not_sent, ambiguous, confirm_loop,
  resolve_task_notification_attempt,
}
use blueship.Prelude.{
  ℕ, zero, suc, String, Bool, true, false, not, inl, inr, Option, none, some, ◌==◌, ◌≡◌, refl, sym,
  ap, if◌then◌else◌, Option-cases, is_blank, ◌≢◌, subst,
}
use blueship.Outbox.States.{MayMove, find_attempt-state_of, state_of, update_attempt-Moves}

on_state-MayMove :
    (id : ℕ) (f : AttemptState → Journal × JournalResult Unit) (from to : AttemptState)
    (j : Journal)
    → ((s : AttemptState) → state_of id j.attempts ≡ some s → MayMove id from to j (f s).0)
    → MayMove id from to j (on_state id f j).0
unfolding on_state
on_state-MayMove id f from to j h = elim (Option-cases (find_attempt id j.attempts)) [
  | inl missing ↦ inl (rw (missing, on_state) refl)
  | inr (a, found) ↦ rw (found, on_state) (h a.state (find_attempt-state_of id j.attempts a found))
]

mark_locked-MayMove :
    (now id : ℕ) (reason : String) (j : Journal) (s : AttemptState)
    → state_of id j.attempts ≡ some s
    → MayMove id dispatching uncertain j (mark_locked now id reason j s).0
unfolding mark_locked
mark_locked-MayMove now id reason j uncertain h = inl refl
mark_locked-MayMove now id reason j sent h = inl refl
mark_locked-MayMove now id reason j dispatching h = inr (
  refl,
  update_attempt-Moves id (to_closed uncertain now reason) uncertain j.attempts dispatching
      (λ a. (refl, refl)) h,
)
mark_locked-MayMove now id reason j retryable h = inl refl
mark_locked-MayMove now id reason j rejected h = inl refl

reject_locked-MayMove :
    (now id : ℕ) (reason : String) (j : Journal) (s : AttemptState)
    → state_of id j.attempts ≡ some s
    → MayMove id dispatching rejected j (reject_locked now id reason j s).0
unfolding reject_locked
reject_locked-MayMove now id reason j rejected h = inl refl
reject_locked-MayMove now id reason j dispatching h = inr (
  refl,
  update_attempt-Moves id (to_closed rejected now reason) rejected j.attempts dispatching
      (λ a. (refl, refl)) h,
)
reject_locked-MayMove now id reason j retryable h = inl refl
reject_locked-MayMove now id reason j sent h = inl refl
reject_locked-MayMove now id reason j uncertain h = inl refl

defer_locked-MayMove :
    (at_time id : ℕ) (reason : String) (j : Journal) (s : AttemptState)
    → state_of id j.attempts ≡ some s
    → MayMove id dispatching retryable j (defer_locked at_time id reason j s).0
unfolding defer_locked
defer_locked-MayMove at_time id reason j retryable h = inl refl
defer_locked-MayMove at_time id reason j dispatching h = inr (
  refl,
  update_attempt-Moves id (to_retryable at_time reason) retryable j.attempts dispatching
      (λ a. (refl, refl)) h,
)
defer_locked-MayMove at_time id reason j sent h = inl refl
defer_locked-MayMove at_time id reason j uncertain h = inl refl
defer_locked-MayMove at_time id reason j rejected h = inl refl

confirm_locked-MayMove :
    (now id : ℕ) (receipt : Receipt) (j : Journal) (s : AttemptState)
    → state_of id j.attempts ≡ some s
    → MayMove id dispatching sent j (confirm_locked now id receipt j s).0
unfolding confirm_locked
confirm_locked-MayMove now id receipt j sent h = inl refl
confirm_locked-MayMove now id receipt j uncertain h = inl refl
confirm_locked-MayMove now id receipt j dispatching h = inr (
  refl,
  update_attempt-Moves id (to_sent now receipt) sent j.attempts dispatching (λ a. (refl, refl)) h,
)
confirm_locked-MayMove now id receipt j retryable h = inl refl
confirm_locked-MayMove now id receipt j rejected h = inl refl

-- A write behind a guard that leaves the journal as it is.
guard-MayMove :
    (b : Bool) (e r : Journal × JournalResult Unit) (id : ℕ) (from to : AttemptState) (j : Journal)
    → e.0 ≡ j
    → MayMove id from to j r.0
    → MayMove id from to j (if b then e else r).0
guard-MayMove true e r id from to j same h = inl same
guard-MayMove false e r id from to j same h = h

pub mark-MayMove :
    (now id : ℕ) (reason : String) (j : Journal)
    → MayMove id dispatching uncertain j (mark_notification_uncertain now id reason j).0
unfolding mark_notification_uncertain
mark-MayMove now id reason j =
    guard-MayMove (id == 0) _ _ id dispatching uncertain j refl
      (on_state-MayMove id _ dispatching uncertain j (mark_locked-MayMove now id _ j))

pub reject-MayMove :
    (now id : ℕ) (reason : String) (j : Journal)
    → MayMove id dispatching rejected j (reject_notification_attempt now id reason j).0
unfolding reject_notification_attempt
reject-MayMove now id reason j = guard-MayMove (id == 0) _ _ id dispatching rejected j refl (
    guard-MayMove (is_blank reason) _ _ id dispatching rejected j refl
      (on_state-MayMove id _ dispatching rejected j (reject_locked-MayMove now id _ j)))

pub defer-MayMove :
    (retry_at id : ℕ) (reason : String) (j : Journal)
    → MayMove id dispatching retryable j (defer_notification_attempt retry_at id reason j).0
unfolding defer_notification_attempt
defer-MayMove retry_at id reason j = guard-MayMove (id == 0) _ _ id dispatching retryable j refl (
    guard-MayMove (is_blank reason) _ _ id dispatching retryable j refl (
      guard-MayMove (retry_at == 0) _ _ id dispatching retryable j refl
        (on_state-MayMove id _ dispatching retryable j (defer_locked-MayMove retry_at id _ j))))

MayMove-trans :
    (id : ℕ) (from to : AttemptState) {j k l : Journal}
    → from ≢ to
    → MayMove id from to j k
    → MayMove id from to k l
    → MayMove id from to j l
MayMove-trans id from to {j} {k} {l} apart (inl same) h = subst (λ m. MayMove id from to m l) same h
MayMove-trans id from to {j} {k} {l} apart (inr moved) (inl same) =
    subst (λ m. MayMove id from to j m) (sym same) (inr moved)
MayMove-trans id from to {j} {k} {l} apart (inr (_, moved)) (inr (_, again)) =
    absurd (apart (cc (moved.1, again.0)))

pub MayMove-items :
    (id : ℕ) (from to : AttemptState) (j k : Journal) → MayMove id from to j k → k.items ≡ j.items
MayMove-items id from to j k (inl same) = ap (λ m. m.items) same
MayMove-items id from to j k (inr (items, _)) = items

-- The state that the outcome of a call of the transport leads to.
abbrev pub target : CallOutcome → AttemptState
target (acknowledged receipt) = sent
target (permanently_not_sent reason) = rejected
target (definitely_not_sent delay reason) = retryable
target (ambiguous reason) = uncertain

module _ (parse : String → Parsed) where
  confirm_found-MayMove :
      (now id : ℕ) (receipt : Receipt) (j : Journal) (o : Option Attempt)
      → find_attempt id j.attempts ≡ o
      → MayMove id dispatching sent j (confirm_found parse now id receipt j o).0
  unfolding confirm_found
  confirm_found-MayMove now id receipt j none h = inl refl
  confirm_found-MayMove now id receipt j (some a) h =
      guard-MayMove (is_malformed (parse a.message_text)) _ _ id dispatching sent j refl (
        guard-MayMove (not (user_matches (parse a.message_text) a.user_id)) _ _ id dispatching sent
          j refl
          (confirm_locked-MayMove now id receipt j a.state
            (find_attempt-state_of id j.attempts a h)))

  pub confirm-MayMove :
      (now id : ℕ) (receipt : Receipt) (j : Journal)
      → MayMove id dispatching sent j (confirm_notification_attempt parse now id receipt j).0
  unfolding confirm_notification_attempt
  confirm-MayMove now id receipt j = guard-MayMove (id == 0) _ _ id dispatching sent j refl (
      guard-MayMove (is_blank receipt.transport) _ _ id dispatching sent j refl
        (confirm_found-MayMove now id receipt j (find_attempt id j.attempts) refl))

  -- A failed attempt of the loop leaves the journal as it is, as does one after the first success.
  confirm_loop-MayMove :
      (tries now id : ℕ) (receipt : Receipt) (j : Journal)
      → MayMove id dispatching sent j (confirm_loop parse tries now id receipt j)
  unfolding confirm_loop
  confirm_loop-MayMove zero now id receipt j = inl refl
  confirm_loop-MayMove (suc tries) now id receipt j =
      loop (confirm_notification_attempt parse now id receipt j) (confirm-MayMove now id receipt j)
        (λ k. confirm_loop-MayMove tries now id receipt k)
    where
      loop :
          (r : Journal × JournalResult Unit)
          → MayMove id dispatching sent j r.0
          → ((k : Journal)
              → MayMove id dispatching sent k (confirm_loop parse tries now id receipt k))
          → MayMove id dispatching sent j
              (elim r.1 [ ok _ ↦ r.0 | err _ ↦ confirm_loop parse tries now id receipt r.0 ])
      loop (k, ok u) h again = h
      loop (k, err e) h again = MayMove-trans id dispatching sent (cc) h (again k)

  pub resolve-MayMove :
      (now id : ℕ) (o : CallOutcome) (j : Journal)
      → MayMove id dispatching (target o) j (resolve_task_notification_attempt parse now id o j).0
  unfolding resolve_task_notification_attempt
  resolve-MayMove now id (acknowledged receipt) j = confirm_loop-MayMove 3 now id receipt j
  resolve-MayMove now id (permanently_not_sent reason) j = reject-MayMove now id reason j
  resolve-MayMove now id (definitely_not_sent delay reason) j = defer-MayMove _ id reason j
  resolve-MayMove now id (ambiguous reason) j = mark-MayMove now id reason j
