-- ===== src/Outbox/Drained.antt =====
-- A run of `drainRetryableNotifications` as a session of one sender.
use blueship.Outbox.{Ref, Attempt, Journal, JournalResult, ok, err, sort_task_delivery_refs}
use blueship.Outbox.Resolution.{Parsed}
use blueship.Outbox.Claim.{Intent, next_due, refs_of, claim_attempt, claim_retryable_notification}
use blueship.Outbox.Deliver.{resolve_task_notification_attempt}
use blueship.Outbox.Steps.{Deployment}
use blueship.Outbox.Session.{Sent, claimed_intent, Opening, claimed, Session, over, nothing, turn}
use blueship.Outbox.Runs.{Becomes, becomes}
use blueship.Outbox.Allowed.{IsRetry, retry_outcome-IsRetry}
use blueship.Outbox.Retry.{
  Outside, retry_outcome, retry_task_notification, after_round, drain,
  drain_retryable_notifications,
}
use blueship.Prelude.{
  ℕ, zero, suc, String, Bool, Option, none, some, List, [], ◌∷◌, ◌≡◌, ◌⊎◌, ◌≤◌, All, length, refl,
  sym, subst, Option-cases, inl, inr, arith,
}

claim_attempt-idle :
    (now : ℕ) (a : Attempt) (j : Journal) (refs : List Ref)
    → claimed_intent (claim_attempt now a j refs).1 ≡ none
    → (claim_attempt now a j refs).0 ≡ j
unfolding claim_attempt claimed_intent
claim_attempt-idle now a j [] h = refl
claim_attempt-idle now a j (r ∷ refs) h = absurd (ground arith)

-- A claim that returns nothing changes nothing.
claim-idle :
    (now : ℕ) (locked : ℕ → Bool) (j : Journal)
    → claimed_intent (claim_retryable_notification now locked j).1 ≡ none
    → (claim_retryable_notification now locked j).0 ≡ j
unfolding claim_retryable_notification
claim-idle now locked j h = elim (Option-cases (next_due now locked j.attempts)) [
  | inl e ↦ ground (arith, e)
  | inr (a, e) ↦
      ground (arith, e, claim_attempt-idle now a j (sort_task_delivery_refs (refs_of a.id j.items)))
]

module _ (key : List Ref → String) (parse : String → Parsed) (claim_before : ℕ) (clock : ℕ → ℕ)
    (locked : ℕ → ℕ → Bool) (outside : ℕ → Outside) where
  -- The call of some round is as this round finds the task, the validator and the transport.
  abbrev pub IsRound : Sent → Type 0
  IsRound c = (n : ℕ) × IsRetry (outside n) c

  -- All rounds were used, or the last claim has found nothing in the journal as it is left.
  abbrev pub IsDrained : ℕ → Journal → List Sent → Type 0
  IsDrained most k calls =
      (length calls ≤ most)
      × ((length calls ≡ most)
          ⊎ ((n : ℕ) × (claimed_intent (claim_retryable_notification claim_before (locked n) k).1
                ≡ none)))

  -- What is left of the deployment out of the session.
  Run : ℕ → Journal → Journal → Type 0
  Run most j k =
      (calls : List Sent) × IsDrained most k calls × All IsRound calls × Session key parse j calls k

  longer :
      (most : ℕ) (k : Journal) (c : Sent) (calls : List Sent)
      → IsDrained most k calls
      → IsDrained (suc most) k (c ∷ calls)
  longer most k c calls (few, inl full) = (omega arith, inl (omega (arith, full)))
  longer most k c calls (few, inr last) = (omega arith, inr last)

  round-Run :
      (most : ℕ) (rest : Journal → Journal) (j k : Journal) (r : JournalResult (Option Intent))
      → ((l : Journal) → Run most l (rest l))
      → Opening key parse j (claimed_intent r) k
      → (claimed_intent r ≡ none
          → claimed_intent (claim_retryable_notification claim_before (locked most) k).1 ≡ none)
      → Run (suc most) j (after_round parse rest (clock most) (outside most) k r)
  unfolding after_round Run claimed_intent retry_task_notification
  round-Run most rest j k (err e) later got empty =
      ([], (omega arith, inr (most, empty refl)), tt, nothing got over)
  round-Run most rest j k (ok none) later got empty =
      ([], (omega arith, inr (most, empty refl)), tt, nothing got over)
  round-Run most rest j k (ok (some i)) later got empty =
      let o = retry_outcome (outside most) i in
      let l = (resolve_task_notification_attempt parse (clock most) i.id o k).0 in
      let c : Sent = record { intent = i; outcome = o } in
      let (calls, drained, right, session) = later l in
      (
        c ∷ calls,
        longer most (rest l) c calls drained,
        ((most, retry_outcome-IsRetry (outside most) i), right),
        turn (clock most) i o got session,
      )

  drain-Run :
      (left : ℕ) (j : Journal) → Run left j (drain parse left claim_before clock locked outside j)
  unfolding drain Run
  drain-Run zero j = ([], (omega arith, inl refl), tt, over)
  drain-Run (suc left) j =
      round-Run left (drain parse left claim_before clock locked outside) j _ _ (drain-Run left)
        (claimed claim_before (locked left) refl refl)
        (λ h.
          subst
            (λ x.
              claimed_intent (claim_retryable_notification claim_before (locked left) x).1 ≡ none)
            (sym (claim-idle claim_before (locked left) j h)) h)

  -- A run of drainRetryableNotifications is a session of one sender of at most 20 calls. Every attempt
  -- that a round claims is resolved with the outcome of its call; the transport is called if the task is
  -- found and is the user's, its origin can be read, it is open if the text is on its progress, and the
  -- validator confirms the refs, and no call that may have reached the user was made otherwise. The
  -- run ends after 20 calls or with a claim that finds nothing. For the system the session is a
  -- history of steps that leaves the other senders as they are.
  pub drain-Reach :
      (w : Deployment)
      → Becomes key parse IsRound
          (IsDrained 20
            (drain_retryable_notifications parse claim_before clock locked outside w.journal))
          w
          (drain_retryable_notifications parse claim_before clock locked outside w.journal)
  unfolding drain_retryable_notifications Run
  drain-Reach w =
      let (calls, drained, right, session) = drain-Run 20 w.journal in
      becomes key parse w _ calls drained right session
