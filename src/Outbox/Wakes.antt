-- ===== src/Outbox/Wakes.antt =====
-- When the outbox is looked at again: `NextNotificationRetry` against `ClaimRetryableNotification`.
use blueship.Outbox.{Ref, Attempt, Journal, JournalResult, ok, sort_task_delivery_refs}
use blueship.Outbox.Claim.{
  Intent, is_due, sooner, next_due, refs_of, claim_attempt, claim_retryable_notification,
}
use blueship.Outbox.Ledger.{next_notification_retry, waits_after, earlier}
use blueship.Prelude.{
  ℕ, Bool, true, false, Option, none, some, List, [], ◌∷◌, ◌≡◌, ◌⊎◌, ◌≤◌, ◌<◌, refl, arith, ltb,
  Bool-cases, Option-cases, inl, inr, if◌then◌else◌,
}

-- No other worker has locked a row.
abbrev pub unlocked : ℕ → Bool
unlocked id = false

abbrev is_after : ℕ → Option ℕ → Bool
is_after s none = true
is_after s (some t) = ltb s t

abbrev is_there : Option Attempt → Bool
is_there none = false
is_there (some a) = true

is_due-same :
    (now s : ℕ) (a : Attempt)
    → now ≤ s
    → is_after s (waits_after now a) ≡ true
    → is_due s unlocked a ≡ is_due now unlocked a
unfolding is_due
is_due-same now s a le later = ground arith

abbrev first_of : Option ℕ → Option ℕ → Option ℕ
first_of w r = elim w [ none ↦ r | some t ↦ earlier t r ]

first_of-after :
    (s : ℕ) (w r : Option ℕ)
    → is_after s (first_of w r) ≡ true
    → (is_after s w ≡ true) × (is_after s r ≡ true)
first_of-after s none r h = (refl, h)
first_of-after s (some t) none h = (h, refl)
first_of-after s (some t) (some u) h = (ground arith, ground arith)

first_of-some : (t : ℕ) (w r : Option ℕ) → first_of w r ≡ some t → (w ≡ some t) ⊎ (r ≡ some t)
first_of-some t none r h = inr h
first_of-some t (some u) none h = inl h
first_of-some t (some u) (some v) h = elim (Bool-cases (ltb v u)) [
  | inl lt ↦ inr (ground arith)
  | inr ge ↦ inl (ground arith)
]

next_due-same :
    (now s : ℕ) (attempts : List Attempt)
    → now ≤ s
    → is_after s (next_notification_retry now attempts) ≡ true
    → next_due s unlocked attempts ≡ next_due now unlocked attempts
unfolding next_notification_retry next_due
next_due-same now s [] le later = refl
next_due-same now s (a ∷ attempts) le later =
    let (own, others) =
      first_of-after s (waits_after now a) (next_notification_retry now attempts) later in
    rw (is_due-same now s a le own, next_due-same now s attempts le others) refl

waits_after-due :
    (now t : ℕ) (a : Attempt)
    → waits_after now a ≡ some t
    → (now < t) × (is_due t unlocked a ≡ true)
unfolding is_due
waits_after-due now t a h = elim (Option-cases a.next_attempt_at) [
  | inl e ↦ absurd (ground (arith, e))
  | inr (u, e) ↦ (ground (arith, e), ground (arith, e))
]

sooner-there : (a : Attempt) (r : Option Attempt) → is_there (sooner a r) ≡ true
unfolding sooner
sooner-there a none = refl
sooner-there a (some b) = ground arith

if-there :
    (a : Attempt) (b : Bool) (r : Option Attempt)
    → (b ≡ true) ⊎ (is_there r ≡ true)
    → is_there (if b then sooner a r else r) ≡ true
if-there a true r h = sooner-there a r
if-there a false r (inr h) = h
if-there a false r (inl h) = absurd (ground arith)

next_due-there :
    (now t : ℕ) (attempts : List Attempt)
    → next_notification_retry now attempts ≡ some t
    → (now < t) × (is_there (next_due t unlocked attempts) ≡ true)
unfolding next_notification_retry next_due
next_due-there now t [] h = absurd (ground arith)
next_due-there now t (a ∷ attempts) h =
    elim (first_of-some t (waits_after now a) (next_notification_retry now attempts) h) [
      | inl own ↦
          let (lt, due) = waits_after-due now t a own in
          (lt, if-there a (is_due t unlocked a) (next_due t unlocked attempts) (inl due))
      | inr other ↦
          let (lt, there) = next_due-there now t attempts other in
          (lt, if-there a (is_due t unlocked a) (next_due t unlocked attempts) (inr there))
    ]

claim_attempt-same :
    (now s : ℕ) (a : Attempt) (j : Journal) (refs : List Ref)
    → (claim_attempt s a j refs).1 ≡ (claim_attempt now a j refs).1
unfolding claim_attempt
claim_attempt-same now s a j [] = refl
claim_attempt-same now s a j (r ∷ refs) = refl

abbrev pub is_offer : JournalResult (Option Intent) → Bool
is_offer (ok none) = false
is_offer _ = true

claim_attempt-offer :
    (now : ℕ) (a : Attempt) (j : Journal) (refs : List Ref)
    → is_offer (claim_attempt now a j refs).1 ≡ true
unfolding claim_attempt
claim_attempt-offer now a j [] = refl
claim_attempt-offer now a j (r ∷ refs) = refl

-- What a claim answers about the attempt that it has found, if any.
answer : ℕ → Journal → Option Attempt → JournalResult (Option Intent)
answer now j none = ok none
answer now j (some a) = (claim_attempt now a j (sort_task_delivery_refs (refs_of a.id j.items))).1

claim-answer :
    (now : ℕ) (j : Journal)
    → 0 < now
    → (claim_retryable_notification now unlocked j).1
      ≡ answer now j (next_due now unlocked j.attempts)
unfolding claim_retryable_notification answer
claim-answer now j set = elim (Option-cases (next_due now unlocked j.attempts)) [
  | inl e ↦ ground (arith, e)
  | inr (a, e) ↦ ground (arith, e)
]

answer-same : (now s : ℕ) (j : Journal) (r : Option Attempt) → answer s j r ≡ answer now j r
unfolding answer
answer-same now s j none = refl
answer-same now s j (some a) = claim_attempt-same now s a j _

answer-offer :
    (now : ℕ) (j : Journal) (r : Option Attempt)
    → is_there r ≡ true
    → is_offer (answer now j r) ≡ true
unfolding answer
answer-offer now j none h = h
answer-offer now j (some a) h = claim_attempt-offer now a j _

-- At any later moment the outbox, with no row locked, answers a claim as it does now, or
-- NextNotificationRetry tells now a moment in between at which a claim does not come back empty: a
-- scheduler that wakes up then misses no retry.
pub next_notification_retry-wakes :
    (now s : ℕ) (j : Journal)
    → 0 < now
    → now ≤ s
    → ((claim_retryable_notification s unlocked j).1
        ≡ (claim_retryable_notification now unlocked j).1)
      ⊎ ((t : ℕ) × (next_notification_retry now j.attempts ≡ some t)
          × (now < t)
          × (t ≤ s)
          × (is_offer (claim_retryable_notification t unlocked j).1 ≡ true))
next_notification_retry-wakes now s j set le =
    elim (Bool-cases (is_after s (next_notification_retry now j.attempts))) [
      | inl later ↦ inl (
          rw
            (
              claim-answer s j (omega arith),
              claim-answer now j set,
              next_due-same now s j.attempts le later,
            )
            (answer-same now s j (next_due now unlocked j.attempts)))
      | inr soon ↦ elim (Option-cases (next_notification_retry now j.attempts)) [
        | inl e ↦ absurd (ground (arith, e))
        | inr (t, e) ↦
            let (lt, there) = next_due-there now t j.attempts e in
            inr (
              t,
              e,
              lt,
              ground (arith, e),
              rw (claim-answer t j (omega arith)) (answer-offer t j _ there),
            )
      ]
    ]
