-- ===== src/Outbox/Admission.antt =====
-- What the writes that add an attempt do, and the claim of one that waits. Identifiers are unique.
use blueship.Outbox.{
  Ref, AttemptState, dispatching, retryable, sent, uncertain, rejected, Attempt, Journal,
  JournalResult, find_attempt, sort_task_delivery_refs,
}
use blueship.Outbox.Ops.{
  reserve_items, find_occurrence, new_attempt, existing_attempt, insert_attempt, admit,
  begin_normalized, begin_notification_attempt, queued_attempt, queue_items, queue_attempt,
}
use blueship.Outbox.Claim.{
  Intent, is_due, is_retryable, is_sooner, sooner, next_due, refs_of, to_dispatching, claim_attempt,
  claim_retryable_notification,
}
use blueship.Outbox.Steps.{Sender, holding, after_begin, after_claim}
use blueship.Outbox.States.{IsKeyed, state_of, Moves, find_attempt-state_of, update_attempt-Moves}
use blueship.Prelude.{
  ℕ, String, Bool, true, false, ◌||◌, ◌⊎◌, inl, inr, Option, none, some, List, [], ◌∷◌, ◌==◌, ◌≡◌,
  refl, sym, ◌∙◌, ap, if◌then◌else◌, Bool-cases, Option-cases, is_blank, arith, length, subst,
}

-- A new attempt in a state, before all others.
abbrev pub Adds : ℕ → AttemptState → List Attempt → List Attempt → Type 0
Adds id to xs ys = (a : Attempt) × (a.id ≡ id) × (a.state ≡ to) × (ys ≡ a ∷ xs)

cons-state_of :
    (i : ℕ) (a : Attempt) (xs : List Attempt)
    → state_of i (a ∷ xs) ≡ (if a.id == i then some a.state else state_of i xs)
unfolding state_of find_attempt
cons-state_of i a xs = ground arith

pub fresh-state_of :
    (id : ℕ) (xs : List Attempt) → find_attempt id xs ≡ none → state_of id xs ≡ none
unfolding state_of
fresh-state_of id xs h = rw (h, state_of)

pub Adds-state_of :
    (id : ℕ) (to : AttemptState) (xs ys : List Attempt)
    → Adds id to xs ys
    → state_of id ys ≡ some to
Adds-state_of id to xs ys (a, named, state, added) =
    ap (state_of id) added ∙ ground (arith, cons-state_of id a xs, named, state)

pub Adds-others :
    (i id : ℕ) (to : AttemptState) (xs ys : List Attempt)
    → (i == id) ≡ false
    → Adds id to xs ys
    → state_of i ys ≡ state_of i xs
Adds-others i id to xs ys apart (a, named, state, added) =
    ap (state_of i) added ∙ ground (arith, cons-state_of i a xs, named, apart)

pub Adds-IsKeyed :
    (id : ℕ) (to : AttemptState) (xs ys : List Attempt)
    → find_attempt id xs ≡ none
    → Adds id to xs ys
    → IsKeyed xs
    → IsKeyed ys
Adds-IsKeyed id to xs ys fresh (a, named, state, added) k =
    subst IsKeyed (sym added) (ap (λ i. find_attempt i xs) named ∙ fresh, k)

module _ (key : List Ref → String) (now fresh task user : ℕ) (text : String) (j : Journal) where
  abbrev Begun : List Sender → Journal × JournalResult (ℕ × Bool) → Type 0
  Begun ws r =
      ((r.0 ≡ j) × (after_begin r.1 ws ≡ ws))
      ⊎ (Adds fresh dispatching j.attempts r.0.attempts × (after_begin r.1 ws ≡ holding fresh ∷ ws))

  existing_attempt-Begun :
      (ws : List Sender) (refs : List Ref) → Begun ws (existing_attempt key task user refs j)
  unfolding after_begin existing_attempt
  existing_attempt-Begun ws refs =
      elim (Option-cases (find_occurrence task (key refs) j.attempts)) [
        | inl missing ↦ inl (rw (missing, existing_attempt) (refl, refl))
        | inr (a, found) ↦ elim (Bool-cases (a.user_id == user)) [
          | inl mine ↦ inl (rw (found, mine, existing_attempt) (refl, refl))
          | inr other ↦ inl (rw (found, other, existing_attempt) (refl, refl))
        ]
      ]

  insert_attempt-Begun :
      (ws : List Sender) (refs : List Ref)
      → Begun ws (insert_attempt key now fresh task user text refs j)
  unfolding insert_attempt after_begin
  insert_attempt-Begun ws refs =
      elim (Bool-cases ((reserve_items fresh task refs j.items).1 == length refs)) [
        | inl all ↦
            inr (rw all ((new_attempt key now fresh task user text refs, refl, refl, refl), refl))
        | inr some_taken ↦ inl (rw some_taken (refl, refl))
      ]

  admit-Begun :
      (ws : List Sender) (owned : Bool) (refs : List Ref)
      → Begun ws (admit key now fresh owned task user text refs j)
  unfolding admit
  admit-Begun ws false refs = existing_attempt-Begun ws refs
  admit-Begun ws true refs = elim (Option-cases (find_occurrence task (key refs) j.attempts)) [
    | inl missing ↦ rw (missing, admit) (insert_attempt-Begun ws refs)
    | inr (a, found) ↦ rw (found, admit) (existing_attempt-Begun ws refs)
  ]

  normalized-Begun :
      (ws : List Sender) (owned : Bool) (o : Option (List Ref))
      → Begun ws (begin_normalized key now fresh owned task user text o j)
  unfolding begin_normalized after_begin
  normalized-Begun ws owned none = inl (refl, refl)
  normalized-Begun ws owned (some []) = inl (refl, refl)
  normalized-Begun ws owned (some (r ∷ rs)) =
      admit-Begun ws owned (sort_task_delivery_refs (r ∷ rs))

  -- An attempt is added and held, or nothing changes.
  pub begin-Begun :
      (ws : List Sender) (owned : Bool) (refs : List Ref)
      → Begun ws (begin_notification_attempt key now fresh owned task user text refs j)
  unfolding begin_notification_attempt after_begin
  begin-Begun ws owned refs = elim (Bool-cases (task == 0 || user == 0)) [
    | inl ids ↦ rw ids (inl (refl, refl))
    | inr ids ↦ elim (Bool-cases (is_blank text)) [
      | inl blank ↦ rw (ids, blank) (inl (refl, refl))
      | inr words ↦ rw (ids, words) (normalized-Begun ws owned _)
    ]
  ]

  pub queue-Adds :
      (refs : List Ref) (k : Journal)
      → queue_attempt key now fresh task user text refs j ≡ some k
      → Adds fresh retryable j.attempts k.attempts
  unfolding queue_attempt queue_items
  queue-Adds refs k h =
      (queued_attempt key now fresh task user text refs, refl, refl, ground (arith, h))

sooner-cases :
    (a : Attempt) (o : Option Attempt) (b : Attempt) → sooner a o ≡ some b → (b ≡ a) ⊎ (o ≡ some b)
unfolding sooner
sooner-cases a none b h = inl (cc)
sooner-cases a (some c) b h = elim (Bool-cases (is_sooner c a)) [
  | inl before ↦ inr (ground (arith, before))
  | inr after ↦ inl (ground (arith, after))
]

next_due-find_attempt :
    (now : ℕ) (locked : ℕ → Bool) (xs : List Attempt) (b : Attempt)
    → IsKeyed xs
    → next_due now locked xs ≡ some b
    → (find_attempt b.id xs ≡ some b) × (is_due now locked b ≡ true)
unfolding find_attempt next_due
next_due-find_attempt now locked [] b k h = cc
next_due-find_attempt now locked (a ∷ xs) b k h = elim (Bool-cases (is_due now locked a)) [
  | inr not_due ↦ behind (next_due-find_attempt now locked xs b k.1 (ground (arith, not_due)))
  | inl due ↦ elim (sooner-cases a (next_due now locked xs) b (ground (arith, due))) [
    | inl first ↦ ground (arith, first, due)
    | inr later ↦ behind (next_due-find_attempt now locked xs b k.1 later)
  ]
]
  where
    behind :
        (find_attempt b.id xs ≡ some b) × (is_due now locked b ≡ true)
        → (find_attempt b.id (a ∷ xs) ≡ some b) × (is_due now locked b ≡ true)
    behind (found, due) = elim (Bool-cases (a.id == b.id)) [
      | inr apart ↦ (ground (arith, apart, found), due)
      | inl same ↦
          let e : a.id ≡ b.id = ground (arith, same) in
          absurd (cc (k.0, found, ap (λ i. find_attempt i xs) e))
    ]

due-is_retryable :
    (now : ℕ) (locked : ℕ → Bool) (b : Attempt) → is_due now locked b ≡ true → b.state ≡ retryable
unfolding is_due is_retryable
due-is_retryable now locked b h = retry b.state (ground (arith, h))
  where
    retry : (s : AttemptState) → is_retryable s ≡ true → s ≡ retryable
    retry retryable e = refl
    retry dispatching e = cc
    retry sent e = cc
    retry uncertain e = cc
    retry rejected e = cc

-- A claim takes one waiting attempt, or nothing changes.
abbrev pub Claimed : List Sender → Journal → Journal × JournalResult (Option Intent) → Type 0
Claimed ws j r =
    ((r.0 ≡ j) × (after_claim r.1 ws ≡ ws))
    ⊎ ((id : ℕ) × (after_claim r.1 ws ≡ holding id ∷ ws)
        × (r.0.items ≡ j.items)
        × (Moves id retryable dispatching j.attempts r.0.attempts))

claim_attempt-Claimed :
    (ws : List Sender) (now : ℕ) (a : Attempt) (j : Journal) (refs : List Ref)
    → state_of a.id j.attempts ≡ some retryable
    → Claimed ws j (claim_attempt now a j refs)
unfolding claim_attempt after_claim
claim_attempt-Claimed ws now a j [] h = inl (refl, refl)
claim_attempt-Claimed ws now a j (r ∷ refs) h = inr (
  a.id,
  refl,
  refl,
  update_attempt-Moves a.id (to_dispatching now) dispatching j.attempts retryable
      (λ a. (refl, refl)) h,
)

pub claim-Claimed :
    (ws : List Sender) (now : ℕ) (locked : ℕ → Bool) (j : Journal)
    → IsKeyed j.attempts
    → Claimed ws j (claim_retryable_notification now locked j)
unfolding claim_retryable_notification after_claim
claim-Claimed ws now locked j k = elim (Bool-cases (now == 0)) [
  | inl zero_time ↦ rw zero_time (inl (refl, refl))
  | inr time ↦ elim (Option-cases (next_due now locked j.attempts)) [
    | inl nothing ↦ rw (time, nothing, claim_retryable_notification) (inl (refl, refl))
    | inr (a, found) ↦
        let (first, due) = next_due-find_attempt now locked j.attempts a k found in
        rw (time, found, claim_retryable_notification)
          (claim_attempt-Claimed ws now a j (sort_task_delivery_refs (refs_of a.id j.items)) (
            find_attempt-state_of a.id j.attempts a first
            ∙ ap some (due-is_retryable now locked a due)))
  ]
]
