-- ===== src/Outbox/Runs.antt =====
-- A run of `deliverTaskNotification` as a session of one sender.
use blueship.Outbox.{Ref, Journal, JournalResult, ok, err, find_attempt}
use blueship.Outbox.Ops.{begin_notification_attempt}
use blueship.Outbox.Resolution.{Parsed}
use blueship.Outbox.Claim.{Intent}
use blueship.Outbox.Deliver.{
  CallOutcome, called, deliver_created, deliver_keyed, deliver_task_notification,
}
use blueship.Outbox.Steps.{Deployment, Reach}
use blueship.Outbox.Session.{
  Sent, reached, begun_intent, Opening, begun, Session, over, nothing, turn, Session-Reach,
}
use blueship.Prelude.{
  ℕ, String, Bool, true, false, ◌||◌, inl, inr, Option, none, some, List, [], ◌∷◌, ◌≡◌, refl, All,
  if◌then◌else◌, arith, Bool-cases, is_blank, str_eq, trim_space,
}

abbrev pub intents : List Sent → List Intent
intents [] = []
intents (c ∷ calls) = c.intent ∷ intents calls

abbrev at_most_one : Option Intent → List Intent
at_most_one none = []
at_most_one (some i) = i ∷ []

abbrev is_no_refs : List Ref → Bool
is_no_refs [] = true
is_no_refs (r ∷ refs) = false

module _ (key : List Ref → String) (parse : String → Parsed) where
  -- One sender alone makes the journal `k`, with calls that `answers` describes; for the system it is
  -- a history of steps after which the other senders are as they were, and the attempts of the calls
  -- that may have reached the user are recorded.
  abbrev pub Becomes : (Sent → Type 0) → (List Sent → Type 0) → Deployment → Journal → Type 0
  Becomes answers all w k =
      (calls : List Sent) × all calls
      × All answers calls
      × Session key parse w.journal calls k
      × Reach key parse w (record w { journal = k; sends = reached calls w.sends })

  -- The outcome is the one of the transport.
  abbrev pub IsDelivery : Option (ℕ → CallOutcome) → Sent → Type 0
  IsDelivery notify c = c.outcome ≡ called key parse notify c.intent.id

  -- The notification that is to be sent: there are words and refs, and this begin creates an attempt.
  abbrev pub due : ℕ → ℕ → Bool → ℕ → ℕ → String → List Ref → Journal → List Intent
  due now fresh owned task user text refs j =
      if is_blank text || str_eq (trim_space text) "[no-op]" || is_no_refs refs
      then []
      else at_most_one (
          begun_intent task user text refs
            (begin_notification_attempt key now fresh owned task user text refs j).1)

  pub becomes :
      {answers : Sent → Type 0} {all : List Sent → Type 0} (w : Deployment) (k : Journal)
      (calls : List Sent)
      → all calls
      → All answers calls
      → Session key parse w.journal calls k
      → Becomes answers all w k
  becomes w k calls complete right session =
      (calls, complete, right, session, Session-Reach key parse w session)

  created-Becomes :
      (now task user : ℕ) (text : String) (refs : List Ref) (notify : Option (ℕ → CallOutcome))
      (w : Deployment) (j : Journal) (r : JournalResult (ℕ × Bool))
      → Opening key parse w.journal (begun_intent task user text refs r) j
      → Becomes
          (IsDelivery notify)
          (λ calls. intents calls ≡ at_most_one (begun_intent task user text refs r))
          w
          (deliver_created key parse now notify j r).0
  unfolding deliver_created begun_intent
  created-Becomes now task user text refs notify w j (err e) got =
      becomes w j [] refl tt (nothing got over)
  created-Becomes now task user text refs notify w j (ok (id, false)) got =
      becomes w j [] refl tt (nothing got over)
  created-Becomes now task user text refs notify w j (ok (id, true)) got =
      let i : Intent = record {
        id = id;
        task_id = task;
        user_id = user;
        text = text;
        refs = refs;
      } in
      let o = called key parse notify id in
      becomes w _ (record { intent = i; outcome = o } ∷ []) refl (refl, tt) (turn now i o got over)

  -- A run of deliverTaskNotification with an identifier that is not in use is a session of one sender.
  -- If there are words and refs and its begin creates an attempt, it calls the transport once for
  -- this attempt, and resolves it with the outcome of this call, or as not sent if there is no transport;
  -- otherwise it makes no journaled call. For the system the session is a history of steps that leaves
  -- the other senders as they are.
  pub deliver-Reach :
      (now fresh : ℕ) (owned : Bool) (task user : ℕ) (text : String) (refs : List Ref)
      (notify : Option (ℕ → CallOutcome)) (w : Deployment)
      → find_attempt fresh w.journal.attempts ≡ none
      → Becomes
          (IsDelivery notify)
          (λ calls. intents calls ≡ due now fresh owned task user text refs w.journal)
          w
          (deliver_task_notification key parse now fresh owned task user text refs notify
            w.journal).0
  unfolding deliver_task_notification deliver_keyed
  deliver-Reach now fresh owned task user text [] notify w unused =
      elim (Bool-cases (is_blank text || str_eq (trim_space text) "[no-op]")) [
        | inl silent ↦ rw silent (becomes w w.journal [] (ground arith) tt over)
        | inr words ↦ rw words (becomes w w.journal [] (ground arith) tt over)
      ]
  deliver-Reach now fresh owned task user text (r ∷ refs) notify w unused =
      elim (Bool-cases (is_blank text)) [
        | inl blank ↦ rw blank (becomes w w.journal [] refl tt over)
        | inr given ↦ elim (Bool-cases (str_eq (trim_space text) "[no-op]")) [
          | inl silent ↦ rw (given, silent) (becomes w w.journal [] refl tt over)
          | inr words ↦
              rw (given, words)
                (created-Becomes now task user text (r ∷ refs) notify w _ _
                  (begun now fresh owned task user text (r ∷ refs) unused refl refl))
        ]
      ]
