-- ===== src/Outbox/Once.antt =====
-- No attempt is sent twice, whatever happens to the journal.
use blueship.Outbox.{
  Ref, AttemptState, dispatching, retryable, sent, Journal, JournalResult, find_attempt,
}
use blueship.Outbox.Resolution.{Parsed}
use blueship.Outbox.Claim.{Intent}
use blueship.Outbox.Steps.{
  holding, Deployment, after_begin, after_claim, Step, begin, queue, claim, send, confirm, resolve,
  crash,
}
use blueship.Outbox.States.{IsKeyed, MayMove}
use blueship.Outbox.Moves.{target, confirm-MayMove, resolve-MayMove}
use blueship.Outbox.Admission.{Adds, Adds-IsKeyed, begin-Begun, queue-Adds, Claimed, claim-Claimed}
use blueship.Outbox.Counts.{FineAt, IsOnce, FineAt-leave}
use blueship.Prelude.{
  ℕ, String, Bool, ◌⊎◌, inl, inr, Option, none, List, ◌∷◌, ◌≡◌, sym, subst, arith,
}
use blueship.Outbox.Senders.{
  resolve-FineAt, confirm-FineAt, send-FineAt, hold-FineAt, added-FineAt, begun-Fine, queued-Fine,
}

module _ (key : List Ref → String) (parse : String → Parsed) where
  begin-IsOnce :
      (w : Deployment) (k : Journal) (r : JournalResult (ℕ × Bool)) (fresh : ℕ)
      → find_attempt fresh w.journal.attempts ≡ none
      → ((k ≡ w.journal) × (after_begin r w.workers ≡ w.workers))
        ⊎ (Adds fresh dispatching w.journal.attempts k.attempts
            × (after_begin r w.workers ≡ holding fresh ∷ w.workers))
      → IsOnce w
      → IsOnce (record w { journal = k; workers = after_begin r w.workers })
  begin-IsOnce w k r fresh unused (inl (same, nobody)) once = record {
    keyed = subst (λ j. IsKeyed j.attempts) (sym same) once.keyed;
    fine = λ i.
        subst (λ j. FineAt i j.attempts (after_begin r w.workers) w.sends) (sym same)
          (subst (λ ws. FineAt i w.journal.attempts ws w.sends) (sym nobody) (once.fine i));
  }
  begin-IsOnce w k r fresh unused (inr (adds, somebody)) once = record {
    keyed = Adds-IsKeyed fresh dispatching w.journal.attempts k.attempts unused adds once.keyed;
    fine = λ i. subst (λ ws. FineAt i k.attempts ws w.sends) (sym somebody) (new_sender i);
  }
    where
      new_sender : (i : ℕ) → FineAt i k.attempts (holding fresh ∷ w.workers) w.sends
      new_sender i =
          added-FineAt i fresh dispatching w.journal.attempts k.attempts _ _ _ _ _ _ _ unused adds
            (λ same f. begun-Fine i fresh _ _ _ _ same f) (λ apart. ground (arith, apart))
            (omega arith) (omega arith) (once.fine i)

  claim-IsOnce :
      (w : Deployment) (k : Journal) (r : JournalResult (Option Intent))
      → Claimed w.workers w.journal (k, r)
      → IsOnce w
      → IsOnce (record w { journal = k; workers = after_claim r w.workers })
  claim-IsOnce w k r (inl (same, nobody)) once = record {
    keyed = subst (λ j. IsKeyed j.attempts) (sym same) once.keyed;
    fine = λ i.
        subst (λ j. FineAt i j.attempts (after_claim r w.workers) w.sends) (sym same)
          (subst (λ ws. FineAt i w.journal.attempts ws w.sends) (sym nobody) (once.fine i));
  }
  claim-IsOnce w k r (inr (id, somebody, _, moved)) once = record {
    keyed = moved.3 once.keyed;
    fine = λ i.
        subst (λ ws. FineAt i k.attempts ws w.sends) (sym somebody)
          (hold-FineAt i id w.journal.attempts k.attempts w.workers w.sends moved (once.fine i));
  }

  MayMove-IsKeyed :
      (id : ℕ) (from to : AttemptState) {j k : Journal}
      → MayMove id from to j k
      → IsKeyed j.attempts
      → IsKeyed k.attempts
  MayMove-IsKeyed id from to (inl same) keyed = subst (λ m. IsKeyed m.attempts) (sym same) keyed
  MayMove-IsKeyed id from to (inr (_, moved)) keyed = moved.3 keyed

  pub Step-IsOnce : {w v : Deployment} → Step key parse w v → IsOnce w → IsOnce v
  Step-IsOnce {w} (begin now fresh owned task user text refs unused) once =
      begin-IsOnce w _ _ fresh unused
        (begin-Begun key now fresh task user text w.journal w.workers owned refs) once
  Step-IsOnce {w} (queue now fresh task user text refs j unused queued) once =
      let adds = queue-Adds key now fresh task user text w.journal refs j queued in
      record {
        keyed = Adds-IsKeyed fresh retryable w.journal.attempts j.attempts unused adds once.keyed;
        fine = λ i.
            added-FineAt i fresh retryable w.journal.attempts j.attempts _ _ _ _ _ _ _ unused adds
              (λ same f. queued-Fine _ _ _ _ f) (λ apart. omega arith) (omega arith) (omega arith)
              (once.fine i);
      }
  Step-IsOnce {w} (claim now locked) once =
      claim-IsOnce w _ _ (claim-Claimed w.workers now locked w.journal once.keyed) once
  Step-IsOnce {w} (send id o before after here_held) once = record {
    keyed = once.keyed;
    fine = λ i. send-FineAt i id o w.journal.attempts before after w.sends here_held (once.fine i);
  }
  Step-IsOnce {w} (confirm now id o receipt before after here_held may) once =
      let moved = confirm-MayMove parse now id receipt w.journal in
      record {
        keyed = MayMove-IsKeyed id dispatching sent moved once.keyed;
        fine = λ i.
            confirm-FineAt i id o w.journal _ before after w.sends may moved here_held
              (once.fine i);
      }
  Step-IsOnce {w} (resolve now id o before after here_held) once =
      let moved = resolve-MayMove parse now id o w.journal in
      record {
        keyed = MayMove-IsKeyed id dispatching (target o) moved once.keyed;
        fine = λ i.
            resolve-FineAt i id o w.journal _ before after w.sends moved here_held (once.fine i);
      }
  Step-IsOnce {w} (crash x before after here_held) once = record {
    keyed = once.keyed;
    fine = λ i. FineAt-leave i w.journal.attempts before x after w.sends here_held (once.fine i);
  }
