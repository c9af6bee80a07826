-- ===== src/FinalValidation/Safe.antt =====
-- No report leaves the validation that has not passed the checks that its outcome promises.
use blueship.FinalValidation.{FinalValidation, Store, World, completed, M, ◌>>=◌}
use blueship.FinalValidation.Stages.{
  validate_graph_result, round, examine, guard_response, or_fail, collect_evidence, begin_attempt,
  candidate, finish, load,
}
use blueship.FinalValidation.Triples.{>>=-Ensures, if-Ensures}
use blueship.FinalValidation.Sound.{Approved, IsSound, IsSoundStore, IsSafeEnd, Exit}
use blueship.FinalValidation.Repairs.{
  Goes, Leads, IsOpen, load-Leads, with_history-Leads, candidate-Leads, begin_attempt-Leads,
  or_fail-Leads,
}
use blueship.FinalValidation.Reviews.{IsChecked, guard_response-Leads, judge-Leads}
use blueship.Prelude.{ℕ, zero, suc, String}

abbrev pub Any : {A : Type 0} → A → Type 0
Any _ = Unit

module _ (w : World) where
  -- Two parts in turn.
  then-Leads :
      {A B : Type 0} (p : A → Type 0) (q : B → Type 0) (m : M A) (f : A → M B) (st : Store)
      → Leads w p (m st)
      → ((a : A) (st' : Store) → Goes w p a st' → Leads w q (f a st'))
      → Leads w q ((m >>= f) st)
  then-Leads p q m f st h k = >>=-Ensures (Exit w) (Goes w p) (Goes w q) m f st h k

  examine-Leads :
      (v : FinalValidation) (body : String) (st : Store)
      → IsOpen w v
      → IsSoundStore w st
      → Leads w Any (examine w v body st)
  unfolding examine Approved
  examine-Leads v body st sv s =
      then-Leads (λ r. IsOpen w r.0) Any (candidate w v body) _ st
        (candidate-Leads w v body st sv s)
        λ (v₁, text) st₁ (sv₁, s₁).
          then-Leads (IsOpen w) Any (begin_attempt w v₁) _ st₁ (begin_attempt-Leads w v₁ st₁ sv₁ s₁)
            λ v₂ st₂ (sv₂, s₂).
              then-Leads Any Any (or_fail w (collect_evidence w w.checkpoints)) _ st₂
                (or_fail-Leads w (collect_evidence w w.checkpoints) st₂ s₂)
                λ (receipts, traces) st₃ (_, s₃).
                  then-Leads (IsChecked w) Any (guard_response w v₂ text receipts) _ st₃
                    (guard_response-Leads w v₂ text receipts st₃ sv₂ s₃)
                    λ v₄ st₄ (sv₄, s₄).
                      then-Leads Any Any (or_fail w (w.marshal traces)) _ st₄
                        (or_fail-Leads w (w.marshal traces) st₄ s₄)
                        λ raw st₅ (_, s₅). with_history-Leads w Any _ st₅ (
                          judge-Leads w v₄ (w.review st₅.history v₄.safe_body raw v₄.verdict) st₅
                            (λ available met. (st₅.history, raw, v₄.verdict, available, met)) sv₄
                            s₅)

  round-Leads : (body : String) (st : Store) → IsSoundStore w st → Leads w Any (round w body st)
  unfolding round finish IsSafeEnd
  round-Leads body st s =
      then-Leads (IsSound w) Any (load w body) _ st (load-Leads w body st s) λ v st₁ (sv, s₁).
        if-Ensures (Exit w) (Goes w Any) v.accepted (finish w completed v.safe_body "")
          (examine w v body) st₁
          (λ accepted. ((sv.guarded (sv.checked accepted), sv.approved accepted), s₁))
          (λ unaccepted. examine-Leads v body st₁ (sv, unaccepted) s₁)

  -- Started with sound records, validateGraphResult leaves sound records in the database at every
  -- moment, a text that it finishes the task with as completed has passed the output guard and the
  -- reviewer, and one that it finishes the task with as partial is empty or has passed the guard.
  pub validate_graph_result-safe :
      (fuel : ℕ) (body : String) (st : Store)
      → IsSoundStore w st
      → Leads w Any (validate_graph_result w fuel body st)
  unfolding validate_graph_result IsSafeEnd
  validate_graph_result-safe zero body st s = (tt, s)
  validate_graph_result-safe (suc fuel) body st s =
      then-Leads Any Any (round w body) (λ _. validate_graph_result w fuel body) st
        (round-Leads body st s) (λ _ st' h. validate_graph_result-safe fuel body st' h.1)
