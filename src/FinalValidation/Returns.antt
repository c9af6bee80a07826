-- ===== src/FinalValidation/Returns.antt =====
-- What the parts of `validateGraphResult` return, and how many repairs they leave used.
use blueship.Grounding.{AcceptanceVerdict}
use blueship.FinalValidation.{
  FinalValidation, Store, World, Answer, Outcome, out_of_fuel, Flow, ◌>>=◌, pure,
}
use blueship.FinalValidation.Stages.{
  examine, judge, guard_response, guard_with, use_guard, accept_safe, defer_check, or_fail,
  collect_evidence, begin_attempt, candidate, repair_with, give_up_repair, use_repair, adopt,
  repair_failed, finish, history_of, save, load,
}
use blueship.FinalValidation.Triples.{Ensures, Ensures-map, >>=-Ensures, if-Ensures}
use blueship.Prelude.{
  ℕ, suc, ◌≤◌, String, true, ◌≡◌, List, ◌∷◌, Option, none, some, inl, inr, refl, sym, ◌∙◌,
  true≢false, arith, Bool-cases, if◌then◌else◌, str_eq, eq_iff,
}

unfoldable pub IsReturn : Outcome → Store → Type 0
IsReturn out_of_fuel st = ⊥
IsReturn o st = Unit

abbrev pub Ends : {A : Type 0} → (A → Store → Type 0) → Flow A → Type 0
Ends = Ensures IsReturn

-- The same candidate, with the same number of repairs.
abbrev IsSame : FinalValidation → FinalValidation → Type 0
IsSame v v' = (v'.candidate_hash ≡ v.candidate_hash) × (v'.repair_attempts ≡ v.repair_attempts)

module _ (w : World) where
  defer_check-Ends :
      {A : Type 0} (q : A → Store → Type 0) (v : FinalValidation) (reason : String) (delay : ℕ)
      (st : Store)
      → Ends q (defer_check w v reason delay st)
  unfolding defer_check save history_of finish ◌>>=◌ IsReturn
  defer_check-Ends q v reason delay st = ground arith

  accept_safe-Ends :
      (v : FinalValidation) (safe : String) (st : Store)
      → Ends (λ v' _. IsSame v v') (accept_safe w v safe st)
  unfolding accept_safe save ◌>>=◌ IsReturn
  accept_safe-Ends v safe st = ground arith

  begin_attempt-Ends :
      (v : FinalValidation) (st : Store) → Ends (λ v' _. IsSame v v') (begin_attempt w v st)
  unfolding begin_attempt save finish ◌>>=◌ IsReturn
  begin_attempt-Ends v st = ground arith

  use_guard-Ends :
      (v : FinalValidation) (answer : Answer) (st : Store)
      → Ends (λ v' _. IsSame v v') (use_guard w v answer st)
  unfolding use_guard
  use_guard-Ends v (inl delay) st = defer_check-Ends (λ v' _. IsSame v v') v _ delay st
  use_guard-Ends v (inr safe) st = ground (
    arith,
    defer_check-Ends (λ v' _. IsSame v v') v "response_validation_empty" 0 st,
    accept_safe-Ends v safe st,
  )

  guard_with-Ends :
      (validator : Option (List FinalValidation → String → List String → Answer))
      (v : FinalValidation) (body : String) (receipts : List String) (st : Store)
      → Ends (λ v' _. IsSame v v') (guard_with w validator v body receipts st)
  unfolding guard_with history_of ◌>>=◌
  guard_with-Ends none v body receipts st = accept_safe-Ends v body st
  guard_with-Ends (some validate) v body receipts st =
      use_guard-Ends v (validate st.history body receipts) st

  guard_response-Ends :
      (v : FinalValidation) (body : String) (receipts : List String) (st : Store)
      → Ends (λ v' _. IsSame v v') (guard_response w v body receipts st)
  unfolding guard_response
  guard_response-Ends v body receipts st =
      if-Ensures IsReturn (λ v' _. IsSame v v') v.response_checked _ _ st (λ _. (refl, refl))
        (λ _. guard_with-Ends w.validator v body receipts st)

  -- A record that waits for a repair.
  abbrev IsWaiting : FinalValidation → FinalValidation → Type 0
  IsWaiting v v' = IsSame v v' × (v'.repair_pending ≡ true)

  judge-Ends :
      (v : FinalValidation) (verdict : AcceptanceVerdict) (st : Store)
      → Ends (λ _ st'. IsWaiting v st'.saved) (judge w v verdict st)
  unfolding judge save finish ◌>>=◌ IsReturn
  judge-Ends v verdict st = ground (
    arith,
    defer_check-Ends {A = Unit {0}} (λ _ st'. IsWaiting v st'.saved)
        (record v { verdict = some verdict }) verdict.reason verdict.retry_delay st,
  )

  repair_failed-Ends :
      {A : Type 0} (q : A → Store → Type 0) (v : FinalValidation) (delay : ℕ) (st : Store)
      → Ends q (repair_failed w v delay st)
  unfolding repair_failed history_of finish ◌>>=◌ IsReturn
  repair_failed-Ends q v delay st = ground arith

  use_repair-Ends :
      (v : FinalValidation) (answer : Answer) (st : Store)
      → Ends (λ r _. IsSame v r.0) (use_repair w v answer st)
  unfolding use_repair adopt save ◌>>=◌ IsReturn
  use_repair-Ends v (inl delay) st =
      repair_failed-Ends {A = FinalValidation × String} (λ r _. IsSame v r.0) v delay st
  use_repair-Ends v (inr revised) st =
      ground (arith, repair_failed-Ends {A = FinalValidation × String} (λ r _. IsSame v r.0) v 0 st)

  -- One more repair, which was not the third.
  abbrev IsRepaired : FinalValidation → FinalValidation → Type 0
  IsRepaired v v' =
      (v'.candidate_hash ≡ v.candidate_hash)
      × (v'.repair_attempts ≡ suc v.repair_attempts)
      × (v.repair_attempts ≤ 1)

  repair_with-Ends :
      (repairer : Option (List FinalValidation → String → String → Answer)) (v : FinalValidation)
      (st : Store)
      → Ends (λ r _. IsRepaired v r.0) (repair_with w repairer v st)
  unfolding repair_with give_up_repair finish history_of ◌>>=◌ save IsReturn
  repair_with-Ends none v st = tt
  repair_with-Ends (some repair_result) v st =
      let v' = record v { repair_attempts = suc v.repair_attempts } in
      let st' = record st { saved = v'; history = v' ∷ st.history } in
      ground (arith, use_repair-Ends v' (repair_result st'.history v.safe_body v.reason) st')

  -- What `candidate` and the rest do to the number of repairs.
  abbrev IsNext : FinalValidation → FinalValidation → Type 0
  IsNext v v' = (v'.candidate_hash ≡ v.candidate_hash) × (v.repair_pending ≡ true → IsRepaired v v')

  candidate-Ends :
      (v : FinalValidation) (body : String) (st : Store)
      → Ends (λ r _. IsNext v r.0) (candidate w v body st)
  unfolding candidate
  candidate-Ends v body st =
      if-Ensures IsReturn (λ r _. IsNext v r.0) v.repair_pending (repair_with w w.repairer v)
        (pure (v, if str_eq v.repair_body "" then body else v.repair_body)) st
        (λ t.
          Ensures-map IsReturn (λ r _. IsRepaired v r.0) (λ r _. IsNext v r.0)
            (repair_with w w.repairer v st) (λ r _ h. (h.0, λ _. h))
            (repair_with-Ends w.repairer v st))
        (λ f. (refl, λ t. absurd (true≢false (sym t ∙ f))))

  -- After a rejection the record waits for a repair.
  abbrev pub IsLater : FinalValidation → FinalValidation → Type 0
  IsLater v v' = IsNext v v' × (v'.repair_pending ≡ true)

  or_fail-Ends : {A : Type 0} (o : Option A) (st : Store) → Ends (λ _ _. Unit) (or_fail w o st)
  unfolding or_fail IsReturn
  or_fail-Ends none st = tt
  or_fail-Ends (some a) st = tt

  pub examine-Ends :
      (v : FinalValidation) (body : String) (st : Store)
      → Ends (λ _ st'. IsLater v st'.saved) (examine w v body st)
  unfolding examine history_of
  examine-Ends v body st =
      let goal : Unit {0} → Store → Type 0 = λ _ st'. IsLater v st'.saved in
      >>=-Ensures IsReturn (λ r _. IsNext v r.0) goal (candidate w v body) _ st
        (candidate-Ends v body st)
        λ (v₁, text) st₁ n₁.
          >>=-Ensures IsReturn (λ v' _. IsSame v₁ v') goal (begin_attempt w v₁) _ st₁
            (begin_attempt-Ends v₁ st₁)
            λ v₂ st₂ n₂.
              >>=-Ensures IsReturn (λ _ _. Unit) goal (or_fail w (collect_evidence w w.checkpoints))
                _ st₂ (or_fail-Ends (collect_evidence w w.checkpoints) st₂)
                λ (receipts, traces) st₃ _.
                  >>=-Ensures IsReturn (λ v' _. IsSame v₂ v') goal
                    (guard_response w v₂ text receipts) _ st₃
                    (guard_response-Ends v₂ text receipts st₃)
                    λ v₄ st₄ n₄.
                      >>=-Ensures IsReturn (λ _ _. Unit) goal (or_fail w (w.marshal traces)) _ st₄
                        (or_fail-Ends (w.marshal traces) st₄)
                        λ raw st₅ _.
                          >>=-Ensures IsReturn (λ _ _. Unit) goal (history_of w) _ st₅ tt
                            λ h st₆ _.
                              Ensures-map IsReturn (λ _ st'. IsWaiting v₄ st'.saved) goal
                                (judge w v₄ (w.review h v₄.safe_body raw v₄.verdict) st₆)
                                (λ _ st' waits.
                                  let hash = waits.0.0 ∙ n₄.0 ∙ n₂.0 ∙ n₁.0 in
                                  let count = waits.0.1 ∙ n₄.1 ∙ n₂.1 in
                                  (
                                    (
                                      hash,
                                      λ p.
                                          let repaired = n₁.1 p in
                                          (hash, count ∙ repaired.1, repaired.2),
                                    ),
                                    waits.1,
                                  ))
                                (judge-Ends v₄ (w.review h v₄.safe_body raw v₄.verdict) st₆)

  -- The record of this candidate waits for a repair, after so many repairs or more.
  abbrev pub IsWaitingAfter : String → ℕ → Store → Type 0
  IsWaitingAfter body n st =
      (st.saved.candidate_hash ≡ w.hash body)
      × (st.saved.repair_pending ≡ true)
      × (n ≤ st.saved.repair_attempts)

  -- What a pass has read, and what it leaves if it does not return.
  abbrev pub IsRead : String → Store → FinalValidation → Type 0
  IsRead body st v =
      (v.candidate_hash ≡ w.hash body) × (st.saved.candidate_hash ≡ w.hash body → v ≡ st.saved)

  pub load-Ends : (body : String) (st : Store) → Ends (λ v _. IsRead body st v) (load w body st)
  unfolding load IsReturn
  load-Ends body st = elim (Bool-cases (w.get_ok st.history)) [
    | inr t ↦ rw (t, load) tt
    | inl t ↦ elim (Bool-cases (str_eq st.saved.candidate_hash (w.hash body))) [
      | inl e ↦ rw (t, e, load) ((eq_iff st.saved.candidate_hash (w.hash body)).0 e, λ _. refl)
      | inr e ↦
          rw (t, e, load)
            (
              refl,
              λ same.
                  absurd
                    (true≢false (sym ((eq_iff st.saved.candidate_hash (w.hash body)).1 same) ∙ e)),
            )
    ]
  ]
