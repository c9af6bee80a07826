-- ===== src/FinalValidation/Reviews.antt =====
-- The output guard and the review keep the records of the database sound.
use blueship.Grounding.{AcceptanceVerdict}
use blueship.FinalValidation.{FinalValidation, Store, Answer, World, completed, pure}
use blueship.FinalValidation.Stages.{
  judge, guard_response, guard_with, use_guard, accept_safe, defer_check, finish, save,
}
use blueship.FinalValidation.Triples.{if-Ensures}
use blueship.FinalValidation.Sound.{
  Guarded, Approved, IsPresentable, IsSound, IsSoundStore, IsSafeEnd, Exit,
}
use blueship.FinalValidation.Repairs.{
  Goes, Leads, IsOpen, save-Leads, save_then-Leads, with_history-Leads, noted-IsSound,
  defer_check-Leads,
}
use blueship.Prelude.{
  String, true, false, not, inl, inr, Option, some, none, List, ◌≡◌, refl, sym, is_blank, arith,
  true≢false, ◌∙◌,
}

module _ (w : World) where
  -- An open record whose text has passed the guard.
  abbrev pub IsChecked : FinalValidation → Type 0
  IsChecked v = IsOpen w v × (v.response_checked ≡ true)

  pub accept_safe-Leads :
      (v : FinalValidation) (safe : String) (st : Store)
      → IsOpen w v
      → Guarded w safe
      → IsSoundStore w st
      → Leads w IsChecked (accept_safe w v safe st)
  unfolding accept_safe IsPresentable
  accept_safe-Leads v safe st sv g s =
      let v' = record v { safe_body = safe; last_checked_body = safe; response_checked = true } in
      let sv' : IsSound w v' = record {
        guarded = λ h. g;
        checked = λ h. refl;
        approved = λ h. absurd (true≢false (sym h ∙ sv.1));
        presentable = inr g;
        repairs = sv.0.repairs;
        checks = sv.0.checks;
      } in
      save_then-Leads w IsChecked v' (pure v') st sv' s λ st' s'. (((sv', sv.1), refl), s')

  pub use_guard-Leads :
      (v : FinalValidation) (answer : Answer) (st : Store)
      → ((safe : String) → answer ≡ inr safe → is_blank safe ≡ false → Guarded w safe)
      → IsOpen w v
      → IsSoundStore w st
      → Leads w IsChecked (use_guard w v answer st)
  unfolding use_guard
  use_guard-Leads v (inl delay) st g sv s =
      defer_check-Leads w IsChecked v "response_validation_unavailable" delay st sv.0 s
  use_guard-Leads v (inr safe) st g sv s =
      if-Ensures (Exit w) (Goes w IsChecked) (is_blank safe)
        (defer_check w v "response_validation_empty" 0) (accept_safe w v safe) st
        (λ _. defer_check-Leads w IsChecked v "response_validation_empty" 0 st sv.0 s)
        (λ full. accept_safe-Leads v safe st sv (g safe refl full) s)

  pub guard_with-Leads :
      (validator : Option (List FinalValidation → String → List String → Answer))
      (v : FinalValidation) (body : String) (receipts : List String) (st : Store)
      → w.validator ≡ validator
      → IsOpen w v
      → IsSoundStore w st
      → Leads w IsChecked (guard_with w validator v body receipts st)
  unfolding guard_with Guarded
  guard_with-Leads none v body receipts st same sv s = accept_safe-Leads v body st sv (inl same) s
  guard_with-Leads (some validate) v body receipts st same sv s =
      with_history-Leads w IsChecked _ st (
        use_guard-Leads v (validate st.history body receipts) st
          (λ safe ok full. inr (validate, st.history, body, receipts, same, ok, full)) sv s)

  pub guard_response-Leads :
      (v : FinalValidation) (body : String) (receipts : List String) (st : Store)
      → IsOpen w v
      → IsSoundStore w st
      → Leads w IsChecked (guard_response w v body receipts st)
  unfolding guard_response
  guard_response-Leads v body receipts st sv s =
      if-Ensures (Exit w) (Goes w IsChecked) v.response_checked (pure v)
        (guard_with w w.validator v body receipts) st (λ done. ((sv, done), s))
        (λ _. guard_with-Leads w.validator v body receipts st refl sv s)

  pub judge-Leads :
      (v : FinalValidation) (verdict : AcceptanceVerdict) (st : Store)
      → (verdict.unavailable ≡ false → verdict.met ≡ true → Approved w v.safe_body)
      → IsChecked v
      → IsSoundStore w st
      → Leads w (λ _. Unit) (judge w v verdict st)
  unfolding judge finish IsSafeEnd
  judge-Leads v verdict st ok ((sv, unaccepted), done) s =
      if-Ensures (Exit w) (Goes w (λ _. Unit)) verdict.unavailable
        (defer_check w (record v { verdict = some verdict }) verdict.reason verdict.retry_delay) _
        st
        (λ _.
          defer_check-Leads w (λ _. Unit) (record v { verdict = some verdict }) verdict.reason
            verdict.retry_delay st (noted-IsSound w v (some verdict) v.reason v.repair_pending sv)
            s)
        (λ available.
          if-Ensures (Exit w) (Goes w (λ _. Unit)) (not verdict.met)
            (save w
              (record v { verdict = some verdict; reason = verdict.reason; repair_pending = true }))
            _ st
            (λ _. save-Leads w _ st (noted-IsSound w v (some verdict) verdict.reason true sv) s)
            (λ unmet.
              let v' = record v { verdict = some verdict; accepted = true; reason = "" } in
              let good = ok available (ground arith) in
              let sv' : IsSound w v' = record {
                guarded = sv.guarded;
                checked = λ h. done;
                approved = λ h. good;
                presentable = sv.presentable;
                repairs = sv.repairs;
                checks = sv.checks;
              } in
              save_then-Leads w (λ _. Unit) v' (finish w completed v.safe_body "") st sv' s
                λ st' s'. ((sv.guarded done, good), s')))
