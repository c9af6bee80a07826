-- ===== src/FinalValidation/Repairs.antt =====
-- The first parts of the validation, and the repair of a rejected candidate, keep the records of the
-- database sound.
use blueship.Grounding.{AcceptanceVerdict}
use blueship.FinalValidation.{
  FinalValidation, no_validation, checked_body, Store, Answer, World, partial, yielded, Flow, M,
  ◌>>=◌, ◌>>◌, pure, exit,
}
use blueship.FinalValidation.Stages.{
  defer_check, or_fail, begin_attempt, candidate, repair_with, give_up_repair, use_repair, adopt,
  repair_failed, finish, grounded, enough_time, too_late, history_of, save, load,
}
use blueship.FinalValidation.Triples.{Ensures, >>=-Ensures, if-Ensures}
use blueship.FinalValidation.Sound.{
  IsSound, IsSoundStore, IsSafeEnd, Exit, checked_body-IsPresentable, no_validation-IsSound,
}
use blueship.Prelude.{
  ℕ, suc, ◌+◌, ◌*◌, max, ◌≤◌, String, Bool, true, false, not, ◌||◌, inl, inr, Option, some, none,
  List, ◌≡◌, sym, is_blank, if◌then◌else◌, Bool-cases, arith, leb, str_eq, true≢false, ◌∙◌,
}

module _ (w : World) where
  -- What a part gives when it goes on: a value of which P holds, with a sound database.
  abbrev pub Goes : {A : Type 0} → (A → Type 0) → A → Store → Type 0
  Goes p a st = p a × IsSoundStore w st

  abbrev pub Leads : {A : Type 0} → (A → Type 0) → Flow A → Type 0
  Leads p = Ensures (Exit w) (Goes p)

  abbrev pub IsOpen : FinalValidation → Type 0
  IsOpen v = IsSound w v × (v.accepted ≡ false)

  pub loaded-IsSound :
      (known : Bool) (v : FinalValidation) (hash : String)
      → IsSound w v
      → IsSound w (if known then v else record no_validation { candidate_hash = hash })
  loaded-IsSound true v hash s = s
  loaded-IsSound false v hash s = no_validation-IsSound w hash

  pub load-Leads :
      (body : String) (st : Store) → IsSoundStore w st → Leads (IsSound w) (load w body st)
  unfolding load IsSafeEnd IsSoundStore
  load-Leads body st s = elim (Bool-cases (w.get_ok st.history)) [
    | inl t ↦
        rw (t, load)
          (
            loaded-IsSound (str_eq st.saved.candidate_hash (w.hash body)) st.saved (w.hash body)
                s.0,
            s,
          )
    | inr t ↦ rw (t, load) (tt, s)
  ]

  pub save-Leads :
      (v : FinalValidation) (st : Store)
      → IsSound w v
      → IsSoundStore w st
      → Leads (λ _. Unit) (save w v st)
  unfolding save IsSafeEnd IsSoundStore
  save-Leads v st sv s = elim (Bool-cases (w.save_ok st.history v)) [
    | inl t ↦ rw (t, save) (tt, (sv, (sv, s.1)))
    | inr t ↦ rw (t, save) (tt, s)
  ]

  pub save_then-Leads :
      {A : Type 0} (p : A → Type 0) (v : FinalValidation) (m : M A) (st : Store)
      → IsSound w v
      → IsSoundStore w st
      → ((st' : Store) → IsSoundStore w st' → Leads p (m st'))
      → Leads p ((save w v >> m) st)
  save_then-Leads p v m st sv s k =
      >>=-Ensures (Exit w) (Goes (λ _. Unit)) (Goes p) (save w v) (λ _. m) st (save-Leads v st sv s)
        (λ _ st' h. k st' h.1)

  pub partial-Leads :
      {A : Type 0} (p : A → Type 0) (v : FinalValidation) (reason : String) (st : Store)
      → IsSound w v
      → IsSoundStore w st
      → Leads p (finish w partial (checked_body v) reason st)
  unfolding finish IsSafeEnd
  partial-Leads p v reason st sv s = (checked_body-IsPresentable w v sv, s)

  pub with_history-Leads :
      {A : Type 0} (p : A → Type 0) (f : List FinalValidation → M A) (st : Store)
      → Leads p (f st.history st)
      → Leads p ((history_of w >>= f) st)
  unfolding history_of ◌>>=◌
  with_history-Leads p f st h = h

  pub end_or_wait-Leads :
      {A : Type 0} (p : A → Type 0) (late : Bool) (v : FinalValidation) (reason : String) (next : ℕ)
      (st : Store)
      → IsSound w v
      → IsSoundStore w st
      → Leads p
          ((if late then finish w partial (checked_body v) reason else exit (yielded next)) st)
  unfolding IsSafeEnd
  end_or_wait-Leads p true v reason next st sv s = partial-Leads p v reason st sv s
  end_or_wait-Leads p false v reason next st sv s = (tt, s)

  pub repair_failed-Leads :
      {A : Type 0} (p : A → Type 0) (v : FinalValidation) (delay : ℕ) (st : Store)
      → IsSound w v
      → IsSoundStore w st
      → Leads p (repair_failed w v delay st)
  unfolding repair_failed
  repair_failed-Leads p v delay st sv s =
      let next = w.now st.history + max 5000 delay in
      with_history-Leads p _ st (
        end_or_wait-Leads p (leb 2 v.repair_attempts || too_late w next) v
          "final_repair_unavailable" next st sv s)

  pub noted-IsSound :
      (v : FinalValidation) (verdict : Option AcceptanceVerdict) (reason : String) (pending : Bool)
      → IsSound w v
      → IsSound w (record v { verdict = verdict; reason = reason; repair_pending = pending })
  noted-IsSound v verdict reason pending sv = record {
    guarded = sv.guarded;
    checked = sv.checked;
    approved = sv.approved;
    presentable = sv.presentable;
    repairs = sv.repairs;
    checks = sv.checks;
  }

  pub defer_check-Leads :
      {A : Type 0} (p : A → Type 0) (v : FinalValidation) (reason : String) (delay : ℕ) (st : Store)
      → IsSound w v
      → IsSoundStore w st
      → Leads p (defer_check w v reason delay st)
  unfolding defer_check
  defer_check-Leads p v reason delay st sv s =
      let sv' = noted-IsSound v v.verdict reason v.repair_pending sv in
      save_then-Leads p (record v { reason = reason }) _ st sv' s
        λ st' s'.
          let next = w.now st'.history + max (v.attempts * 5000) delay in
          with_history-Leads p _ st' (
            end_or_wait-Leads p (leb 3 v.attempts || too_late w next) (record v { reason = reason })
              "final_verification_unavailable" next st' sv' s')

  pub adopt-Leads :
      (v : FinalValidation) (revised : String) (st : Store)
      → IsOpen v
      → IsSoundStore w st
      → Leads (λ r. IsOpen r.0) (adopt w v revised st)
  unfolding adopt
  adopt-Leads v revised st sv s =
      let open' : IsSound w (record v {
        repair_body = revised;
        attempts = 0;
        repair_pending = false;
        last_checked_body = checked_body v;
        response_checked = false;
        safe_body = "";
        verdict = none;
      }) =
        record {
          guarded = λ h. cc;
          checked = λ h. absurd (true≢false (sym h ∙ sv.1));
          approved = λ h. absurd (true≢false (sym h ∙ sv.1));
          presentable = checked_body-IsPresentable w v sv.0;
          repairs = sv.0.repairs;
          checks = omega arith;
        } in
      save_then-Leads (λ r. IsOpen r.0) _ _ st open' s λ st' s'. ((open', sv.1), s')

  pub use_repair-Leads :
      (v : FinalValidation) (answer : Answer) (st : Store)
      → IsOpen v
      → IsSoundStore w st
      → Leads (λ r. IsOpen r.0) (use_repair w v answer st)
  unfolding use_repair
  use_repair-Leads v (inl delay) st sv s = repair_failed-Leads (λ r. IsOpen r.0) v delay st sv.0 s
  use_repair-Leads v (inr revised) st sv s =
      if-Ensures (Exit w) (Goes (λ r. IsOpen r.0)) (is_blank revised) (repair_failed w v 0)
        (adopt w v revised) st (λ _. repair_failed-Leads (λ r. IsOpen r.0) v 0 st sv.0 s)
        (λ _. adopt-Leads v revised st sv s)

  pub counted-IsOpen :
      (v : FinalValidation) (repairs attempts : ℕ)
      → repairs ≤ 2
      → attempts ≤ 3
      → IsOpen v
      → IsOpen (record v { repair_attempts = repairs; attempts = attempts })
  counted-IsOpen v repairs attempts hr ha (sv, unaccepted) = (
    record {
      guarded = sv.guarded;
      checked = sv.checked;
      approved = sv.approved;
      presentable = sv.presentable;
      repairs = hr;
      checks = ha;
    },
    unaccepted,
  )

  pub repair_with-Leads :
      (repairer : Option (List FinalValidation → String → String → Answer)) (v : FinalValidation)
      (st : Store)
      → IsOpen v
      → IsSoundStore w st
      → Leads (λ r. IsOpen r.0) (repair_with w repairer v st)
  unfolding repair_with give_up_repair
  repair_with-Leads none v st sv s = partial-Leads (λ r. IsOpen r.0) v _ st sv.0 s
  repair_with-Leads (some repair_result) v st sv s =
      with_history-Leads (λ r. IsOpen r.0) _ st
        (if-Ensures (Exit w) (Goes (λ r. IsOpen r.0))
          (not (grounded w v.verdict)
            || not (enough_time w (w.now st.history))
            || leb 2 v.repair_attempts)
          (give_up_repair w v) _ st (λ _. partial-Leads (λ r. IsOpen r.0) v _ st sv.0 s)
          (λ few.
            let sv' =
              counted-IsOpen v (suc v.repair_attempts) v.attempts (ground arith) sv.0.checks sv in
            save_then-Leads (λ r. IsOpen r.0) (record v { repair_attempts = suc v.repair_attempts })
              _ st sv'.0 s
              λ st' s'.
                with_history-Leads (λ r. IsOpen r.0) _ st'
                  (use_repair-Leads (record v { repair_attempts = suc v.repair_attempts })
                    (repair_result st'.history v.safe_body v.reason) st' sv' s')))

  pub candidate-Leads :
      (v : FinalValidation) (body : String) (st : Store)
      → IsOpen v
      → IsSoundStore w st
      → Leads (λ r. IsOpen r.0) (candidate w v body st)
  unfolding candidate
  candidate-Leads v body st sv s =
      if-Ensures (Exit w) (Goes (λ r. IsOpen r.0)) v.repair_pending (repair_with w w.repairer v)
        (pure (v, if str_eq v.repair_body "" then body else v.repair_body)) st
        (λ _. repair_with-Leads w.repairer v st sv s) (λ _. (sv, s))

  pub begin_attempt-Leads :
      (v : FinalValidation) (st : Store)
      → IsOpen v
      → IsSoundStore w st
      → Leads IsOpen (begin_attempt w v st)
  unfolding begin_attempt
  begin_attempt-Leads v st sv s =
      if-Ensures (Exit w) (Goes IsOpen) (leb 3 v.attempts)
        (finish w partial (checked_body v) "final_verification_unavailable") _ st
        (λ _. partial-Leads IsOpen v _ st sv.0 s)
        (λ few.
          let sv' =
            counted-IsOpen v v.repair_attempts (suc v.attempts) sv.0.repairs (ground arith) sv in
          save_then-Leads IsOpen (record v { attempts = suc v.attempts })
            (pure (record v { attempts = suc v.attempts })) st sv'.0 s λ st' s'. (sv', s'))

  pub or_fail-Leads :
      {A : Type 0} (o : Option A) (st : Store)
      → IsSoundStore w st
      → Leads (λ _. Unit) (or_fail w o st)
  unfolding or_fail IsSafeEnd
  or_fail-Leads none st s = (tt, s)
  or_fail-Leads (some a) st s = (tt, s)
