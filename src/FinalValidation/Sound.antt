-- ===== src/FinalValidation/Sound.antt =====
-- What the fields of a validation record stand for: a text that is marked as checked has passed the
-- output guard, and one that is marked as accepted has passed the reviewer as well.
use blueship.Grounding.{AcceptanceVerdict}
use blueship.FinalValidation.{
  FinalValidation, no_validation, checked_body, Store, Answer, World, completed, partial, Outcome,
  finished, yielded, failed, out_of_fuel,
}
use blueship.Prelude.{
  ◌≤◌, String, true, false, ◌⊎◌, inl, inr, Option, some, none, List, ◌≡◌, refl, All, is_blank,
  Bool-cases, arith,
}

module _ (w : World) where
  -- There is no output guard, or the guard has returned this text, and it is not blank.
  unfoldable pub Guarded : String → Type 0
  Guarded b =
      (w.validator ≡ none)
      ⊎ ((validate : List FinalValidation → String → List String → Answer) × (h : List
            FinalValidation)
          × (text : String) × (receipts : List String) × (w.validator ≡ some validate)
          × (validate h text receipts ≡ inr b)
          × (is_blank b ≡ false))

  -- The reviewer has accepted this text.
  unfoldable pub Approved : String → Type 0
  Approved b =
      (h : List FinalValidation) × (raw : String) × (prior : Option AcceptanceVerdict) × ((w.review
          h b raw prior).unavailable
        ≡ false)
      × ((w.review h b raw prior).met ≡ true)

  -- Nothing, or a text that has passed the guard.
  unfoldable pub IsPresentable : String → Type 0
  IsPresentable b = (b ≡ "") ⊎ Guarded b

  pub record IsSound (v : FinalValidation) : Type 0 where
    pub guarded : v.response_checked ≡ true → Guarded v.safe_body
    pub checked : v.accepted ≡ true → v.response_checked ≡ true
    pub approved : v.accepted ≡ true → Approved v.safe_body
    pub presentable : IsPresentable v.last_checked_body
    pub repairs : v.repair_attempts ≤ 2
    pub checks : v.attempts ≤ 3

  -- The record in the database, and every one that was there before.
  unfoldable pub IsSoundStore : Store → Type 0
  IsSoundStore st = IsSound st.saved × All IsSound st.history

  -- A report that leaves has passed the guard, and a complete one the reviewer as well.
  unfoldable pub IsSafeEnd : Outcome → Type 0
  IsSafeEnd (finished completed b reason) = Guarded b × Approved b
  IsSafeEnd (finished partial b reason) = IsPresentable b
  IsSafeEnd (yielded next) = Unit
  IsSafeEnd failed = Unit
  IsSafeEnd out_of_fuel = Unit

  abbrev pub Exit : Outcome → Store → Type 0
  Exit o st = IsSafeEnd o × IsSoundStore st

  pub checked_body-IsPresentable :
      (v : FinalValidation) → IsSound v → IsPresentable (checked_body v)
  unfolding checked_body IsPresentable
  checked_body-IsPresentable v s = elim (Bool-cases v.response_checked) [
    | inr r ↦ rw (r, checked_body) s.presentable
    | inl r ↦ elim (Bool-cases (is_blank v.safe_body)) [
      | inl b ↦ rw (r, b, checked_body) s.presentable
      | inr b ↦ rw (r, b, checked_body) (inr (s.guarded r))
    ]
  ]

  pub no_validation-IsSound :
      (hash : String) → IsSound (record no_validation { candidate_hash = hash })
  unfolding IsPresentable
  no_validation-IsSound hash = record {
    guarded = λ h. cc;
    checked = λ h. h;
    approved = λ h. cc;
    presentable = inl refl;
    repairs = omega arith;
    checks = omega arith;
  }
