-- ===== src/FinalValidation/Stages.antt =====
-- The parts of `validateGraphResult` in the order of its text, and the function itself.
use Prim.Native.String.{◌++◌ as str_append}
use blueship.Grounding.{AcceptanceVerdict, graph_grounding_repairable}
use blueship.FinalValidation.{
  FinalValidation, no_validation, checked_body, Answer, World, Status, completed, partial, finished,
  yielded, failed, out_of_fuel, running, returned, M, ◌>>=◌, ◌>>◌, pure, exit,
}
use blueship.Prelude.{
  ℕ, zero, suc, ◌+◌, ◌*◌, max, String, Bool, true, false, not, ◌||◌, inl, inr, Option, none, some,
  List, [], ◌∷◌, ◌++◌, leb, ltb, if◌then◌else◌, str_eq, is_blank,
}

module _ (w : World) where
  unfoldable pub load : String → M FinalValidation
  load body st =
      if w.get_ok st.history
      then running
          (if str_eq st.saved.candidate_hash (w.hash body)
            then st.saved
            else record no_validation { candidate_hash = w.hash body })
          st
      else returned failed st

  unfoldable pub save : FinalValidation → M (Unit {0})
  save state st =
      if w.save_ok st.history state
      then running tt (record st { saved = state; history = state ∷ st.history })
      else returned failed st

  unfoldable pub history_of : M (List FinalValidation)
  history_of st = running st.history st

  -- `stop != nil && !next.Before(*stop)`
  unfoldable pub too_late : ℕ → Bool
  too_late next = elim w.stop [ none ↦ false | some d ↦ leb d next ]

  -- `stop == nil || time.Until(*stop) > 30*time.Second`
  unfoldable pub enough_time : ℕ → Bool
  enough_time t = elim w.stop [ none ↦ true | some d ↦ ltb (t + 30000) d ]

  unfoldable pub grounded : Option AcceptanceVerdict → Bool
  grounded none = true
  grounded (some v) = graph_grounding_repairable v.grounding

  unfoldable pub finish : {A : Type 0} → Status → String → String → M A
  finish status body reason = exit (finished status body reason)

  -- A repair that gave no text.
  unfoldable pub repair_failed : {A : Type 0} → FinalValidation → ℕ → M A
  repair_failed state delay = do
    h ← history_of
    let next = w.now h + max 5000 delay
    if leb 2 state.repair_attempts || too_late next
        then finish partial (checked_body state) "final_repair_unavailable"
        else exit (yielded next)

  unfoldable pub adopt : FinalValidation → String → M (FinalValidation × String)
  adopt state revised = do
    let state' = record state {
      repair_body = revised;
      attempts = 0;
      repair_pending = false;
      last_checked_body = checked_body state;
      response_checked = false;
      safe_body = "";
      verdict = none;
    }
    save state'
    pure (state', revised)

  unfoldable pub use_repair : FinalValidation → Answer → M (FinalValidation × String)
  use_repair state (inl delay) = repair_failed state delay
  use_repair state (inr revised) =
      if is_blank revised then repair_failed state 0 else adopt state revised

  unfoldable pub give_up_repair : {A : Type 0} → FinalValidation → M A
  give_up_repair state =
      finish partial (checked_body state) (str_append "final_acceptance_rejected: " state.reason)

  unfoldable pub repair_with :
      Option (List FinalValidation → String → String → Answer)
      → FinalValidation
      → M (FinalValidation × String)
  repair_with none state = give_up_repair state
  repair_with (some repair_result) state = do
    h ← history_of
    let state' = record state { repair_attempts = suc state.repair_attempts }
    if not (grounded state.verdict) || not (enough_time (w.now h)) || leb 2 state.repair_attempts
        then give_up_repair state
        else do
          save state'
          h' ← history_of
          use_repair state' (repair_result h' state.safe_body state.reason)

  -- The candidate that is to be checked, after a repair if one is due.
  unfoldable pub candidate : FinalValidation → String → M (FinalValidation × String)
  candidate state body =
      if state.repair_pending
      then repair_with w.repairer state
      else pure (state, if str_eq state.repair_body "" then body else state.repair_body)

  unfoldable pub begin_attempt : FinalValidation → M FinalValidation
  begin_attempt state = do
    let state' = record state { attempts = suc state.attempts }
    if leb 3 state.attempts
        then finish partial (checked_body state) "final_verification_unavailable"
        else do save state'; pure state'

  -- The loop over the checkpoints of the steps that are done.
  unfoldable pub collect_evidence : List String → Option (List String × List String)
  collect_evidence [] = some ([], [])
  collect_evidence (c ∷ cs) = elim (w.decode c) [
    | none ↦ none
    | some (receipts, traces) ↦ elim (collect_evidence cs) [
      | none ↦ none
      | some (rs, ts) ↦ some (receipts ++ rs, traces ++ ts)
    ]
  ]

  unfoldable pub or_fail : {A : Type 0} → Option A → M A
  or_fail none = exit failed
  or_fail (some a) = pure a

  unfoldable pub defer_check : {A : Type 0} → FinalValidation → String → ℕ → M A
  defer_check state reason delay = do
    let state' = record state { reason = reason }
    save state'
    h ← history_of
    let next = w.now h + max (state.attempts * 5000) delay
    if leb 3 state.attempts || too_late next
        then finish partial (checked_body state') "final_verification_unavailable"
        else exit (yielded next)

  unfoldable pub accept_safe : FinalValidation → String → M FinalValidation
  accept_safe state safe = do
    let state' = record state {
      safe_body = safe;
      last_checked_body = safe;
      response_checked = true;
    }
    save state'
    pure state'

  unfoldable pub use_guard : FinalValidation → Answer → M FinalValidation
  use_guard state (inl delay) = defer_check state "response_validation_unavailable" delay
  use_guard state (inr safe) =
      if is_blank safe
      then defer_check state "response_validation_empty" 0
      else accept_safe state safe

  unfoldable pub guard_with :
      Option (List FinalValidation → String → List String → Answer)
      → FinalValidation
      → String
      → List String
      → M FinalValidation
  guard_with none state body receipts = accept_safe state body
  guard_with (some validate) state body receipts = do
    h ← history_of
    use_guard state (validate h body receipts)

  unfoldable pub guard_response : FinalValidation → String → List String → M FinalValidation
  guard_response state body receipts =
      if state.response_checked then pure state else guard_with w.validator state body receipts

  -- Acceptance, or the record that waits for a repair.
  unfoldable pub judge : FinalValidation → AcceptanceVerdict → M (Unit {0})
  judge state verdict = do
    let state' = record state { verdict = some verdict }
    let rejected = record state' { reason = verdict.reason; repair_pending = true }
    let accepted = record state' { accepted = true; reason = "" }
    if verdict.unavailable
        then defer_check state' verdict.reason verdict.retry_delay
        else if not verdict.met
        then save rejected
        else do save accepted; finish completed state.safe_body ""

  -- The checks of a record that is not accepted: candidate, output guard, reviewer.
  unfoldable pub examine : FinalValidation → String → M (Unit {0})
  examine state body = do
    (state₁, text) ← candidate state body
    state₂ ← begin_attempt state₁
    (receipts, traces) ← or_fail (collect_evidence w.checkpoints)
    state₃ ← guard_response state₂ text receipts
    raw ← or_fail (w.marshal traces)
    h ← history_of
    judge state₃ (w.review h state₃.safe_body raw state₃.verdict)

  -- One pass of the function: it returns, or it has saved a rejected candidate and calls itself.
  unfoldable pub round : String → M (Unit {0})
  round body = do
    state ← load body
    if state.accepted then finish completed state.safe_body "" else examine state body

  unfoldable pub validate_graph_result : ℕ → String → M (Unit {0})
  validate_graph_result zero body = exit out_of_fuel
  validate_graph_result (suc fuel) body = do round body; validate_graph_result fuel body
