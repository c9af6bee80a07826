-- ===== src/FinalValidation/Examples.antt =====
-- Witnesses for the theorems about the final validation, and tests.
use blueship.Grounding.{graph_grounding_repairable}
use blueship.FinalValidation.{
  no_validation, checked_body, Store, World, completed, Outcome, finished, yielded, Flow, running,
  returned, ◌>>=◌,
}
use blueship.FinalValidation.Stages.{
  validate_graph_result, round, examine, judge, guard_response, guard_with, use_guard, accept_safe,
  defer_check, or_fail, collect_evidence, begin_attempt, candidate, repair_with, give_up_repair,
  use_repair, adopt, repair_failed, finish, grounded, enough_time, too_late, history_of, save, load,
}
use blueship.FinalValidation.Sound.{IsSoundStore, no_validation-IsSound}
use blueship.FinalValidation.Repairs.{Leads}
use blueship.FinalValidation.Safe.{Any, validate_graph_result-safe}
use blueship.FinalValidation.Returns.{Ends}
use blueship.FinalValidation.Ends.{validate_graph_result-Ends}
use blueship.Prelude.{
  true, false, inr, Option, none, some, [], ◌∷◌, ◌≡◌, refl, length, str_eq, arith, is_blank,
  trim_space, trim_left, trim_right, is_space,
}

-- The reviewer accepts the second draft only; the guard lets every text pass.
abbrev second_draft : World
second_draft = record {
  get_ok = λ h. true;
  save_ok = λ h v. true;
  now = λ h. length h;
  hash = λ s. s;
  stop = some 100000;
  checkpoints = "step" ∷ [];
  decode = λ c. some (c ∷ [], c ∷ []);
  marshal = λ ts. some "traces";
  repairer = some λ h safe reason. inr "better";
  validator = some λ h text receipts. inr text;
  review = λ h b raw prior. record {
    retry_delay = 0;
    met = str_eq b "better";
    reason = "vague";
    unavailable = false;
    grounding = none;
  };
}

-- The reviewer is down.
abbrev no_reviewer : World
no_reviewer = record second_draft {
  review = λ h b raw prior. record {
    retry_delay = 7000;
    met = false;
    reason = "down";
    unavailable = true;
    grounding = none;
  };
}

abbrev new_task : Store
new_task = record { saved = no_validation; history = [] }

abbrev outcome_of : Flow (Unit {0}) → Option Outcome
outcome_of (running a st) = none
outcome_of (returned o st) = some o

run_second_draft :
    outcome_of (validate_graph_result second_draft 4 "draft" new_task)
    ≡ some (finished completed "better" "")
unfolding validate_graph_result round examine judge guard_response guard_with use_guard accept_safe
    defer_check or_fail collect_evidence begin_attempt candidate repair_with give_up_repair
    use_repair adopt repair_failed finish grounded enough_time too_late history_of save load ◌>>=◌
    checked_body is_blank trim_space trim_left trim_right is_space graph_grounding_repairable
run_second_draft = refl

run_no_reviewer :
    outcome_of (validate_graph_result no_reviewer 4 "draft" new_task) ≡ some (yielded 7003)
unfolding validate_graph_result round examine judge guard_response guard_with use_guard accept_safe
    defer_check or_fail collect_evidence begin_attempt candidate repair_with give_up_repair
    use_repair adopt repair_failed finish grounded enough_time too_late history_of save load ◌>>=◌
    checked_body is_blank trim_space trim_left trim_right is_space graph_grounding_repairable
run_no_reviewer = refl

new_task-IsSoundStore : IsSoundStore second_draft new_task
unfolding IsSoundStore
new_task-IsSoundStore = (no_validation-IsSound second_draft "", tt)

validate_graph_result-safe_example :
    Leads second_draft Any (validate_graph_result second_draft 4 "draft" new_task)
validate_graph_result-safe_example =
    validate_graph_result-safe second_draft 4 "draft" new_task new_task-IsSoundStore

validate_graph_result-Ends_example :
    Ends (λ _ _. ⊥) (validate_graph_result second_draft 4 "draft" new_task)
validate_graph_result-Ends_example =
    validate_graph_result-Ends second_draft 4 "draft" new_task (omega arith)
