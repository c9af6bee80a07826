-- ===== src/Budget/Examples.antt =====
-- A request without any configured budget.
use blueship.Prelude.{String, none, some, ◌≢◌, arith, eq_iff}
use blueship.Prelude.Int.{pos}
use blueship.Budget.{Limits, MessageBudgetRequest}

abbrev limits : Limits
limits = record {
  chat_message_budget = pos 0;
  max_context = pos 8000;
  min_message_budget = pos 500;
}

abbrev request : MessageBudgetRequest
request = record {
  role = "cortex";
  explicit_budget = pos 0;
  explicit_source = "";
  model_budget = pos 0;
  limits = some limits;
  context_window = pos 0;
  system_prompt = "be kind";
  tools = none;
}

abbrev prompt : String
prompt = "be kind"

prompt_given : prompt ≢ ""
prompt_given e = ground (arith, eq_iff "be kind" "")
