-- ===== src/Budget.antt =====
-- How many tokens of history a model call may carry: `ResolveMessageBudget` (internal/core/budget.go)
-- and `EstimateTextTokens` (internal/core/types.go). The JSON of the tools is an argument, `none` for
-- no tools; of the configuration its limits, `none` for a nil configuration.
pub mod Bounds
mod Examples
use Prim.Native.Char.{code}
use Prim.Native.String.{len, ◌++◌ as str_append}
use blueship.Prelude.Int.{ℤ, pos, negsuc, lt_nat, nat_lt, sub_ℕ}
use blueship.Prelude.{
  ℕ, zero, suc, ◌+◌, ◌*◌, ◌-◌, ◌/◌, max, String, Bool, true, false, not, ◌&&◌, ◌||◌, Option, none,
  some, leb, ltb, if◌then◌else◌, str_eq,
}

pub record Limits : Type 0 where
  pub chat_message_budget : ℤ
  pub max_context : ℤ
  pub min_message_budget : ℤ

pub record MessageBudgetRequest : Type 0 where
  pub role : String
  pub explicit_budget : ℤ
  pub explicit_source : String
  pub model_budget : ℤ
  pub limits : Option Limits
  pub context_window : ℤ
  pub system_prompt : String
  pub tools : Option String

pub record MessageBudgetDecision : Type 0 where
  pub budget : ℤ
  pub source : String

-- The counters of the loop of `EstimateTextTokens`.
unfoldable pub runes : String → ℕ
runes String.[] = 0
runes (String.◌∷◌ c s) = suc (runes s)

unfoldable pub non_ascii : String → ℕ
non_ascii String.[] = 0
non_ascii (String.◌∷◌ c s) = let n = non_ascii s in if ltb 127 (code c) then suc n else n

unfoldable pub has_hebrew : String → Bool
has_hebrew String.[] = false
has_hebrew (String.◌∷◌ c s) = (leb 0x590 (code c) && leb (code c) 0x5ff) || has_hebrew s

-- `ceilDiv` for a positive divisor.
abbrev pub ceil_div : ℕ → ℕ → ℕ
ceil_div n d = (n + d - 1) / d

unfoldable pub estimate_text_tokens : String → ℕ
estimate_text_tokens text =
    if str_eq text ""
    then 0
    else let estimate = ceil_div (runes text) 3 in
      let dense = max (max estimate (ceil_div (len text) 2)) (ceil_div (runes text * 5) 6) in
      max 1 (if has_hebrew text || leb (runes text) (non_ascii text * 3) then dense else estimate)

unfoldable pub max_context_of : MessageBudgetRequest → ℤ
max_context_of r =
    if lt_nat r.context_window 1
    then elim r.limits [ none ↦ r.context_window | some l ↦ l.max_context ]
    else r.context_window

unfoldable pub used_tokens : MessageBudgetRequest → ℕ
used_tokens r =
    estimate_text_tokens r.system_prompt
    + (elim r.tools [ none ↦ 0 | some json ↦ estimate_text_tokens json ])

abbrev pub at_least : ℤ → ℤ → ℤ
at_least (pos (suc m)) budget = if lt_nat budget (suc m) then pos (suc m) else budget
at_least (pos zero) budget = budget
at_least (negsuc m) budget = budget

abbrev pub min_of : Option Limits → ℤ
min_of none = pos 0
min_of (some l) = l.min_message_budget

abbrev pub within : ℤ → ℕ → Option Limits → ℤ
within (pos zero) used limits = pos 0
within (negsuc n) used limits = pos 0
within (pos (suc n)) used limits = at_least (min_of limits) (sub_ℕ (suc n) used)

-- `calculatedMessageBudget`
unfoldable pub calculated_message_budget : MessageBudgetRequest → ℤ
calculated_message_budget r = within (max_context_of r) (used_tokens r) r.limits

abbrev pub configured : Option Limits → ℤ
configured none = pos 0
configured (some l) = l.chat_message_budget

abbrev pub default_message_budget : ℕ
default_message_budget = 6000

-- `ResolveMessageBudget`
unfoldable pub resolve_message_budget : MessageBudgetRequest → MessageBudgetDecision
resolve_message_budget r =
    if nat_lt 0 r.explicit_budget
    then record {
      budget = r.explicit_budget;
      source =
          if str_eq r.explicit_source "" then "run_config.message_budget" else r.explicit_source;
    }
    else if nat_lt 0 r.model_budget
    then record {
      budget = r.model_budget;
      source =
          if str_eq r.role ""
          then "model_config.message_budget"
          else str_append "model_config." (str_append r.role ".message_budget");
    }
    else if nat_lt 0 (configured r.limits)
    then record { budget = configured r.limits; source = "config.limits.chat_message_budget" }
    else if nat_lt 0 (calculated_message_budget r)
    then record { budget = calculated_message_budget r; source = "calculated.context_minus_prompt" }
    else record { budget = pos default_message_budget; source = "default" }
