-- ===== src/TaskProgram.antt =====
-- Typed programs of background tasks (internal/core/task_program.go): `Validate` and
-- `RequestedTools`. Texts are valid Unicode here, so the test of the instruction for valid UTF-8
-- always passes; `json_valid` is `json.Valid` of Go's library, a parameter.
pub mod Safe
mod Examples
use Prim.Native.Char.{code}
use Prim.Native.String.{len}
use text.Mathlib.Text.{starts_with}
use blueship.Prelude.Int.{ℤ, lt_nat, nat_lt}
use blueship.Prelude.{
  ℕ, String, Bool, true, false, not, ◌&&◌, ◌||◌, ◌⊎◌, inl, inr, Option, none, some, List, [], ◌∷◌,
  ◌++◌, ◌==◌, ltb, leb, if◌then◌else◌, length, str_eq, trim_space, contains, and_then, reject,
}
use blueship.TurnPolicy.{dedupe_strings}

pub record TaskProgramInput : Type 0 where
  pub id : String
  pub tool : String
  pub input : String
  pub enabled : Bool
  pub on_error : String

pub record TaskProgramActivation : Type 0 where
  pub mode : String
  pub input_ids : List String

pub record TaskProgramDecision : Type 0 where
  pub mode : String
  pub tools : List String
  pub instruction : String

pub record TaskProgramQuietHours : Type 0 where
  pub from_hour : ℤ
  pub to_hour : ℤ

pub record TaskProgram : Type 0 where
  pub schema : String
  pub inputs : List TaskProgramInput
  pub activation : TaskProgramActivation
  pub decision : TaskProgramDecision
  pub quiet_hours : Option TaskProgramQuietHours

pub data ProgramError : Type 0 where
  bad_schema too_many_inputs bad_id no_tool tool_space duplicate_id owned_tool mcp_tool :
      ProgramError
  no_input input_size bad_json not_object bad_on_error : ProgramError
  bad_activation empty_id id_space repeated_id unknown_input disabled_input : ProgramError
  too_many_tools instruction_size bad_decision empty_tool repeated_tool bad_hours : ProgramError

abbrev is_alnum : ℕ → Bool
is_alnum c = (leb 48 c && leb c 57) || (leb 65 c && leb c 90) || (leb 97 c && leb c 122)

abbrev all_id_chars : String → Bool
all_id_chars String.[] = true
all_id_chars (String.◌∷◌ c s) =
    (is_alnum (code c) || code c == 95 || code c == 45) && all_id_chars s

-- `taskProgramInputIDPattern`: all its characters are of one byte.
unfoldable pub is_input_id : String → Bool
is_input_id String.[] = false
is_input_id (String.◌∷◌ c s) = is_alnum (code c) && all_id_chars s && leb (len s) 63

-- `inputIDs[id]`
unfoldable pub lookup : List (String × Bool) → String → Option Bool
lookup [] k = none
lookup ((j, b) ∷ ids) k = if str_eq j k then some b else lookup ids k

module _ (json_valid : String → Bool) where
  -- The body of the loop over the inputs.
  unfoldable pub check_input : List (String × Bool) → TaskProgramInput → Option ProgramError
  check_input ids i = and_then (reject (not (is_input_id i.id)) bad_id) (
      and_then (reject (str_eq i.tool "") no_tool) (
        and_then (reject (not (str_eq i.tool (trim_space i.tool))) tool_space) (
          and_then (elim (lookup ids i.id) [ none ↦ none | some b ↦ some duplicate_id ])
            (and_then (reject (str_eq i.tool "message_send") owned_tool) (
              and_then (reject (starts_with i.tool "mcp__") mcp_tool) (
                and_then (reject (len i.input == 0) no_input) (
                  and_then (reject (ltb 65536 (len i.input)) input_size) (
                    and_then (reject (not (json_valid i.input)) bad_json) (
                      and_then (reject (not (starts_with (trim_space i.input) "{")) not_object) (
                        reject (not (str_eq i.on_error "fail" || str_eq i.on_error "continue"))
                          bad_on_error))))))))))

  -- The loop: the first error, or the map `inputIDs`.
  unfoldable pub check_inputs :
      List (String × Bool) → List TaskProgramInput → ProgramError ⊎ List (String × Bool)
  check_inputs ids [] = inr ids
  check_inputs ids (i ∷ is) = elim (check_input ids i) [
    | some e ↦ inl e
    | none ↦ check_inputs (ids ++ (i.id, i.enabled) ∷ []) is
  ]

unfoldable pub check_activation_mode : TaskProgramActivation → Option ProgramError
check_activation_mode a =
    if str_eq a.mode "always"
    then reject (not (length a.input_ids == 0)) bad_activation
    else if str_eq a.mode "any_non_empty" || str_eq a.mode "all_non_empty"
    then reject (length a.input_ids == 0) bad_activation
    else some bad_activation

unfoldable pub check_activation_id :
    List (String × Bool) → (seen : List String) → String → Option ProgramError
check_activation_id ids seen id = and_then (reject (str_eq id "") empty_id) (
    and_then (reject (not (str_eq id (trim_space id))) id_space) (
      and_then (reject (contains seen id) repeated_id) (elim (lookup ids id) [
        | none ↦ some unknown_input
        | some b ↦ reject (not b) disabled_input
      ])))

unfoldable pub check_activation_ids :
    List (String × Bool) → (seen : List String) → List String → Option ProgramError
check_activation_ids ids seen [] = none
check_activation_ids ids seen (k ∷ ks) =
    and_then (check_activation_id ids seen k) (check_activation_ids ids (k ∷ seen) ks)

unfoldable pub check_decision_mode : TaskProgramDecision → Option ProgramError
check_decision_mode d = and_then (reject (ltb 32 (length d.tools)) too_many_tools) (
    and_then (reject (ltb 4000 (len d.instruction)) instruction_size) (
      if str_eq d.mode "selected"
      then none
      else if str_eq d.mode "none"
      then reject (not (length d.tools == 0) || not (str_eq d.instruction "")) bad_decision
      else some bad_decision))

unfoldable pub check_tool : (seen : List String) → String → Option ProgramError
check_tool seen t = and_then (reject (str_eq t "") empty_tool) (
    and_then (reject (not (str_eq t (trim_space t))) tool_space) (
      and_then (reject (contains seen t) repeated_tool)
        (reject (str_eq t "message_send") owned_tool)))

unfoldable pub check_tools : (seen : List String) → List String → Option ProgramError
check_tools seen [] = none
check_tools seen (t ∷ ts) = and_then (check_tool seen t) (check_tools (t ∷ seen) ts)

abbrev same_int : ℤ → ℤ → Bool
same_int (ℤ.pos a) (ℤ.pos b) = a == b
same_int (ℤ.negsuc a) (ℤ.negsuc b) = a == b
same_int _ _ = false

unfoldable pub check_quiet_hours : Option TaskProgramQuietHours → Option ProgramError
check_quiet_hours none = none
check_quiet_hours (some q) =
    reject
      (lt_nat q.from_hour 0
        || nat_lt 23 q.from_hour
        || lt_nat q.to_hour 0
        || nat_lt 23 q.to_hour
        || same_int q.from_hour q.to_hour)
      bad_hours

-- `Validate`; `none` is the nil error.
unfoldable pub validate_program : (json_valid : String → Bool) → TaskProgram → Option ProgramError
validate_program json_valid p =
    and_then (reject (not (str_eq p.schema "blueship.task-program/v1")) bad_schema) (
      and_then (reject (ltb 32 (length p.inputs)) too_many_inputs)
        (elim (check_inputs json_valid [] p.inputs) [
          | inl e ↦ some e
          | inr ids ↦ and_then (check_activation_mode p.activation) (
              and_then (check_activation_ids ids [] p.activation.input_ids) (
                and_then (check_decision_mode p.decision)
                  (and_then (check_tools [] p.decision.tools) (check_quiet_hours p.quiet_hours))))
        ]))

unfoldable pub enabled_tools : List TaskProgramInput → List String
enabled_tools [] = []
enabled_tools (i ∷ is) = let rest = enabled_tools is in if i.enabled then i.tool ∷ rest else rest

-- `RequestedTools`; `appendTool` drops the empty names and the repeated ones.
unfoldable pub requested_tools : TaskProgram → List String
requested_tools p =
    dedupe_strings (
      enabled_tools p.inputs
      ++ (if str_eq p.decision.mode "selected" then p.decision.tools else []))
