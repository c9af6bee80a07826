-- ===== src/TaskProgram/Examples.antt =====
-- A program that reads a mailbox, and asks the model when there is mail.
use text.Mathlib.Text.{starts_with}
use blueship.Prelude.{
  and_then, reject, String, Bool, true, false, none, some, [], ◌∷◌, ◌≡◌, refl, All, contains,
  trim_space,
}
use blueship.TaskProgram.{
  TaskProgramInput, TaskProgram, validate_program, requested_tools, check_inputs, check_input,
  is_input_id, lookup, check_activation_mode, check_activation_ids, check_activation_id,
  check_decision_mode, check_tools, check_tool, check_quiet_hours, disabled_input,
}
use blueship.TaskProgram.Safe.{IsEnabled, validate_program-IsEnabled, requested_tools-sender}

-- `json.Valid` on the texts of the example.
abbrev is_object : String → Bool
is_object s = starts_with s "{"

abbrev mail_input : TaskProgramInput
mail_input = record {
  id = "mail";
  tool = "read_mail";
  input = "{}";
  enabled = true;
  on_error = "fail";
}

abbrev program : TaskProgram
program = record {
  schema = "blueship.task-program/v1";
  inputs = mail_input ∷ [];
  activation = record { mode = "any_non_empty"; input_ids = "mail" ∷ [] };
  decision = record { mode = "selected"; tools = "web_search" ∷ []; instruction = "summarise" };
  quiet_hours = none;
}

program_is_valid : validate_program is_object program ≡ none
unfolding validate_program and_then reject check_inputs check_input is_input_id lookup
    check_activation_mode check_activation_ids check_activation_id check_decision_mode check_tools
    check_tool check_quiet_hours contains trim_space
program_is_valid = refl

paused_is_refused :
    validate_program is_object
      (record program { inputs = record mail_input { enabled = false } ∷ [] })
    ≡ some disabled_input
unfolding validate_program and_then reject check_inputs check_input is_input_id lookup
    check_activation_mode check_activation_ids check_activation_id contains trim_space
paused_is_refused = refl

validate_program-IsEnabled_example : All (IsEnabled program.inputs) program.activation.input_ids
validate_program-IsEnabled_example = validate_program-IsEnabled is_object program program_is_valid

requested_tools-sender_example : contains (requested_tools program) "message_send" ≡ false
requested_tools-sender_example = requested_tools-sender is_object program program_is_valid
