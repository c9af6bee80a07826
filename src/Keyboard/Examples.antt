-- ===== src/Keyboard/Examples.antt =====
-- Witnesses for the theorems about keyboards, and tests.
use mathlib.Core.List.{Memᴰ}
use mathlib.Core.List.Memᴰ
use blueship.Keyboard.{
  BotKeyboardKey, BotKeyboardNode, BotKeyboard, MenuError, blank_action, action, action_on,
  action_of, valid, known_commands, configured, has_node, check_nodes, check_screen, check_rows,
  check_row, valid_key, check_label, controls, check_ask, normalize_command_name, has_placeholder,
  trim_slash, find_in_nodes, find_in_rows, find_in_row,
}
use blueship.Keyboard.Distinct.{keys_of, keys_of_rows}
use blueship.Keyboard.Labels.{LeadsSomewhere, valid-action}
use blueship.Prelude.{
  String, none, some, [], ◌∷◌, ◌≡◌, refl, inl, inr, true, and_then, reject, is_blank, contains,
  is_space, trim_left, trim_right, trim_space,
}

abbrev identity : String → String
identity s = s

abbrev blank_key : BotKeyboardKey
blank_key = record { label = ""; node = ""; command = ""; say = ""; ask = "" }

abbrev to_paint : BotKeyboardKey
to_paint = record blank_key { label = "Paint"; node = "paint" }

abbrev pay : BotKeyboardKey
pay = record blank_key { label = "Pay"; command = "/pay" }

abbrev a_cat : BotKeyboardKey
a_cat = record blank_key { label = "A cat"; say = "paint a cat with %s"; ask = "what with?" }

abbrev start : String × BotKeyboardNode
start = ("start", record { text = "hello"; parent = ""; rows = (to_paint ∷ pay ∷ []) ∷ [] })

abbrev paint : String × BotKeyboardNode
paint = ("paint", record { text = "what?"; parent = "start"; rows = (a_cat ∷ []) ∷ [] })

abbrev two_screens : BotKeyboard
two_screens = record {
  root = "start";
  nodes = start ∷ paint ∷ [];
  back_label = "Back";
  close_label = "Close";
}

other_order :
    (e : String × BotKeyboardNode) → Memᴰ e (paint ∷ start ∷ []) → Memᴰ e (start ∷ paint ∷ [])
other_order e m = elim (Memᴰ.cases_cons m) [
  | inl p ↦ Memᴰ.tail (Memᴰ.head p)
  | inr n ↦ elim (Memᴰ.cases_cons n) [ inl q ↦ Memᴰ.head q | inr r ↦ absurd (Memᴰ.not-nil r) ]
]

valid-two_screens : valid identity two_screens ("pay" ∷ []) ≡ none
unfolding valid configured has_node check_nodes check_screen and_then reject is_blank check_rows
    check_row valid_key check_label contains controls check_ask known_commands
    normalize_command_name has_placeholder trim_slash is_space trim_left trim_right trim_space
valid-two_screens = refl

unknown_command : valid identity two_screens [] ≡ some MenuError.no_known_command
unfolding valid configured has_node check_nodes check_screen and_then reject is_blank check_rows
    check_row valid_key check_label contains controls check_ask known_commands
    normalize_command_name has_placeholder trim_slash is_space trim_left trim_right trim_space
unknown_command = refl

tap_close : action identity two_screens "Close " ≡ some (record blank_action { close = true })
unfolding action action_on trim_space configured find_in_nodes find_in_rows find_in_row action_of
    normalize_command_name trim_slash
tap_close = refl

tap_pay : action identity two_screens "Pay" ≡ some (record blank_action { text = "/pay" })
unfolding action action_on trim_space configured find_in_nodes find_in_rows find_in_row action_of
    normalize_command_name trim_slash
tap_pay = refl

valid-action_example :
    (action identity (record two_screens { nodes = paint ∷ start ∷ [] }) "A cat"
      ≡ some (action_of identity a_cat))
    × LeadsSomewhere identity
        (start ∷ paint ∷ [])
        (known_commands identity ("pay" ∷ []))
        (action_of identity a_cat)
unfolding trim_space keys_of keys_of_rows
valid-action_example =
    valid-action identity two_screens (paint ∷ start ∷ []) ("pay" ∷ []) a_cat valid-two_screens
      other_order (Memᴰ.head refl) refl

-- A key whose label ends in a space is accepted, and no message finds it.
abbrev one_key : BotKeyboard
one_key = record two_screens {
  nodes =
      (
        "start",
        record {
          text = "hello";
          parent = "";
          rows = (record a_cat { label = "A cat " } ∷ []) ∷ [];
        },
      )
      ∷ [];
}

valid-one_key : valid identity one_key [] ≡ none
unfolding valid configured has_node check_nodes check_screen and_then reject is_blank check_rows
    check_row valid_key check_label contains controls check_ask known_commands
    normalize_command_name has_placeholder trim_slash is_space trim_left trim_right trim_space
valid-one_key = refl

tap_one_key : action identity one_key "A cat " ≡ none
unfolding action action_on trim_space configured find_in_nodes find_in_rows find_in_row action_of
    normalize_command_name trim_slash
tap_one_key = refl
