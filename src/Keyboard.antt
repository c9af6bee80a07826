-- ===== src/Keyboard.antt =====
-- Persistent keyboards (internal/core/keyboard.go). The map `Nodes` is the list of its entries in
-- the order of one iteration; another iteration has another order. `strings.ToLower` is the
-- parameter `to_lower`. Of the errors the kind is kept.
pub mod Distinct
pub mod Labels
mod Examples
use Prim.Native.String.{◌++◌ as str_append}
use text.Mathlib.Text.{starts_with}
use blueship.Prelude.{
  ℕ, ◌+◌, String, Bool, true, false, not, ◌&&◌, ◌||◌, ◌==◌, ◌⊎◌, inl, inr, Option, none, some, List,
  [], ◌∷◌, if◌then◌else◌, str_eq, is_blank, trim_space, contains, and_then, reject,
}

pub record BotKeyboardKey : Type 0 where
  pub label : String
  pub node : String
  pub command : String
  pub say : String
  pub ask : String

pub record BotKeyboardNode : Type 0 where
  pub text : String
  pub parent : String
  pub rows : List (List BotKeyboardKey)

pub record BotKeyboard : Type 0 where
  pub root : String
  pub nodes : List (String × BotKeyboardNode)
  pub back_label : String
  pub close_label : String

pub record KeyAction : Type 0 where
  pub node : String
  pub text : String
  pub ask : String
  pub close : Bool

pub data MenuError : Type 0 where
  no_root no_close_label no_parent no_back_label no_keys no_text empty_row : MenuError
  no_label same_label slash_label no_screen no_known_command ask_without_say : MenuError
  ask_and_act not_one_thing : MenuError

unfoldable pub configured : BotKeyboard → Bool
configured k = elim k.nodes [ [] ↦ false | _ ↦ true ]

abbrev slash : String
slash = "/"

-- `strings.TrimPrefix(s, "/")`
unfoldable pub trim_slash : String → String
trim_slash String.[] = ""
trim_slash (String.◌∷◌ c s) = if str_eq (String.◌∷◌ c "") slash then s else String.◌∷◌ c s

-- `strings.Contains(s, AskPlaceholder)`
unfoldable pub has_placeholder : String → Bool
has_placeholder String.[] = false
has_placeholder (String.◌∷◌ c s) = starts_with (String.◌∷◌ c s) "%s" || has_placeholder s

-- The node `id`, if there is one.
unfoldable pub has_node : List (String × BotKeyboardNode) → String → Bool
has_node [] id = false
has_node ((j, n) ∷ ns) id = str_eq j id || has_node ns id

abbrev pub blank_action : KeyAction
blank_action = record { node = ""; text = ""; ask = ""; close = false }

-- One `set++`.
abbrev pub count : Bool → ℕ
count true = 1
count false = 0

abbrev pub is_set : String → Bool
is_set s = not (str_eq s "")

module _ (to_lower : String → String) where
  unfoldable pub normalize_command_name : String → String
  normalize_command_name name = to_lower (trim_slash (trim_space name))

  -- The body of the `switch` of `Action`.
  unfoldable pub action_of : BotKeyboardKey → KeyAction
  action_of key =
      if is_set key.node
      then record blank_action { node = key.node }
      else if is_set key.command
      then record blank_action { text = str_append slash (normalize_command_name key.command) }
      else record blank_action { text = key.say; ask = key.ask }

  unfoldable pub find_in_row : String → List BotKeyboardKey → Option KeyAction
  find_in_row text [] = none
  find_in_row text (key ∷ keys) =
      if str_eq key.label text then some (action_of key) else find_in_row text keys

  unfoldable pub find_in_rows : String → List (List BotKeyboardKey) → Option KeyAction
  find_in_rows text [] = none
  find_in_rows text (row ∷ rows) = elim (find_in_row text row) [
    | some a ↦ some a
    | none ↦ find_in_rows text rows
  ]

  unfoldable pub find_in_nodes : String → List (String × BotKeyboardNode) → Option KeyAction
  find_in_nodes text [] = none
  find_in_nodes text ((id, node) ∷ ns) = elim (find_in_rows text node.rows) [
    | some a ↦ some a
    | none ↦ find_in_nodes text ns
  ]

  -- `Action` on the trimmed text.
  unfoldable pub action_on : BotKeyboard → String → Option KeyAction
  action_on k text =
      if str_eq text "" || not (configured k)
      then none
      else if is_set k.close_label && str_eq text k.close_label
      then some (record blank_action { close = true })
      else if is_set k.back_label && str_eq text k.back_label
      then some blank_action
      else find_in_nodes text k.nodes

  unfoldable pub action : BotKeyboard → String → Option KeyAction
  action k text = action_on k (trim_space text)

  -- The three cases of the `switch` of `validKey`.
  unfoldable pub check_label : List String → BotKeyboardKey → Option MenuError
  check_label seen key = and_then (reject (is_blank key.label) MenuError.no_label) (
      and_then (reject (contains seen key.label) MenuError.same_label)
        (reject (starts_with key.label slash) MenuError.slash_label))

  unfoldable pub check_ask : BotKeyboardKey → Option MenuError
  check_ask key =
      and_then
        (reject (is_set key.ask && (str_eq key.say "" || not (has_placeholder key.say)))
          MenuError.ask_without_say)
        (reject (is_set key.ask && (is_set key.node || is_set key.command)) MenuError.ask_and_act)

  unfoldable pub valid_key :
      List (String × BotKeyboardNode)
      → List String
      → List String
      → BotKeyboardKey
      → Option MenuError
  valid_key nodes known seen key = and_then (check_label seen key) (
      and_then (reject (is_set key.node && not (has_node nodes key.node)) MenuError.no_screen) (
        and_then
          (reject (is_set key.command && not (contains known (normalize_command_name key.command)))
            MenuError.no_known_command)
          (and_then (check_ask key) (
            reject
              (not (
                count (is_set key.node) + count (is_set key.command) + count (is_set key.say) == 1))
              MenuError.not_one_thing))))

  -- The inner loops of `Valid`: an error, or the labels that they have seen.
  unfoldable pub check_row :
      List (String × BotKeyboardNode)
      → List String
      → List String
      → List BotKeyboardKey
      → MenuError ⊎ List String
  check_row nodes known seen [] = inr seen
  check_row nodes known seen (key ∷ keys) = elim (valid_key nodes known seen key) [
    | some e ↦ inl e
    | none ↦ check_row nodes known (key.label ∷ seen) keys
  ]

  unfoldable pub check_rows :
      List (String × BotKeyboardNode)
      → List String
      → List String
      → List (List BotKeyboardKey)
      → MenuError ⊎ List String
  check_rows nodes known seen [] = inr seen
  check_rows nodes known seen ([] ∷ rows) = inl MenuError.empty_row
  check_rows nodes known seen ((key ∷ keys) ∷ rows) =
      elim (check_row nodes known seen (key ∷ keys)) [
        | inl e ↦ inl e
        | inr seen' ↦ check_rows nodes known seen' rows
      ]

  -- The checks of a screen before its keys.
  unfoldable pub check_screen : BotKeyboard → BotKeyboardNode → Option MenuError
  check_screen k node =
      and_then
        (reject (is_set node.parent && not (has_node k.nodes node.parent)) MenuError.no_parent)
        (and_then (reject (is_set node.parent && str_eq k.back_label "") MenuError.no_back_label) (
          and_then (elim node.rows [ [] ↦ some MenuError.no_keys | _ ↦ none ])
            (reject (is_blank node.text) MenuError.no_text)))

  unfoldable pub check_nodes :
      BotKeyboard → List String → List String → List (String × BotKeyboardNode) → Option MenuError
  check_nodes k known seen [] = none
  check_nodes k known seen ((id, node) ∷ ns) = elim (check_screen k node) [
    | some e ↦ some e
    | none ↦ elim (check_rows k.nodes known seen node.rows) [
      | inl e ↦ some e
      | inr seen' ↦ check_nodes k known seen' ns
    ]
  ]

  unfoldable pub known_commands : List String → List String
  known_commands [] = []
  known_commands (name ∷ names) = normalize_command_name name ∷ known_commands names

  -- The labels of the two controls, that the transport adds.
  unfoldable pub controls : BotKeyboard → List String
  controls k = if is_set k.back_label then k.back_label ∷ k.close_label ∷ [] else k.close_label ∷ []

  -- Of the commands their names.
  unfoldable pub valid : BotKeyboard → List String → Option MenuError
  valid k commands =
      if not (configured k)
      then none
      else if not (has_node k.nodes k.root)
      then some MenuError.no_root
      else if str_eq k.close_label ""
      then some MenuError.no_close_label
      else check_nodes k (known_commands commands) (controls k) k.nodes
