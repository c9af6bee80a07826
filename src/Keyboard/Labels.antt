-- ===== src/Keyboard/Labels.antt =====
-- What tapping a key of a validated keyboard does: the label goes out with the key and comes back as
-- a message.
use mathlib.Core.List.{Memᴰ}
use mathlib.Core.List.Memᴰ
use Prim.Native.String.{◌++◌ as str_append}
use blueship.Keyboard.{
  BotKeyboardKey, BotKeyboardNode, BotKeyboard, KeyAction, action, action_on, action_of,
  find_in_row, find_in_rows, find_in_nodes, valid, valid_key, check_label, check_ask, check_nodes,
  known_commands, controls, configured, has_node, has_placeholder, is_set, slash,
  normalize_command_name,
}
use blueship.Keyboard.Distinct.{
  Nodes, keys_of, keys_of_rows, IsChecked, check_nodes-check_row, check_row-IsChecked,
  check_row-distinct,
}
use blueship.Prelude.{
  String, true, false, ◌⊎◌, inl, inr, Option, none, some, List, [], ◌∷◌, ◌++◌, ◌≡◌, refl, sym, ◌∙◌,
  ap, All-Memᴰ, contains, and_then-none, reject-none, Bool-cases, arith, eq_iff, str_eq, true≢false,
  is_blank, trim_space, subst,
}

module _ (to_lower : String → String) where
  -- The key that a text finds in a row.
  IsFound : String → List BotKeyboardKey → Option KeyAction → Type 0
  IsFound text keys r =
      (key : BotKeyboardKey) × Memᴰ key keys
      × (key.label ≡ text)
      × (r ≡ some (action_of to_lower key))

  find_in_row-IsFound :
      (key : BotKeyboardKey) (keys : List BotKeyboardKey)
      → Memᴰ key keys
      → IsFound key.label keys (find_in_row to_lower key.label keys)
  unfolding find_in_row IsFound
  find_in_row-IsFound key [] m = absurd (Memᴰ.not-nil m)
  find_in_row-IsFound key (x ∷ xs) m = elim (Bool-cases (str_eq x.label key.label)) [
    | inl e ↦ (x, Memᴰ.head refl, (eq_iff x.label key.label).0 e, rw (e, find_in_row) refl)
    | inr e ↦ elim (Memᴰ.cases_cons m) [
      | inl same ↦
          absurd
            (true≢false (sym ((eq_iff x.label key.label).1 (ap (λ y. y.label) (sym same))) ∙ e))
      | inr n ↦
          let (k, mk, l, f) = find_in_row-IsFound key xs n in
          (k, Memᴰ.tail mk, l, rw (e, find_in_row) f)
    ]
  ]

  find_in_row-append :
      (text : String) (xs ys : List BotKeyboardKey)
      → find_in_row to_lower text (xs ++ ys) ≡ elim (find_in_row to_lower text xs) [
        | some a ↦ some a
        | none ↦ find_in_row to_lower text ys
      ]
  unfolding find_in_row
  find_in_row-append text [] ys = refl
  find_in_row-append text (x ∷ xs) ys = ground (arith, find_in_row-append text xs ys)

  find_in_rows-row :
      (text : String) (rows : List (List BotKeyboardKey))
      → find_in_rows to_lower text rows ≡ find_in_row to_lower text (keys_of_rows rows)
  unfolding find_in_rows find_in_row keys_of_rows
  find_in_rows-row text [] = refl
  find_in_rows-row text (row ∷ rows) =
      ground (arith, find_in_row-append text row (keys_of_rows rows), find_in_rows-row text rows)

  find_in_nodes-row :
      (text : String) (ns : Nodes)
      → find_in_nodes to_lower text ns ≡ find_in_row to_lower text (keys_of ns)
  unfolding find_in_nodes find_in_row keys_of
  find_in_nodes-row text [] = refl
  find_in_nodes-row text ((id, node) ∷ ns) = ground (
    arith,
    find_in_row-append text (keys_of_rows node.rows) (keys_of ns),
    find_in_rows-row text node.rows,
    find_in_nodes-row text ns,
  )

  -- An action that does something: it opens a screen that exists, runs a known command, or says
  -- something, with a place for the answer if it asks.
  unfoldable pub LeadsSomewhere : Nodes → List String → KeyAction → Type 0
  LeadsSomewhere nodes known a =
      ((is_set a.node ≡ true) × (has_node nodes a.node ≡ true))
      ⊎ ((name : String) × (contains known name ≡ true) × (a.text ≡ str_append slash name))
      ⊎ ((is_set a.text ≡ true) × ((str_eq a.ask "" ≡ true) ⊎ (has_placeholder a.text ≡ true)))

  valid_key-LeadsSomewhere :
      (nodes : Nodes) (known : List String) (key : BotKeyboardKey)
      → valid_key to_lower nodes known [] key ≡ none
      → LeadsSomewhere nodes known (action_of to_lower key)
  unfolding LeadsSomewhere action_of valid_key check_ask
  valid_key-LeadsSomewhere nodes known key h =
      let (_, a) = and_then-none _ _ h in
      let (screen, b) = and_then-none _ _ a in
      let (command, c) = and_then-none _ _ b in
      let (ask, one) = and_then-none _ _ c in
      let (say, _) = and_then-none _ _ ask in
      let screen' = reject-none _ _ screen in
      let command' = reject-none _ _ command in
      let say' = reject-none _ _ say in
      let one' = reject-none _ _ one in
      elim (Bool-cases (is_set key.node)) [
        | inl n ↦ inl (ground (arith, screen'), ground (arith, screen'))
        | inr n ↦ elim (Bool-cases (is_set key.command)) [
          | inl c ↦ inr (
              inl (
                normalize_command_name to_lower key.command,
                ground (arith, command'),
                ground arith,
              ))
          | inr c ↦ inr (inr (ground (arith, one'), ground (arith, say')))
        ]
      ]

  keys_of-entry :
      (key : BotKeyboardKey) (ns : Nodes)
      → Memᴰ key (keys_of ns)
      → (e : String × BotKeyboardNode) × Memᴰ e ns × Memᴰ key (keys_of_rows e.1.rows)
  unfolding keys_of
  keys_of-entry key [] m = absurd (Memᴰ.not-nil m)
  keys_of-entry key ((id, node) ∷ ns) m = elim (Memᴰ.append_cases (keys_of_rows node.rows) m) [
    | inl here ↦ ((id, node), Memᴰ.head refl, here)
    | inr there ↦ let (e, me, mk) = keys_of-entry key ns there in (e, Memᴰ.tail me, mk)
  ]

  entry-keys_of :
      (key : BotKeyboardKey) (ns : Nodes) (e : String × BotKeyboardNode)
      → Memᴰ e ns
      → Memᴰ key (keys_of_rows e.1.rows)
      → Memᴰ key (keys_of ns)
  unfolding keys_of
  entry-keys_of key [] e me mk = absurd (Memᴰ.not-nil me)
  entry-keys_of key ((id, node) ∷ ns) e me mk = elim (Memᴰ.cases_cons me) [
    | inl same ↦
        Memᴰ.append_left (keys_of ns) (subst (λ x. Memᴰ key (keys_of_rows x.1.rows)) same mk)
    | inr n ↦ Memᴰ.append_right (keys_of_rows node.rows) (entry-keys_of key ns e n mk)
  ]

  keys_of-configured :
      (k : BotKeyboard) (key : BotKeyboardKey) (ns : Nodes)
      → k.nodes ≡ ns
      → Memᴰ key (keys_of ns)
      → configured k ≡ true
  unfolding configured keys_of
  keys_of-configured k key [] same m = absurd (Memᴰ.not-nil m)
  keys_of-configured k key (e ∷ ns) same m = rw same refl

  -- A keyboard that `Valid` accepts and that has keys has passed the loop.
  valid-check_nodes :
      (k : BotKeyboard) (commands : List String) (key : BotKeyboardKey)
      → valid to_lower k commands ≡ none
      → Memᴰ key (keys_of k.nodes)
      → (is_set k.close_label ≡ true)
        × (check_nodes to_lower k (known_commands to_lower commands) (controls to_lower k) k.nodes
            ≡ none)
  unfolding valid
  valid-check_nodes k commands key h m = ground (arith, keys_of-configured k key k.nodes refl m)

  action_on-find :
      (k : BotKeyboard) (text : String)
      → configured k ≡ true
      → str_eq text "" ≡ false
      → contains (controls to_lower k) text ≡ false
      → action_on to_lower k text ≡ find_in_nodes to_lower text k.nodes
  unfolding action_on controls contains
  action_on-find k text on full fresh = ground (
    arith,
    eq_iff k.close_label text,
    eq_iff text k.close_label,
    eq_iff k.back_label text,
    eq_iff text k.back_label,
  )

  -- A label that is trimmed, and that is none of the controls, is looked up.
  action-find :
      (k : BotKeyboard) (text : String)
      → configured k ≡ true
      → is_blank text ≡ false
      → trim_space text ≡ text
      → contains (controls to_lower k) text ≡ false
      → action to_lower k text ≡ find_in_nodes to_lower text k.nodes
  unfolding action is_blank
  action-find k text on full trimmed fresh =
      ap (action_on to_lower k) trimmed
      ∙ action_on-find k text on (subst (λ t. str_eq t "" ≡ false) trimmed full) fresh

  valid_key-label :
      (nodes : Nodes) (known : List String) (key : BotKeyboardKey)
      → valid_key to_lower nodes known [] key ≡ none
      → is_blank key.label ≡ false
  unfolding valid_key check_label
  valid_key-label nodes known key h = reject-none _ _ (and_then-none _ _ (and_then-none _ _ h).0).0

  -- The label of a key of a keyboard that Valid accepts, when no space is at its ends, resolves to
  -- the action of exactly that key, in whatever order the screens are looked at, and that action
  -- opens a screen of the keyboard, runs a configured command or says something, with a place for
  -- the answer if it asks.
  pub valid-action :
      (k : BotKeyboard) (nodes : Nodes) (commands : List String) (key : BotKeyboardKey)
      → valid to_lower k commands ≡ none
      → ((e : String × BotKeyboardNode) → Memᴰ e nodes → Memᴰ e k.nodes)
      → Memᴰ key (keys_of nodes)
      → trim_space key.label ≡ key.label
      → (action to_lower (record k { nodes = nodes }) key.label ≡ some (action_of to_lower key))
        × LeadsSomewhere k.nodes (known_commands to_lower commands) (action_of to_lower key)
  unfolding IsFound controls
  valid-action k nodes commands key h sub m trimmed =
      let known = known_commands to_lower commands in
      let in_k : (x : BotKeyboardKey) → Memᴰ x (keys_of nodes) → Memᴰ x (keys_of k.nodes) = λ x mx.
        let (e, me, mk) = keys_of-entry x nodes mx in entry-keys_of x k.nodes e (sub e me) mk in
      let (close, checked) = valid-check_nodes k commands key h (in_k key m) in
      let (s, ran) = check_nodes-check_row to_lower k known (controls to_lower k) k.nodes checked in
      let (fresh, fine) =
        All-Memᴰ (IsChecked to_lower k known (controls to_lower k)) (keys_of k.nodes) key
          (check_row-IsChecked to_lower k known (controls to_lower k) (keys_of k.nodes) s ran)
          (in_k key m) in
      let (found, mf, label, r) = find_in_row-IsFound key (keys_of nodes) m in
      let same =
        check_row-distinct to_lower k known (controls to_lower k) (keys_of k.nodes) s found key ran
          (in_k found mf) (in_k key m) label in
      (
        action-find (record k { nodes = nodes }) key.label
              (keys_of-configured (record k { nodes = nodes }) key nodes refl m)
              (valid_key-label k.nodes known key fine) trimmed fresh
            ∙ find_in_nodes-row key.label nodes
            ∙ r
            ∙ ap (λ x. some (action_of to_lower x)) same,
        valid_key-LeadsSomewhere k.nodes known key fine,
      )
