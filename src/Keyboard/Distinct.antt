-- ===== src/Keyboard/Distinct.antt =====
-- What the loops of `Valid` establish about all the keys of a keyboard together.
use mathlib.Core.List.{Memᴰ}
use mathlib.Core.List.Memᴰ
use blueship.Keyboard.{
  BotKeyboardKey, BotKeyboardNode, BotKeyboard, MenuError, check_row, check_rows, check_screen,
  check_nodes, check_label, valid_key,
}
use blueship.Prelude.{
  String, false, ◌⊎◌, inl, inr, none, some, List, [], ◌∷◌, ◌++◌, ◌≡◌, refl, sym, ◌∙◌, ap, All,
  All-map, All-Memᴰ, contains, contains-cons, and_then, reject, and_then-none, none-and_then,
  reject-none, Option-cases, arith, true≢false,
}

abbrev pub Nodes : Type 0
Nodes = List (String × BotKeyboardNode)

-- All keys of the screens, in the order of the loops.
unfoldable pub keys_of_rows : List (List BotKeyboardKey) → List BotKeyboardKey
keys_of_rows [] = []
keys_of_rows (row ∷ rows) = row ++ keys_of_rows rows

unfoldable pub keys_of : Nodes → List BotKeyboardKey
keys_of [] = []
keys_of ((id, node) ∷ ns) = keys_of_rows node.rows ++ keys_of ns

inl≢inr : {e : MenuError} {s : List String} → inl e ≡ inr s → ⊥
inl≢inr h = cc

some≢none : {e : MenuError} → some e ≡ none → ⊥
some≢none h = cc

sum_cases :
    (r : MenuError ⊎ List String)
    → ((e : MenuError) × (r ≡ inl e)) ⊎ ((s : List String) × (r ≡ inr s))
sum_cases (inl e) = inl (e, refl)
sum_cases (inr s) = inr (s, refl)

module _ (to_lower : String → String) (k : BotKeyboard) (known : List String) where
  abbrev run : List String → List BotKeyboardKey → MenuError ⊎ List String
  run = check_row to_lower k.nodes known

  check_row-cases :
      (seen : List String) (keys : List BotKeyboardKey)
      → ((e : MenuError) × (run seen keys ≡ inl e)) ⊎ ((s : List String) × (run seen keys ≡ inr s))
  check_row-cases seen keys = sum_cases (run seen keys)

  check_row-append :
      (seen : List String) (xs ys : List BotKeyboardKey) (s : List String)
      → run seen xs ≡ inr s
      → run seen (xs ++ ys) ≡ run s ys
  unfolding check_row
  check_row-append seen [] ys s h = ground arith
  check_row-append seen (x ∷ xs) ys s h =
      elim (Option-cases (valid_key to_lower k.nodes known seen x)) [
        | inl fine ↦
            rw (fine, check_row)
              (check_row-append (x.label ∷ seen) xs ys s (rw (fine, check_row) at h))
        | inr (e, bad) ↦ absurd (inl≢inr (rw (bad, check_row) at h))
      ]

  check_rows-check_row :
      (seen : List String) (rows : List (List BotKeyboardKey)) (s : List String)
      → check_rows to_lower k.nodes known seen rows ≡ inr s
      → run seen (keys_of_rows rows) ≡ inr s
  unfolding check_rows keys_of_rows check_row
  check_rows-check_row seen [] s h = h
  check_rows-check_row seen ([] ∷ rows) s h = absurd (inl≢inr h)
  check_rows-check_row seen ((key ∷ keys) ∷ rows) s h = elim (check_row-cases seen (key ∷ keys)) [
    | inl (e, bad) ↦ absurd (inl≢inr (rw (bad, check_rows) at h))
    | inr (s', fine) ↦
        check_row-append seen (key ∷ keys) (keys_of_rows rows) s' fine
        ∙ check_rows-check_row s' rows s (rw (fine, check_rows) at h)
  ]

  check_rows-cases :
      (seen : List String) (rows : List (List BotKeyboardKey))
      → ((e : MenuError) × (check_rows to_lower k.nodes known seen rows ≡ inl e))
        ⊎ ((s : List String) × (check_rows to_lower k.nodes known seen rows ≡ inr s))
  check_rows-cases seen rows = sum_cases (check_rows to_lower k.nodes known seen rows)

  -- The keys of screens without an error pass the checks as one row.
  pub check_nodes-check_row :
      (seen : List String) (ns : Nodes)
      → check_nodes to_lower k known seen ns ≡ none
      → (s : List String) × (run seen (keys_of ns) ≡ inr s)
  unfolding check_nodes keys_of check_row
  check_nodes-check_row seen [] h = (seen, refl)
  check_nodes-check_row seen ((id, node) ∷ ns) h =
      elim (Option-cases (check_screen to_lower k node)) [
        | inr (e, bad) ↦ absurd (some≢none (rw (bad, check_nodes) at h))
        | inl clear ↦ elim (check_rows-cases seen node.rows) [
          | inl (e, bad) ↦ absurd (some≢none (rw (clear, bad, check_nodes) at h))
          | inr (s, fine) ↦
              let (s', rest) = check_nodes-check_row s ns (rw (clear, fine, check_nodes) at h) in
              (
                s',
                check_row-append seen (keys_of_rows node.rows) (keys_of ns) s
                      (check_rows-check_row seen node.rows s fine)
                    ∙ rest,
              )
        ]
      ]

  -- A key that is checked has a label that was not seen, and passes the other checks.
  abbrev pub IsChecked : List String → BotKeyboardKey → Type 0
  IsChecked seen key =
      (contains seen key.label ≡ false) × (valid_key to_lower k.nodes known [] key ≡ none)

  valid_key-IsChecked :
      (seen : List String) (key : BotKeyboardKey)
      → valid_key to_lower k.nodes known seen key ≡ none
      → IsChecked seen key
  unfolding valid_key check_label and_then reject contains
  valid_key-IsChecked seen key h =
      let (here, rest) = and_then-none _ _ h in
      let (a, b) = and_then-none _ _ here in
      let (c, d) = and_then-none _ _ b in
      (reject-none _ _ c, none-and_then (none-and_then a d) rest)

  pub check_row-IsChecked :
      (seen : List String) (keys : List BotKeyboardKey) (s : List String)
      → run seen keys ≡ inr s
      → All (IsChecked seen) keys
  unfolding check_row
  check_row-IsChecked seen [] s h = tt
  check_row-IsChecked seen (key ∷ keys) s h =
      elim (Option-cases (valid_key to_lower k.nodes known seen key)) [
        | inr (e, bad) ↦ absurd (inl≢inr (rw (bad, check_row) at h))
        | inl fine ↦ (
          valid_key-IsChecked seen key fine,
          All-map keys (λ x c. (ground (arith, contains-cons key.label x.label seen, c.0), c.1))
              (check_row-IsChecked (key.label ∷ seen) keys s (rw (fine, check_row) at h)),
        )
      ]

  -- Two keys with one label are one key.
  pub check_row-distinct :
      (seen : List String) (keys : List BotKeyboardKey) (s : List String) (a b : BotKeyboardKey)
      → run seen keys ≡ inr s
      → Memᴰ a keys
      → Memᴰ b keys
      → a.label ≡ b.label
      → a ≡ b
  unfolding check_row
  check_row-distinct seen [] s a b h m m' same = absurd (Memᴰ.not-nil m)
  check_row-distinct seen (x ∷ xs) s a b h m m' same =
      elim (Option-cases (valid_key to_lower k.nodes known seen x)) [
        | inr (e, bad) ↦ absurd (inl≢inr (rw (bad, check_row) at h))
        | inl fine ↦
            let h' = rw (fine, check_row) at h in
            let checked = check_row-IsChecked (x.label ∷ seen) xs s h' in
            let apart : (c : BotKeyboardKey) → Memᴰ c xs → x.label ≡ c.label → ⊥ = λ c mc same'.
              true≢false (
                sym ((contains-cons x.label c.label seen).1 (inl same'))
                ∙ (All-Memᴰ (IsChecked (x.label ∷ seen)) xs c checked mc).0) in
            elim (Memᴰ.cases_cons m) [
              | inl e ↦ elim (Memᴰ.cases_cons m') [
                | inl e' ↦ e ∙ sym e'
                | inr n' ↦ absurd (apart b n' (ap (λ y. y.label) (sym e) ∙ same))
              ]
              | inr n ↦ elim (Memᴰ.cases_cons m') [
                | inl e' ↦ absurd (apart a n (ap (λ y. y.label) (sym e') ∙ sym same))
                | inr n' ↦ check_row-distinct (x.label ∷ seen) xs s a b h' n n' same
              ]
            ]
      ]
