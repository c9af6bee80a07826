-- ===== src/Transcript/Compaction.antt =====
-- Where a transcript is cut when its beginning is summarised: `findSplitPoint` (runtime/agent/compact.go).
-- The tokens of a message are a parameter.
use blueship.Transcript.{Message, has_tool_use, has_tool_result}
use blueship.Prelude.{
  ℕ, zero, suc, ◌+◌, ◌-◌, ◌<◌, Bool, true, false, ◌&&◌, ◌⊎◌, inl, inr, none, some, List, [], ◌∷◌,
  ◌≡◌, refl, sym, ◌∙◌, ap, length, get_elem?, drop, leb, ltb, if◌then◌else◌, str_eq, Bool-cases,
  arith,
}

abbrev pub at_index : (Message → Bool) → List Message → ℕ → Bool
at_index p ms i = elim (get_elem? ms i) [ none ↦ false | some m ↦ p m ]

abbrev pub is_user : Message → Bool
is_user m = str_eq m.role "user"

module _ (tokens : Message → ℕ) where
  abbrev tokens_at : List Message → ℕ → ℕ
  tokens_at ms i = elim (get_elem? ms i) [ none ↦ 0 | some m ↦ tokens m ]

  -- The first loop, from the end, with its index and its sum.
  unfoldable pub token_split : List Message → ℕ → ℕ → ℕ → ℕ
  token_split ms keep sum zero = length ms
  token_split ms keep sum (suc i) =
      let rest = token_split ms keep (sum + tokens_at ms i) i in
      if leb keep (sum + tokens_at ms i) then i else rest

  -- The cut is moved off a call and its results.
  unfoldable pub after_result : List Message → ℕ → ℕ
  after_result ms s = if at_index has_tool_result ms s then s + 1 else s

  unfoldable pub after_pair : List Message → ℕ → ℕ
  after_pair ms s =
      if at_index has_tool_use ms s && ltb (s + 1) (length ms) then after_result ms (s + 1) else s

  unfoldable pub off_tools : List Message → ℕ → ℕ
  off_tools ms s =
      if ltb 0 s && ltb s (length ms)
      then after_pair ms (if at_index has_tool_result ms s then s - 1 else s)
      else s

  -- How many messages the last loop passes.
  unfoldable pub others : List Message → ℕ
  others [] = 0
  others (m ∷ ms) = let n = others ms in if is_user m then 0 else suc n

  unfoldable pub next_user : List Message → ℕ → ℕ
  next_user ms s = s + others (drop s ms)

  abbrev or_none : ℕ → ℕ → ℕ
  or_none n s = if leb n s then 0 else s

  unfoldable pub find_split_point : List Message → ℕ → ℕ
  find_split_point ms keep =
      or_none (length ms) (next_user ms (off_tools ms (token_split ms keep 0 (length ms))))

  others-is_user :
      (ms : List Message) → others ms < length ms → at_index is_user ms (others ms) ≡ true
  unfolding others
  others-is_user [] h = absurd (omega (arith, h))
  others-is_user (m ∷ ms) h = elim (Bool-cases (is_user m)) [
    | inl said ↦ rw (said, others) said
    | inr other ↦ rw (other, others) (others-is_user ms (ground (arith, h, other)))
  ]

  pub get_elem?-drop :
      (s k : ℕ) (ms : List Message) → get_elem? (drop s ms) k ≡ get_elem? ms (s + k)
  get_elem?-drop zero k ms = let same : k ≡ 0 + k = omega arith in ap (get_elem? ms) same
  get_elem?-drop (suc s) k [] = refl
  get_elem?-drop (suc s) k (m ∷ ms) =
      let same : suc (s + k) ≡ suc s + k = omega arith in
      get_elem?-drop s k ms ∙ ap (get_elem? (m ∷ ms)) same

  length-drop_lt : (s k : ℕ) (ms : List Message) → s + k < length ms → k < length (drop s ms)
  length-drop_lt zero k ms h = omega (arith, h)
  length-drop_lt (suc s) k [] h = absurd (omega (arith, h))
  length-drop_lt (suc s) k (m ∷ ms) h = length-drop_lt s k ms (omega (arith, h))

  next_user-is_user :
      (ms : List Message) (s : ℕ)
      → next_user ms s < length ms
      → at_index is_user ms (next_user ms s) ≡ true
  unfolding next_user
  next_user-is_user ms s h =
      ap (λ o. elim o [ none ↦ false | some m ↦ is_user m ])
        (sym (get_elem?-drop s (others (drop s ms)) ms))
      ∙ others-is_user (drop s ms) (length-drop_lt s (others (drop s ms)) ms h)

  or_none-is_user :
      (ms : List Message) (s : ℕ)
      → (s < length ms → at_index is_user ms s ≡ true)
      → (or_none (length ms) s ≡ 0)
        ⊎ ((or_none (length ms) s < length ms)
            × (at_index is_user ms (or_none (length ms) s) ≡ true))
  or_none-is_user ms s h = elim (Bool-cases (leb (length ms) s)) [
    | inl none_left ↦ inl (ground (arith, none_left))
    | inr inside ↦
        let same : or_none (length ms) s ≡ s = ground (arith, inside) in
        inr
          (ground (arith, inside, same), ap (at_index is_user ms) same ∙ h (ground (arith, inside)))
  ]

  -- findSplitPoint returns 0, or the index of a message of the user, whatever the tokens of the
  -- messages are.
  pub find_split_point-is_user :
      (ms : List Message) (keep : ℕ)
      → (find_split_point ms keep ≡ 0)
        ⊎ ((find_split_point ms keep < length ms)
            × (at_index is_user ms (find_split_point ms keep) ≡ true))
  unfolding find_split_point
  find_split_point-is_user ms keep =
      or_none-is_user ms (next_user ms (off_tools ms (token_split ms keep 0 (length ms))))
        (next_user-is_user ms (off_tools ms (token_split ms keep 0 (length ms))))
