-- ===== src/Transcript/Compactor.antt =====
-- `Compact` (runtime/agent/compact.go): the beginning of a long transcript becomes a summary. The
-- tokens of a message, the text of the part that is summarised and the model's summary of a text are
-- parameters; an error is `none`.
use blueship.Transcript.{Message}
use blueship.Transcript.Compaction.{
  find_split_point, find_split_point-is_user, at_index, is_user, get_elem?-drop,
}
use blueship.Prelude.{
  ℕ, zero, suc, ◌+◌, ◌≤◌, ◌<◌, ◌==◌, String, true, false, ◌⊎◌, inl, inr, Option, none, some, List,
  [], ◌∷◌, ◌++◌, ◌≡◌, refl, sym, ◌∙◌, ap, get_elem?, take, drop, ltb, if◌then◌else◌, str_eq,
  Bool-cases, arith,
}

pub take-drop : (s : ℕ) (ms : List Message) → take s ms ++ drop s ms ≡ ms
take-drop zero ms = refl
take-drop (suc s) [] = refl
take-drop (suc s) (m ∷ ms) = ap (λ l. m ∷ l) (take-drop s ms)

unfoldable pub with_kept : List Message → Option String → Option (String × List Message)
with_kept kept none = none
with_kept kept (some summary) = some (summary, kept)

module _ (tokens : Message → ℕ) where
  unfoldable pub estimate_messages_tokens : List Message → ℕ
  estimate_messages_tokens [] = 0
  estimate_messages_tokens (m ∷ ms) = tokens m + estimate_messages_tokens ms

  module _ (format : List Message → String) (summarize : String → Option String)
      (threshold keep : ℕ) where
    -- From the split on.
    unfoldable pub compact_at : List Message → ℕ → Option (String × List Message)
    compact_at ms s =
        if s == 0
        then some ("", ms)
        else if str_eq (format (take s ms)) ""
        then some ("", ms)
        else with_kept (drop s ms) (summarize (format (take s ms)))

    unfoldable pub compact : List Message → Option (String × List Message)
    compact ms =
        if ltb (estimate_messages_tokens ms) threshold
        then some ("", ms)
        else compact_at ms (find_split_point tokens ms keep)

    first_kept :
        (ms : List Message) (s : ℕ)
        → at_index is_user ms s ≡ true
        → at_index is_user (drop s ms) 0 ≡ true
    first_kept ms s h =
        let same : s ≡ s + 0 = omega arith in
        ap (λ o. elim o [ none ↦ false | some m ↦ is_user m ])
          (get_elem?-drop tokens s 0 ms ∙ sym (ap (get_elem? ms) same))
        ∙ h

    compact_at-cases :
        (ms : List Message) (s : ℕ)
        → (compact_at ms s ≡ some ("", ms))
          ⊎ ((0 < s) × (compact_at ms s ≡ with_kept (drop s ms) (summarize (format (take s ms)))))
    unfolding compact_at
    compact_at-cases ms s = elim (Bool-cases (s == 0)) [
      | inl start ↦ inl (rw start refl)
      | inr later ↦ elim (Bool-cases (str_eq (format (take s ms)) "")) [
        | inl empty ↦ inl (rw (later, empty) refl)
        | inr full ↦ inr (ground (arith, later), rw (later, full) refl)
      ]
    ]

    -- Compact returns the transcript as it is without a summary; or the transcript has at least as
    -- many tokens as the threshold, its beginning before the split is not empty, and Compact returns
    -- what the model makes of the text of that beginning, and the rest of the transcript, which begins
    -- with a message of the user and makes up the transcript together with that beginning. Only an
    -- error of the model is an error.
    compact-drop :
        (ms : List Message)
        → let s = find_split_point tokens ms keep in
          (compact ms ≡ some ("", ms))
          ⊎ ((threshold ≤ estimate_messages_tokens ms)
              × (0 < s)
              × (take s ms ++ drop s ms ≡ ms)
              × (at_index is_user (drop s ms) 0 ≡ true)
              × (compact ms ≡ with_kept (drop s ms) (summarize (format (take s ms)))))
    unfolding compact
    compact-drop ms = elim (Bool-cases (ltb (estimate_messages_tokens ms) threshold)) [
      | inl short ↦ inl (rw short refl)
      | inr long ↦ elim (compact_at-cases ms (find_split_point tokens ms keep)) [
        | inl same ↦ inl (rw long same)
        | inr (later, cut) ↦ elim (find_split_point-is_user tokens ms keep) [
          | inl start ↦ absurd (omega (arith, start, later))
          | inr (inside, said) ↦ inr (
            ground (arith, long),
            later,
            take-drop (find_split_point tokens ms keep) ms,
            first_kept ms (find_split_point tokens ms keep) said,
            rw long cut,
          )
        ]
      ]
    ]
