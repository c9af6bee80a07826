-- ===== src/Transcript/Answered.antt =====
-- Every call in a repaired transcript is answered.
use blueship.Transcript.{
  ContentBlock, Message, is_use, any_use, has_tool_use, answers, next_answers, is_orphan,
  any_orphan, clean, keep, sanitize_orphaned_tool_use,
}
use blueship.Prelude.{
  String, Bool, true, false, not, ◌||◌, ◌⊎◌, inl, inr, List, [], ◌∷◌, ◌≡◌, refl, sym, ◌∙◌, ap,
  subst, All, All-map, str_eq, eq_iff, contains, Bool-cases, true≢false, arith,
}

-- A call of a message with this role is answered by these ids.
unfoldable pub IsAnswered : Bool → List String → ContentBlock → Type 0
IsAnswered assistant answered b =
    assistant ≡ true → is_use b ≡ true → str_eq b.id "" ≡ false → contains answered b.id ≡ true

-- Every call that an assistant makes, with an id, is answered in the next message.
abbrev pub IsPaired : List Message → Type 0
IsPaired [] = Unit
IsPaired (m ∷ ms) =
    All (IsAnswered (str_eq m.role "assistant") (next_answers ms)) m.content × IsPaired ms

-- No block is both a call and a result.
two_kinds : (kind : String) → str_eq kind "tool_use" ≡ true → str_eq kind "tool_result" ≡ true → ⊥
two_kinds kind call result = true≢false (
    sym (
      (eq_iff "tool_use" "tool_result").1
        (sym ((eq_iff kind "tool_use").0 call) ∙ (eq_iff kind "tool_result").0 result)))

answers-clean :
    (answered : List String) (bs : List ContentBlock) → answers (clean answered bs) ≡ answers bs
unfolding answers clean is_orphan
answers-clean answered [] = refl
answers-clean answered (b ∷ bs) = ground (
  arith,
  answers-clean answered bs,
  eq_iff b.kind "tool_use",
  eq_iff b.kind "tool_result",
  two_kinds b.kind,
)

clean-IsAnswered :
    (assistant : Bool) (answered : List String) (bs : List ContentBlock)
    → All (IsAnswered assistant answered) (clean answered bs)
unfolding clean is_orphan IsAnswered
clean-IsAnswered assistant answered [] = tt
clean-IsAnswered assistant answered (b ∷ bs) = elim (Bool-cases (is_orphan answered b)) [
  | inl o ↦ rw (o, clean) (clean-IsAnswered assistant answered bs)
  | inr o ↦
      rw (o, clean) ((λ on call id. ground (arith, o)), clean-IsAnswered assistant answered bs)
]

no_orphan-IsAnswered :
    (assistant : Bool) (answered : List String) (bs : List ContentBlock)
    → any_orphan answered bs ≡ false
    → All (IsAnswered assistant answered) bs
unfolding any_orphan is_orphan IsAnswered
no_orphan-IsAnswered assistant answered [] h = tt
no_orphan-IsAnswered assistant answered (b ∷ bs) h = (
  (λ on call id. ground (arith, h)),
  no_orphan-IsAnswered assistant answered bs (ground (arith, h)),
)

no_use-IsAnswered :
    (assistant : Bool) (answered : List String) (bs : List ContentBlock)
    → any_use bs ≡ false
    → All (IsAnswered assistant answered) bs
unfolding any_use IsAnswered
no_use-IsAnswered assistant answered [] h = tt
no_use-IsAnswered assistant answered (b ∷ bs) h = (
  (λ on call id. absurd (ground (arith, h, call))),
  no_use-IsAnswered assistant answered bs (ground (arith, h)),
)

abbrev pub assistant : Message → Bool
assistant m = str_eq m.role "assistant"

-- The first message stays as it is, with its calls answered, or keeps what `clean` leaves of it.
sanitize-cases :
    (m : Message) (ms : List Message)
    → ((sanitize_orphaned_tool_use (m ∷ ms) ≡ m ∷ sanitize_orphaned_tool_use ms)
        × All (IsAnswered (assistant m) (next_answers ms)) m.content)
      ⊎ (sanitize_orphaned_tool_use (m ∷ ms)
          ≡ keep m (clean (next_answers ms) m.content) (sanitize_orphaned_tool_use ms))
unfolding sanitize_orphaned_tool_use
sanitize-cases m ms = elim (Bool-cases (not (assistant m) || not (has_tool_use m))) [
  | inl quiet ↦ inl (rw (quiet, sanitize_orphaned_tool_use) refl, no_calls m ms quiet)
  | inr calls ↦ elim (Bool-cases (any_orphan (next_answers ms) m.content)) [
    | inl o ↦ inr (rw (calls, o, sanitize_orphaned_tool_use) refl)
    | inr o ↦ inl (
      rw (calls, o, sanitize_orphaned_tool_use) refl,
      no_orphan-IsAnswered (assistant m) (next_answers ms) m.content o,
    )
  ]
]
  where
    no_calls :
        (m : Message) (ms : List Message)
        → (not (assistant m) || not (has_tool_use m)) ≡ true
        → All (IsAnswered (assistant m) (next_answers ms)) m.content
    no_calls m ms quiet = elim (Bool-cases (assistant m)) [
      | inl on ↦
          no_use-IsAnswered (assistant m) (next_answers ms) m.content
            (unfold has_tool_use in ground (arith, on, quiet))
      | inr off ↦ of_others (assistant m) m.content off
    ]
      where
        of_others :
            (b : Bool) (bs : List ContentBlock)
            → b ≡ false
            → All (IsAnswered b (next_answers ms)) bs
        of_others b [] off = tt
        of_others b (x ∷ xs) off =
            (unfold IsAnswered in λ on. absurd (true≢false (sym on ∙ off)), of_others b xs off)

keep-next_answers :
    (m : Message) (bs : List ContentBlock) (rest : List Message) (id : String)
    → answers bs ≡ answers m.content
    → contains (answers m.content) id ≡ true
    → contains (next_answers (keep m bs rest)) id ≡ true
unfolding next_answers answers contains
keep-next_answers m [] rest id same h =
    absurd (true≢false (sym h ∙ ap (λ xs. contains xs id) (sym same)))
keep-next_answers m (b ∷ bs) rest id same h = ap (λ xs. contains xs id) same ∙ h

-- The answers that a message finds are still there after the repair of what follows.
next_answers-sanitize :
    (ms : List Message) (id : String)
    → contains (next_answers ms) id ≡ true
    → contains (next_answers (sanitize_orphaned_tool_use ms)) id ≡ true
unfolding next_answers sanitize_orphaned_tool_use
next_answers-sanitize [] id h = h
next_answers-sanitize (m ∷ ms) id h = elim (sanitize-cases m ms) [
  | inl (same, _) ↦ ap (λ xs. contains (next_answers xs) id) same ∙ h
  | inr cleaned ↦
      ap (λ xs. contains (next_answers xs) id) cleaned
      ∙ keep-next_answers m (clean (next_answers ms) m.content) (sanitize_orphaned_tool_use ms) id
          (answers-clean (next_answers ms) m.content) h
]

still-IsAnswered :
    (on : Bool) (ms : List Message) (bs : List ContentBlock)
    → All (IsAnswered on (next_answers ms)) bs
    → All (IsAnswered on (next_answers (sanitize_orphaned_tool_use ms))) bs
unfolding IsAnswered
still-IsAnswered on ms bs h =
    All-map {P = IsAnswered on (next_answers ms)}
      {Q = IsAnswered on (next_answers (sanitize_orphaned_tool_use ms))} bs
      (λ b a o call id. next_answers-sanitize ms b.id (a o call id)) h

keep-IsPaired :
    (m : Message) (bs : List ContentBlock) (rest : List Message)
    → All (IsAnswered (assistant m) (next_answers rest)) bs
    → IsPaired rest
    → IsPaired (keep m bs rest)
keep-IsPaired m [] rest h paired = paired
keep-IsPaired m (b ∷ bs) rest h paired = (h, paired)

pub sanitize-IsPaired : (ms : List Message) → IsPaired (sanitize_orphaned_tool_use ms)
unfolding sanitize_orphaned_tool_use
sanitize-IsPaired [] = tt
sanitize-IsPaired (m ∷ ms) = elim (sanitize-cases m ms) [
  | inl (same, fine) ↦
      subst IsPaired (sym same)
        (still-IsAnswered (assistant m) ms m.content fine, sanitize-IsPaired ms)
  | inr cleaned ↦ subst IsPaired (sym cleaned) (
      keep-IsPaired m (clean (next_answers ms) m.content) (sanitize_orphaned_tool_use ms)
        (still-IsAnswered (assistant m) ms (clean (next_answers ms) m.content)
          (clean-IsAnswered (assistant m) (next_answers ms) m.content))
        (sanitize-IsPaired ms))
]
