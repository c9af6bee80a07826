-- ===== src/Transcript/Repaired.antt =====
-- What a repaired transcript is, and that it needs no other repair.
use blueship.Transcript.{
  ContentBlock, Message, has_tool_result, trim_orphaned_leading, next_answers, is_orphan,
  any_orphan, sanitize_orphaned_tool_use, repair,
}
use blueship.Transcript.Answered.{IsAnswered, IsPaired, assistant, sanitize-IsPaired}
use blueship.Prelude.{
  String, true, false, inl, inr, List, [], ◌∷◌, ◌≡◌, refl, sym, ◌∙◌, ap, subst, All, str_eq, eq_iff,
  Bool-cases, true≢false, arith,
}

-- A transcript begins with what the user said.
abbrev pub IsOpening : List Message → Type 0
IsOpening [] = Unit
IsOpening (m ∷ ms) = (str_eq m.role "user" ≡ true) × (has_tool_result m ≡ false)

trim-IsOpening : (ms : List Message) → IsOpening (trim_orphaned_leading ms)
unfolding trim_orphaned_leading
trim-IsOpening [] = tt
trim-IsOpening (m ∷ ms) = elim (Bool-cases (str_eq m.role "user")) [
  | inr other ↦ rw (other, trim_orphaned_leading) (trim-IsOpening ms)
  | inl said ↦ elim (Bool-cases (has_tool_result m)) [
    | inl result ↦ rw (said, result, trim_orphaned_leading) (trim-IsOpening ms)
    | inr plain ↦ rw (said, plain, trim_orphaned_leading) (said, plain)
  ]
]

user_not_assistant : (role : String) → str_eq role "user" ≡ true → str_eq role "assistant" ≡ false
user_not_assistant role h = elim (Bool-cases (str_eq role "assistant")) [
  | inr off ↦ off
  | inl on ↦ absurd (
      true≢false (
        sym (
          (eq_iff "user" "assistant").1
            (sym ((eq_iff role "user").0 h) ∙ (eq_iff role "assistant").0 on))))
]

sanitize-IsOpening : (ms : List Message) → IsOpening ms → IsOpening (sanitize_orphaned_tool_use ms)
unfolding sanitize_orphaned_tool_use
sanitize-IsOpening [] h = tt
sanitize-IsOpening (m ∷ ms) h = rw (user_not_assistant m.role h.0, sanitize_orphaned_tool_use) h

repair-IsOpening : (ms : List Message) → IsOpening (repair ms)
unfolding repair
repair-IsOpening ms = sanitize-IsOpening (trim_orphaned_leading ms) (trim-IsOpening ms)

repair-calls : (ms : List Message) → IsPaired (repair ms)
unfolding repair
repair-calls ms = sanitize-IsPaired (trim_orphaned_leading ms)

answered-any_orphan :
    (answered : List String) (bs : List ContentBlock)
    → All (IsAnswered true answered) bs
    → any_orphan answered bs ≡ false
unfolding any_orphan is_orphan IsAnswered
answered-any_orphan answered [] h = refl
answered-any_orphan answered (b ∷ bs) h =
    ground (arith, h.0 refl, answered-any_orphan answered bs h.1)

paired-sanitize : (ms : List Message) → IsPaired ms → sanitize_orphaned_tool_use ms ≡ ms
unfolding sanitize_orphaned_tool_use
paired-sanitize [] h = refl
paired-sanitize (m ∷ ms) h = elim (Bool-cases (assistant m)) [
  | inr off ↦ rw (off, sanitize_orphaned_tool_use) (ap (λ r. m ∷ r) (paired-sanitize ms h.1))
  | inl on ↦
      let calm =
        answered-any_orphan (next_answers ms) m.content
          (subst (λ b. All (IsAnswered b (next_answers ms)) m.content) on h.0) in
      ground (arith, calm, paired-sanitize ms h.1)
]

opening-trim : (ms : List Message) → IsOpening ms → trim_orphaned_leading ms ≡ ms
unfolding trim_orphaned_leading
opening-trim [] h = refl
opening-trim (m ∷ ms) h = rw (h.0, h.1, trim_orphaned_leading) refl

-- The repair leaves a transcript alone that begins with the user and has all its calls answered.
repair_fixed : (ms : List Message) → IsOpening ms → IsPaired ms → repair ms ≡ ms
unfolding repair
repair_fixed ms opening paired =
    ap sanitize_orphaned_tool_use (opening-trim ms opening) ∙ paired-sanitize ms paired

-- A repaired transcript begins with something that the user said, every call with an id that an
-- assistant makes in it is answered in the next message, and another repair does not change it.
pub repair-IsPaired :
    (ms : List Message)
    → IsOpening (repair ms) × IsPaired (repair ms) × (repair (repair ms) ≡ repair ms)
repair-IsPaired ms =
    let opening = repair-IsOpening ms in
    let paired = repair-calls ms in (opening, paired, repair_fixed (repair ms) opening paired)
