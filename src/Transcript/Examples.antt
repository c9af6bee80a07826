-- ===== src/Transcript/Examples.antt =====
-- Witnesses for the theorems about transcripts, and tests.
use blueship.Transcript.{
  ContentBlock, Message, any_use, any_result, has_tool_use, has_tool_result, trim_orphaned_leading,
  answers, next_answers, is_orphan, any_orphan, clean, sanitize_orphaned_tool_use, repair,
}
use blueship.Transcript.Answered.{IsPaired}
use blueship.Transcript.Repaired.{IsOpening, repair-IsPaired}
use blueship.Transcript.Compaction.{
  find_split_point, token_split, next_user, others, off_tools, after_pair, after_result,
}
use blueship.Transcript.Compactor.{estimate_messages_tokens, with_kept, compact_at, compact}
use blueship.Prelude.{Option, some, drop, ℕ, String, List, [], ◌∷◌, ◌≡◌, refl, contains}

abbrev said : String → ContentBlock
said text = record { kind = "text"; text = text; id = ""; tool_use_id = "" }

abbrev calls : String → ContentBlock
calls id = record { kind = "tool_use"; text = ""; id = id; tool_use_id = "" }

abbrev answered : String → ContentBlock
answered id = record { kind = "tool_result"; text = "4"; id = ""; tool_use_id = id }

abbrev from : String → List ContentBlock → Message
from role content = record { role = role; content = content }

-- A result without its call, and a call that a crash has left without a result.
abbrev broken : List Message
broken =
    from "user" (answered "t0" ∷ [])
    ∷ from "user" (said "hello" ∷ [])
    ∷ from "assistant" (said "wait" ∷ calls "t1" ∷ calls "t2" ∷ [])
    ∷ from "user" (answered "t1" ∷ [])
    ∷ from "assistant" (calls "t3" ∷ [])
    ∷ []

repair-broken :
    repair broken
    ≡ from "user" (said "hello" ∷ [])
      ∷ from "assistant" (said "wait" ∷ calls "t1" ∷ [])
      ∷ from "user" (answered "t1" ∷ [])
      ∷ []
unfolding repair sanitize_orphaned_tool_use trim_orphaned_leading has_tool_result any_result
    has_tool_use any_use answers next_answers is_orphan any_orphan clean contains
repair-broken = refl

repair-IsPaired_example :
    IsOpening (repair broken) × IsPaired (repair broken) × (repair (repair broken) ≡ repair broken)
repair-IsPaired_example = repair-IsPaired broken

-- Two calls one after the other: what is kept begins with the result of the second call, which is
-- itself in the part that is summarised.
abbrev two_calls : List Message
two_calls =
    from "user" (said "hello" ∷ [])
    ∷ from "assistant" (calls "t1" ∷ [])
    ∷ from "user" (answered "t1" ∷ [])
    ∷ from "assistant" (calls "t2" ∷ [])
    ∷ from "user" (answered "t2" ∷ [])
    ∷ from "assistant" (said "done" ∷ [])
    ∷ []

split_two_calls : find_split_point (λ m. 1) two_calls 5 ≡ 4
unfolding find_split_point token_split next_user others off_tools after_pair after_result
    has_tool_result any_result has_tool_use any_use
split_two_calls = refl

abbrev one_token : Message → ℕ
one_token m = 1

abbrev two_questions : List Message
two_questions =
    from "user" (said "hello" ∷ [])
    ∷ from "assistant" (said "hi" ∷ [])
    ∷ from "user" (said "bye" ∷ [])
    ∷ from "assistant" (said "later" ∷ [])
    ∷ []

abbrev first_text : List Message → String
first_text [] = ""
first_text (m ∷ ms) = elim m.content [ [] ↦ "" | b ∷ bs ↦ b.text ]

abbrev summary_of : String → Option String
summary_of text = some text

compact-two_questions :
    compact one_token first_text summary_of 3 2 two_questions ≡ some ("hello", drop 2 two_questions)
unfolding compact compact_at estimate_messages_tokens with_kept find_split_point token_split
    next_user others off_tools after_pair after_result has_tool_result any_result has_tool_use
    any_use
compact-two_questions = refl
