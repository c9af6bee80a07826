-- ===== src/Transcript.antt =====
-- The repair of a transcript before it is sent to a model: `trimOrphanedLeading` and
-- `sanitizeOrphanedToolUse` (runtime/session/compact.go), in the order of their caller in
-- runtime/session/messages.go. A message is its role and its content as `NormalizeContent` gives it,
-- since a message whose blocks all stay keeps its content.
pub mod Answered
pub mod Repaired
pub mod Compaction
pub mod Compactor
mod Examples
use blueship.Prelude.{
  String, Bool, true, false, not, ◌&&◌, ◌||◌, List, [], ◌∷◌, ◌++◌, if◌then◌else◌, str_eq, contains,
}

pub record ContentBlock : Type 0 where
  pub kind : String
  pub text : String
  pub id : String
  pub tool_use_id : String

pub record Message : Type 0 where
  pub role : String
  pub content : List ContentBlock

abbrev pub is_use : ContentBlock → Bool
is_use b = str_eq b.kind "tool_use"

abbrev pub is_result : ContentBlock → Bool
is_result b = str_eq b.kind "tool_result"

unfoldable pub any_use : List ContentBlock → Bool
any_use [] = false
any_use (b ∷ bs) = is_use b || any_use bs

unfoldable pub any_result : List ContentBlock → Bool
any_result [] = false
any_result (b ∷ bs) = is_result b || any_result bs

unfoldable pub has_tool_use : Message → Bool
has_tool_use m = any_use m.content

unfoldable pub has_tool_result : Message → Bool
has_tool_result m = any_result m.content

unfoldable pub trim_orphaned_leading : List Message → List Message
trim_orphaned_leading [] = []
trim_orphaned_leading (m ∷ ms) =
    let rest = trim_orphaned_leading ms in
    if not (str_eq m.role "user") then rest else if has_tool_result m then rest else m ∷ ms

-- The ids that the results in these blocks answer.
unfoldable pub answers : List ContentBlock → List String
answers [] = []
answers (b ∷ bs) =
    let rest = answers bs in
    if is_result b && not (str_eq b.tool_use_id "") then b.tool_use_id ∷ rest else rest

-- The ids that the next message answers, if there is one.
unfoldable pub next_answers : List Message → List String
next_answers [] = []
next_answers (n ∷ ns) = answers n.content

-- A block of a call that none of these ids answers.
unfoldable pub is_orphan : List String → ContentBlock → Bool
is_orphan answered b = is_use b && not (str_eq b.id "") && not (contains answered b.id)

unfoldable pub any_orphan : List String → List ContentBlock → Bool
any_orphan answered [] = false
any_orphan answered (b ∷ bs) = is_orphan answered b || any_orphan answered bs

-- The loop that collects `cleaned`.
unfoldable pub clean : List String → List ContentBlock → List ContentBlock
clean answered [] = []
clean answered (b ∷ bs) =
    let rest = clean answered bs in if is_orphan answered b then rest else b ∷ rest

abbrev pub keep : Message → List ContentBlock → List Message → List Message
keep m [] rest = rest
keep m (b ∷ bs) rest = record m { content = b ∷ bs } ∷ rest

-- The loop from its index on. What it does to a message depends on the message and on the next one,
-- which it has not reached.
unfoldable pub sanitize_orphaned_tool_use : List Message → List Message
sanitize_orphaned_tool_use [] = []
sanitize_orphaned_tool_use (m ∷ ms) =
    let rest = sanitize_orphaned_tool_use ms in
    if not (str_eq m.role "assistant") || not (has_tool_use m)
    then m ∷ rest
    else if not (any_orphan (next_answers ms) m.content)
    then m ∷ rest
    else keep m (clean (next_answers ms) m.content) rest

unfoldable pub repair : List Message → List Message
repair ms = sanitize_orphaned_tool_use (trim_orphaned_leading ms)
