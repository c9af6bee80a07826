-- ===== src/TaskLifecycle/Draft.antt =====
-- The body of a task's result, as `finalizeTaskTx` looks for it (internal/core/agent_finalize.go), and
-- `cleanTaskDraft`. The regular expression, `strings.ReplaceAll`, the parser of JSON, the format of an
-- unverified draft and the database's order of step ids are parameters.

use blueship.StepStore.{is_read, is_finalize, is_done, text_of, text_is}
use blueship.TaskLifecycle.{TaskRow, StepDraft, Iteration, Submission, Store}
use Prim.Native.String.{◌++◌ as str_append}
use blueship.Prelude.{
  String, Bool, not, ◌&&◌, ◌||◌, Option, none, some, List, [], ◌∷◌, ◌==◌, ltb, if◌then◌else◌,
  str_eq, trim_space, btrim,
}

-- `progress.Final`
pub record FinalProgress : Type 0 where
  pub response_checked : Bool
  pub safe_body : String
  pub last_checked_body : String

pub record Texts : Type 0 where
  pub strip_internals : String → String
  pub remove_all : String → String → String
  pub unmarshal_final : String → Option FinalProgress
  pub format_draft : String → String → String → String → String
  pub by_step_id : List StepDraft → List StepDraft

abbrev is_empty : String → Bool
is_empty s = str_eq s ""

abbrev markers : List String
markers = "[DONE]" ∷ "[CONTINUE]" ∷ "[PAUSE]" ∷ "[MILESTONE]" ∷ "[NOTIFY]" ∷ "[no-op]" ∷ []

-- `COALESCE(x, '')`
abbrev or_empty : Option String → String
or_empty none = ""
or_empty (some s) = s

abbrev is_blank_sql : String → Bool
is_blank_sql s = str_eq (btrim s) ""

module _ (texts : Texts) where
  open texts use {strip_internals, remove_all, unmarshal_final, format_draft, by_step_id}

  unfoldable pub remove_markers : List String → String → String
  remove_markers [] body = body
  remove_markers (m ∷ ms) body = remove_markers ms (remove_all body m)

  unfoldable pub clean_task_draft : String → String
  clean_task_draft body = trim_space (remove_markers markers (strip_internals body))

  -- The latest candidate that the output guard has checked.
  unfoldable pub from_progress : TaskRow → String
  from_progress t = elim (unmarshal_final t.progress) [
    | none ↦ ""
    | some f ↦
        let safe = if f.response_checked then clean_task_draft f.safe_body else "" in
        if is_empty safe then clean_task_draft f.last_checked_body else safe
  ]

  unfoldable pub is_candidate : StepDraft → Bool
  is_candidate s =
      is_finalize s.row.kind
      && text_is s.row.checkpoint.candidate_ready "true"
      && not (is_blank_sql (or_empty (text_of s.row.checkpoint.output)))

  unfoldable pub first_candidate : List StepDraft → String
  first_candidate [] = ""
  first_candidate (s ∷ steps) =
      if is_candidate s then or_empty (text_of s.row.checkpoint.output) else first_candidate steps

  abbrev join_two : String → String → String
  join_two a b =
      if is_empty a then b else if is_empty b then a else str_append a (str_append "\n\n" b)

  -- string_agg(goal || E'\n' || result, E'\n\n') over the steps that are done.
  unfoldable pub done_drafts : List StepDraft → String
  done_drafts [] = ""
  done_drafts (s ∷ steps) =
      let rest = done_drafts steps in
      if is_done s.row.status && not (is_blank_sql s.row.result)
      then join_two (str_append s.goal (str_append "\n" s.row.result)) rest
      else rest

  abbrev read_output : StepDraft → String
  read_output s =
      if text_is s.row.checkpoint.candidate_ready "true"
      then or_empty (text_of s.row.checkpoint.output)
      else or_empty (text_of s.row.checkpoint.last_candidate)

  abbrev coalesce : Option String → String → String
  coalesce none d = d
  coalesce (some s) d = s

  abbrev read_review : StepDraft → String
  read_review s =
      if text_is s.row.checkpoint.candidate_ready "true"
      then coalesce (text_of s.review_reason) s.row.last_error
      else coalesce (text_of s.last_candidate_review) s.row.last_error

  unfoldable pub is_read_draft : StepDraft → Bool
  is_read_draft s =
      is_read s.row.kind && not (is_done s.row.status) && not (is_blank_sql (read_output s))

  -- The complete candidates of reads that are not done.
  unfoldable pub read_parts : String → List StepDraft → List String
  read_parts fmt [] = []
  read_parts fmt (s ∷ steps) =
      let rest = read_parts fmt steps in
      let text = clean_task_draft (read_output s) in
      if not (is_read_draft s) || is_empty text
      then rest
      else format_draft fmt s.goal text (read_review s) ∷ rest

  -- `strings.Join(parts, "\n\n")`
  unfoldable pub join_parts : List String → String
  join_parts [] = ""
  join_parts (p ∷ []) = p
  join_parts (p ∷ q ∷ ps) = str_append p (str_append "\n\n" (join_parts (q ∷ ps)))

  abbrev with_body : String → List String → List String
  with_body body parts = if is_empty body then parts else body ∷ parts

  -- The drafts of a graph task; the reads follow what is done.
  unfoldable pub graph_draft : String → TaskRow → Store → String
  graph_draft fmt t db =
      let checked = from_progress t in
      let candidate = clean_task_draft (first_candidate (by_step_id db.steps)) in
      let drafts = clean_task_draft (done_drafts (by_step_id db.steps)) in
      if not (is_empty checked)
      then checked
      else if not (is_empty candidate)
      then candidate
      else join_parts (with_body drafts (read_parts fmt (by_step_id db.steps)))

  abbrev checkpoint_draft : Option String → String
  checkpoint_draft none = ""
  checkpoint_draft (some output) = if is_blank_sql output then "" else clean_task_draft output

  -- ORDER BY iteration DESC LIMIT 1, among the outputs that are not blank.
  unfoldable pub latest_output : List Iteration → Option Iteration
  latest_output [] = none
  latest_output (i ∷ is) =
      let rest = latest_output is in
      if is_blank_sql (or_empty i.output)
      then rest
      else elim rest [ none ↦ some i | some j ↦ if ltb i.number j.number then some j else some i ]

  abbrev iteration_draft : List Iteration → String
  iteration_draft is = elim (latest_output is) [
    | none ↦ ""
    | some i ↦ clean_task_draft (or_empty i.output)
  ]

  abbrev submission_draft : Option Submission → String
  submission_draft none = ""
  submission_draft (some s) = clean_task_draft s.output

  abbrev pub first_text : String → String → String
  first_text a b = if is_empty a then b else a

  -- The body of the result, from the handler's own on; "" if there is none.
  unfoldable pub draft_body : String → String → TaskRow → Store → String
  draft_body fmt body t db = first_text (clean_task_draft body) (
      first_text (if t.executor_version == 2 then graph_draft fmt t db else "") (
        first_text (submission_draft db.submission)
          (first_text (checkpoint_draft db.checkpoint) (iteration_draft db.iterations))))
