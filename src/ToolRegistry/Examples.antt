-- ===== src/ToolRegistry/Examples.antt =====
-- A ship with a task tool of its own, and a peer that exposes one under the same name. A handler is
-- named by a text.
use blueship.Prelude.{String, some, List, [], ◌∷◌, ◌≡◌, refl, contains}
use blueship.Graph.Nodes.{find}
use blueship.ToolRegistry.{
  ToolRegistry, register, register_remote, definitions, definitions_for_names, has, handler_by_name,
  is_wildcard, wildcard_peer, visit_names, visit_name, visit_peer, tools_for_peer, of_peer, sort,
  insert, put, owned_locally,
}
use blueship.ToolRegistry.Lookup.{names, definitions-has}
use blueship.ToolRegistry.Evidence.{
  register_evidence_reader, mark_read_only, all_known, mark_all, evidence_only_subset,
  evidence_tools, IsReader, evidence_only_subset-IsReader,
}
use blueship.ToolRegistry.Local.{Change, remote, exposing, changes, register-kept}

abbrev none_yet : ToolRegistry String
none_yet = record { tools = []; remote_by_peer = [] }

abbrev ship : ToolRegistry String
ship = register_remote "agent_task_status" "the peer's tasks" "{}" "sync" "nova" "peer status" (
    register_remote "web_search" "search" "{}" "sync" "nova" "peer search"
      (register "agent_task_status" "own tasks" "{}" "own status" none_yet))

abbrev peers : List (Change String)
peers =
    remote "agent_task_status" "the peer's tasks" "{}" "sync" "nova" "peer status"
    ∷ exposing "agent_task_status" "async"
    ∷ []

abbrev asked : List String
asked = "web_search" ∷ "peer:nova" ∷ "web_search" ∷ []

search_once : names (definitions_for_names ship asked) ≡ "web_search" ∷ []
unfolding definitions_for_names visit_names visit_name visit_peer tools_for_peer of_peer sort insert
    put owned_locally find is_wildcard wildcard_peer contains register register_remote
search_once = refl

definitions-has_example : contains (names (definitions ship)) "web_search" ≡ has ship "web_search"
definitions-has_example = definitions-has ship "web_search"

register-kept_example :
    handler_by_name
      (changes peers (register "agent_task_status" "own tasks" "{}" "own status" none_yet))
      "agent_task_status"
    ≡ some "own status"
register-kept_example =
    register-kept "agent_task_status" "own tasks" "{}" "own status" none_yet peers

abbrev archive : ToolRegistry String
archive =
    (register_evidence_reader "notes" (some "read the saved notes")
      (mark_read_only ("notes" ∷ []) (
        register "notes" "notes" "{}" "fetch notes"
          (register "send_mail" "mail" "{}" "mail" none_yet))).0).0

archive_reader :
    handler_by_name (evidence_only_subset archive) "notes" ≡ some "read the saved notes"
unfolding handler_by_name evidence_only_subset evidence_tools find register_evidence_reader
    mark_read_only all_known mark_all has put register
archive_reader = refl

evidence_only_subset-IsReader_example : IsReader archive.tools "notes" "read the saved notes"
evidence_only_subset-IsReader_example =
    evidence_only_subset-IsReader archive "notes" "read the saved notes" archive_reader
