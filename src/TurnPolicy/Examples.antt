-- ===== src/TurnPolicy/Examples.antt =====
-- A host that wants the web search for a turn.
use blueship.Prelude.{
  String, true, false, Option, none, some, List, [], ◌∷◌, ◌≡◌, ◌≢◌, refl, inl, contains, arith,
  eq_iff,
}
use blueship.Graph.Nodes.{find}
use blueship.ToolRegistry.{
  ToolRegistry, register, execute, has, put, definitions_for_names, visit_names, visit_name,
  is_wildcard,
}
use blueship.TurnPolicy.{
  TurnPolicy, TurnPolicyRequest, RunConfig, active, required, resolve_turn_policy,
  apply_turn_policy, with_denied_tools, normalize_turn_policy, known_mode, is_mode, demand,
  dedupe_strings, dedupe, first_missing, available_tool_names, backing, wildcards,
  concrete_turn_policy_tools, concretes, concrete,
}
use blueship.TurnPolicy.Available.{IsOffered, resolve_turn_policy-IsOffered}
use blueship.TurnPolicy.Denied.{failed_lookup-execute}

abbrev registry : ToolRegistry String
registry =
    register "web_search" "search" "{}" "search"
      (register "send_mail" "mail" "{}" "mail" (record { tools = []; remote_by_peer = [] }))

abbrev base : List String
base = "web_search" ∷ "send_mail" ∷ []

abbrev facts : TurnPolicyRequest
facts = record {
  role = "cortex";
  user_id = "u";
  soul_id = "s";
  user_text = "what did I write to Ann?";
  base_tools = [];
  available_tools = [];
  ephemeral = false;
}

abbrev host : TurnPolicyRequest → TurnPolicy
host req = record {
  requested_mode = "on";
  effective_mode = "on";
  tools = some ("web_search" ∷ []);
  denied_tools = [];
  strict = true;
  require_cortex = false;
  guidance = "";
  pre_actions = [];
  observer_actions = [];
  suppress_tool_directives = false;
  flags = [];
  diagnostics = [];
  source = "host";
  unavailable_reason = "";
}

abbrev lookup : Option (Option (List String))
lookup = some (some ("web_search" ∷ []))

acts : active (resolve_turn_policy registry base lookup (some host) facts).0 ≡ true
unfolding resolve_turn_policy active normalize_turn_policy known_mode is_mode demand dedupe_strings
    dedupe first_missing required available_tool_names backing wildcards concrete_turn_policy_tools
    concretes concrete definitions_for_names visit_names visit_name is_wildcard find put register
    contains
acts = refl

needs_search :
    contains (required (resolve_turn_policy registry base lookup (some host) facts).0) "web_search"
    ≡ true
unfolding resolve_turn_policy active normalize_turn_policy known_mode is_mode demand dedupe_strings
    dedupe first_missing required available_tool_names backing wildcards concrete_turn_policy_tools
    concretes concrete definitions_for_names visit_names visit_name is_wildcard find put register
    contains
needs_search = refl

abbrev search : String
search = "web_search"

search_named : search ≢ ""
search_named e = ground (arith, eq_iff "web_search" "")

resolve_turn_policy-IsOffered_example :
    IsOffered registry base
      (resolve_turn_policy registry base lookup (some host) facts).1
      "web_search"
resolve_turn_policy-IsOffered_example =
    resolve_turn_policy-IsOffered registry base lookup (some host) facts acts "web_search"
      search_named needs_search

abbrev config : RunConfig
config = record {
  denied_tools = [];
  turn_policy_active = false;
  tool_override = none;
  toolbox_expansion = none;
  strict_tools = false;
  tool_selection_source = "";
}

search_registered : has registry "web_search" ≡ true
unfolding has find put register
search_registered = refl

failed_lookup-execute_example :
    execute registry
      (with_denied_tools []
        (apply_turn_policy
          (resolve_turn_policy registry base none (some host) facts).0
          config).denied_tools)
      "web_search"
    ≡ inl "tool denied for this turn: web_search"
failed_lookup-execute_example =
    failed_lookup-execute registry base (some host) facts config [] "web_search" search_named
      search_registered
