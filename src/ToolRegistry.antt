-- ===== src/ToolRegistry.antt =====
-- The tool registry (internal/core/registry.go). The map `tools` is the list of its values, each
-- under the name of its definition; `remoteByPeer` is a list of keys and tools. `H` is the type of
-- the handlers, functions that the registry keeps and does not read. `sort.Slice` by name is an
-- insertion sort; the names of the values of a map are distinct. The denylist that a context carries
-- (internal/core/reqctx.go) is a list of names.
pub mod Local
pub mod Lookup
pub mod Evidence
mod Examples
use Prim.Native.String.{compare, slice, len, ◌++◌ as str_append}
use Prim.Native.Nat.{Ordering}
use text.Mathlib.Text.{starts_with}
use blueship.Prelude.{
  String, Bool, true, false, not, ◌⊎◌, inl, inr, Option, none, some, List, [], ◌∷◌, ◌++◌, map,
  if◌then◌else◌, str_eq, contains,
}
use blueship.Graph.Nodes.{find}

pub record ToolDefinition : Type 0 where
  pub name : String
  pub description : String
  pub input_schema : String

pub record RegisteredTool (H : Type 0) : Type 0 where
  pub read_only : Bool
  pub definition : ToolDefinition
  pub handler : H
  pub evidence_reader : Option H
  pub mode : String
  pub exposed : Bool
  pub remote : Bool
  pub peer_tag : String

pub record ToolRegistry (H : Type 0) : Type 0 where
  pub tools : List (RegisteredTool H)
  pub remote_by_peer : List (String × RegisteredTool H)

-- `remoteKey`, with the NUL between.
unfoldable pub remote_key : String → String → String
remote_key peer name = str_append peer (str_append "\0" name)

abbrev pub peer_prefix : String
peer_prefix = "peer:"

unfoldable pub is_wildcard : String → Bool
is_wildcard name = starts_with name peer_prefix

-- `name[len(peerPrefix):]`
unfoldable pub wildcard_peer : String → String
wildcard_peer name = slice name (len peer_prefix) (len name)

module _ {H : Type 0} where
  abbrev pub name_of : RegisteredTool H → String
  name_of t = t.definition.name

  -- `m[k] = t`
  unfoldable pub put : RegisteredTool H → List (RegisteredTool H) → List (RegisteredTool H)
  put t [] = t ∷ []
  put t (u ∷ us) =
      let rest = put t us in if str_eq (name_of u) (name_of t) then t ∷ us else u ∷ rest

  abbrev pub local_tool : (name description schema : String) → H → RegisteredTool H
  local_tool name description schema handler = record {
    read_only = false;
    definition = record { name = name; description = description; input_schema = schema };
    handler = handler;
    evidence_reader = none;
    mode = "sync";
    exposed = false;
    remote = false;
    peer_tag = "";
  }

  -- `Register`
  unfoldable pub register : (name description schema : String) → H → ToolRegistry H → ToolRegistry H
  register name description schema handler r = record r {
    tools = put (local_tool name description schema handler) r.tools;
  }

  -- `Expose`
  unfoldable pub expose : (name mode : String) → ToolRegistry H → ToolRegistry H × Bool
  expose name mode r = elim (find name_of r.tools name) [
    | none ↦ (r, false)
    | some t ↦ (record r { tools = put (record t { exposed = true; mode = mode }) r.tools }, true)
  ]

  unfoldable pub put_key :
      String
      → RegisteredTool H
      → List (String × RegisteredTool H)
      → List (String × RegisteredTool H)
  put_key k t [] = (k, t) ∷ []
  put_key k t ((j, u) ∷ us) =
      let rest = put_key k t us in if str_eq j k then (k, t) ∷ us else (j, u) ∷ rest

  abbrev pub remote_tool : (name description schema mode peer : String) → H → RegisteredTool H
  remote_tool name description schema mode peer handler = record {
    read_only = false;
    definition = record { name = name; description = description; input_schema = schema };
    handler = handler;
    evidence_reader = none;
    mode = mode;
    exposed = false;
    remote = true;
    peer_tag = peer;
  }

  unfoldable pub owned_locally : ToolRegistry H → String → Bool
  owned_locally r name = elim (find name_of r.tools name) [ none ↦ false | some t ↦ not t.remote ]

  -- `RegisterRemote`
  unfoldable pub register_remote :
      (name description schema mode peer : String) → H → ToolRegistry H → ToolRegistry H
  register_remote name description schema mode peer handler r =
      let rt = remote_tool name description schema mode peer handler in
      record {
        tools = if owned_locally r name then r.tools else put rt r.tools;
        remote_by_peer = put_key (remote_key peer name) rt r.remote_by_peer;
      }

  -- `HandlerByName`
  unfoldable pub handler_by_name : ToolRegistry H → String → Option H
  handler_by_name r name = elim (find name_of r.tools name) [
    | none ↦ none
    | some t ↦ some t.handler
  ]

  -- `Has`
  unfoldable pub has : ToolRegistry H → String → Bool
  has r name = elim (find name_of r.tools name) [ none ↦ false | some t ↦ true ]

  -- `PeerForTool`
  unfoldable pub peer_for_tool : ToolRegistry H → String → String
  peer_for_tool r name = elim (find name_of r.tools name) [ none ↦ "" | some t ↦ t.peer_tag ]

  abbrev before : RegisteredTool H → RegisteredTool H → Bool
  before t u = elim (compare (name_of t) (name_of u)) [ Ordering.lt ↦ true | _ ↦ false ]

  unfoldable pub insert : RegisteredTool H → List (RegisteredTool H) → List (RegisteredTool H)
  insert t [] = t ∷ []
  insert t (u ∷ us) = let rest = insert t us in if before u t then u ∷ rest else t ∷ u ∷ us

  unfoldable pub sort : List (RegisteredTool H) → List (RegisteredTool H)
  sort [] = []
  sort (t ∷ ts) = insert t (sort ts)

  -- `Definitions`
  unfoldable pub definitions : ToolRegistry H → List ToolDefinition
  definitions r = map (λ t. t.definition) (sort r.tools)

  unfoldable pub of_peer : String → List (RegisteredTool H) → List (RegisteredTool H)
  of_peer peer [] = []
  of_peer peer (t ∷ ts) =
      let rest = of_peer peer ts in if str_eq t.peer_tag peer then t ∷ rest else rest

  -- `toolsForPeer`
  unfoldable pub tools_for_peer : ToolRegistry H → String → List (RegisteredTool H)
  tools_for_peer r peer = sort (of_peer peer r.tools)

  -- The inner loop of `DefinitionsForNames`: the new definitions, and `seen` after it.
  unfoldable pub visit_peer :
      List (RegisteredTool H) → List String → List ToolDefinition × List String
  visit_peer [] seen = ([], seen)
  visit_peer (t ∷ ts) seen =
      if contains seen (name_of t)
      then visit_peer ts seen
      else let (ds, seen') = visit_peer ts (name_of t ∷ seen) in (t.definition ∷ ds, seen')

  unfoldable pub visit_name :
      ToolRegistry H → String → List String → List ToolDefinition × List String
  visit_name r name seen =
      if is_wildcard name
      then visit_peer (tools_for_peer r (wildcard_peer name)) seen
      else if contains seen name
      then ([], seen)
      else (
        elim (find name_of r.tools name) [ none ↦ [] | some t ↦ t.definition ∷ [] ],
        name ∷ seen,
      )

  unfoldable pub visit_names : ToolRegistry H → List String → List String → List ToolDefinition
  visit_names r [] seen = []
  visit_names r (n ∷ ns) seen =
      let (ds, seen') = visit_name r n seen in ds ++ visit_names r ns seen'

  -- `DefinitionsForNames`
  unfoldable pub definitions_for_names : ToolRegistry H → List String → List ToolDefinition
  definitions_for_names r names = visit_names r names []

  -- `Execute` up to the call of the handler: the error, or the tool that is called.
  unfoldable pub execute :
      ToolRegistry H → (denied : List String) → String → String ⊎ RegisteredTool H
  execute r denied name =
      if contains denied name
      then inl (str_append "tool denied for this turn: " name)
      else elim (find name_of r.tools name) [
        | none ↦ inl (str_append "unknown tool: " name)
        | some t ↦ inr t
      ]
