-- ===== src/TurnPolicy.antt =====
-- The host's policy for one turn: `TurnPolicy` (internal/core/turn_policy.go), how the gateway
-- resolves, normalises and applies it (internal/gateway/turn_policy.go, tool_selection.go), and the
-- denylist of a context (internal/core/reqctx.go). A slice whose nil differs from the empty slice is
-- an Option; a map from names to true is the list of its names. The host's resolver and the lookup of
-- the soul's allowlist are arguments; the guard against nil receivers is left out.
pub mod Available
pub mod Denied
pub mod Selection
mod Examples
use Prim.Native.String.{◌++◌ as str_append}
use blueship.Prelude.{
  String, Bool, true, false, not, ◌||◌, Option, none, some, List, [], ◌∷◌, ◌++◌, map, if◌then◌else◌,
  str_eq, contains,
}
use blueship.ToolRegistry.{
  ToolDefinition, ToolRegistry, definitions, definitions_for_names, peer_for_tool, is_wildcard,
  wildcard_peer,
}

pub record ToolAction : Type 0 where
  pub tool : String
  pub input : String
  pub mutation : Bool

pub record TurnPolicy : Type 0 where
  pub requested_mode : String
  pub effective_mode : String
  pub tools : Option (List String)
  pub denied_tools : List String
  pub strict : Bool
  pub require_cortex : Bool
  pub guidance : String
  pub pre_actions : List ToolAction
  pub observer_actions : List ToolAction
  pub suppress_tool_directives : Bool
  pub flags : List String
  pub diagnostics : List (String × String)
  pub source : String
  pub unavailable_reason : String

pub record TurnPolicyRequest : Type 0 where
  pub role : String
  pub user_id : String
  pub soul_id : String
  pub user_text : String
  pub base_tools : List String
  pub available_tools : List String
  pub ephemeral : Bool

-- `Active`
unfoldable pub active : TurnPolicy → Bool
active p = str_eq p.effective_mode "canary" || str_eq p.effective_mode "on"

unfoldable pub dedupe : (seen : List String) → List String → List String
dedupe seen [] = []
dedupe seen (s ∷ ss) =
    if str_eq s "" || contains seen s then dedupe seen ss else s ∷ dedupe (s ∷ seen) ss

-- `dedupeStrings`
unfoldable pub dedupe_strings : List String → List String
dedupe_strings xs = dedupe [] xs

abbrev pub names : List ToolDefinition → List String
names ds = map (λ d. d.name) ds

-- `policy.Diagnostics[k] = v`
unfoldable pub set_diagnostic : String → String → List (String × String) → List (String × String)
set_diagnostic k v [] = (k, v) ∷ []
set_diagnostic k v ((j, u) ∷ ds) =
    let rest = set_diagnostic k v ds in if str_eq j k then (k, v) ∷ ds else (j, u) ∷ rest

abbrev pub off : TurnPolicy → TurnPolicy
off p = record p {
  effective_mode = "off";
  tools = none;
  strict = false;
  guidance = "";
  pre_actions = [];
  observer_actions = [];
  suppress_tool_directives = false;
}

-- The first required tool that is not available.
unfoldable pub first_missing : List String → List String → Option String
first_missing available [] = none
first_missing available (n ∷ ns) =
    if contains available n then first_missing available ns else some n

abbrev pub tools_of : Option (List String) → List String
tools_of none = []
tools_of (some ts) = ts

unfoldable pub required : TurnPolicy → List String
required p = tools_of p.tools ++ map (λ a. a.tool) p.pre_actions

unfoldable pub is_mode : String → Bool
is_mode m = str_eq m "off" || str_eq m "shadow" || str_eq m "canary" || str_eq m "on"

unfoldable pub known_mode : TurnPolicy → TurnPolicy
known_mode p =
    if is_mode p.effective_mode
    then p
    else record p { effective_mode = "off"; unavailable_reason = "invalid_effective_mode" }

unfoldable pub quiet : TurnPolicy → TurnPolicy
quiet p = record p {
  tools = none;
  strict = false;
  guidance = "";
  pre_actions = [];
  suppress_tool_directives = false;
  observer_actions = if str_eq p.effective_mode "shadow" then p.observer_actions else [];
}

unfoldable pub demand : TurnPolicy → List String → TurnPolicy
demand p available = elim (first_missing available (dedupe_strings (required p))) [
  | none ↦ p
  | some n ↦ record (off p) {
    denied_tools = dedupe_strings (p.denied_tools ++ n ∷ []);
    unavailable_reason = str_append "required_tool_unavailable:" n;
  }
]

-- `normalizeTurnPolicy`
unfoldable pub normalize_turn_policy : TurnPolicy → List String → TurnPolicy
normalize_turn_policy p available =
    let p' = known_mode p in if active p' then demand p' available else quiet p'

unfoldable pub backing : List ToolDefinition → Option (List String) → List String
backing [] allowed = []
backing (d ∷ ds) allowed =
    let rest = backing ds allowed in
    elim allowed [
      | none ↦ d.name ∷ rest
      | some xs ↦ if contains xs d.name then d.name ∷ rest else rest
    ]

module _ {H : Type 0} (registry : ToolRegistry H) where
  unfoldable pub peers_of : List String → List String
  peers_of [] = []
  peers_of (n ∷ ns) =
      let peer = peer_for_tool registry n in
      if str_eq peer "" then peers_of ns else peer ∷ peers_of ns

  unfoldable pub wildcards : List String → List String → List String
  wildcards peers [] = []
  wildcards peers (n ∷ ns) =
      let rest = wildcards peers ns in
      if is_wildcard n then (if contains peers (wildcard_peer n) then n ∷ rest else rest) else rest

  -- `availableToolNames`
  unfoldable pub available_tool_names : List String → Option (List String) → List String
  available_tool_names base allowed =
      let out = backing (definitions_for_names registry base) allowed in
      dedupe_strings (out ++ wildcards (peers_of out) base)

  unfoldable pub only : List String → List String → List String
  only available [] = []
  only available (n ∷ ns) =
      let rest = only available ns in if contains available n then n ∷ rest else rest

  -- The body of the loop of `concreteTurnPolicyTools`.
  unfoldable pub concrete : List String → String → List String
  concrete available n =
      if is_wildcard n
      then elim (only available (names (definitions_for_names registry (n ∷ [])))) [
        | [] ↦ n ∷ []
        | m ∷ ms ↦ m ∷ ms
      ]
      else n ∷ []

  unfoldable pub concretes : List String → List String → List String
  concretes available [] = []
  concretes available (n ∷ ns) = concrete available n ++ concretes available ns

  -- `concreteTurnPolicyTools`
  unfoldable pub concrete_turn_policy_tools :
      Option (List String) → List String → Option (List String)
  concrete_turn_policy_tools none available = none
  concrete_turn_policy_tools (some []) available = some []
  concrete_turn_policy_tools (some (n ∷ ns)) available =
      some (dedupe_strings (concretes available (n ∷ ns)))

  -- `failClosedSoulToolPolicy`
  unfoldable pub fail_closed_soul_tool_policy : TurnPolicy → TurnPolicy
  fail_closed_soul_tool_policy p = record (off p) {
    unavailable_reason = "soul_tool_policy_unavailable";
    diagnostics = set_diagnostic "tool_policy_status" "unavailable" p.diagnostics;
    denied_tools = dedupe_strings (p.denied_tools ++ names (definitions registry));
  }

  abbrev close_if : Bool → TurnPolicy → TurnPolicy
  close_if true p = fail_closed_soul_tool_policy p
  close_if false p = p

  abbrev blank_policy : TurnPolicy
  blank_policy = record {
    requested_mode = "";
    effective_mode = "off";
    tools = none;
    denied_tools = [];
    strict = false;
    require_cortex = false;
    guidance = "";
    pre_actions = [];
    observer_actions = [];
    suppress_tool_directives = false;
    flags = [];
    diagnostics = [];
    source = "";
    unavailable_reason = "";
  }

  -- `resolveTurnPolicy` after its guard. `lookup` is the answer of `resolveAllowedToolsForSoul`,
  -- where `none` is its error; `base` the tools of the role; `facts` the rest of the request.
  unfoldable pub resolve_turn_policy :
      (base : List String) (lookup : Option (Option (List String)))
      (resolver : Option (TurnPolicyRequest → TurnPolicy)) (facts : TurnPolicyRequest)
      → TurnPolicy × Option (List String)
  resolve_turn_policy base lookup resolver facts =
      let failed : Bool = elim lookup [ none ↦ true | some a ↦ false ] in
      let allowed : Option (List String) = elim lookup [ none ↦ some [] | some a ↦ a ] in
      let available = available_tool_names base allowed in
      elim resolver [
        | none ↦ (close_if failed blank_policy, allowed)
        | some f ↦
            let p = f (record facts { base_tools = base; available_tools = available }) in
            let p' = record p { tools = concrete_turn_policy_tools p.tools available } in
            (close_if failed (normalize_turn_policy p' available), allowed)
      ]

-- The fields of `agent.RunConfig` that a policy sets.
pub record RunConfig : Type 0 where
  pub denied_tools : List String
  pub turn_policy_active : Bool
  pub tool_override : Option (List String)
  pub toolbox_expansion : Option (List String)
  pub strict_tools : Bool
  pub tool_selection_source : String

-- `cloneStrings`
unfoldable pub clone_strings : Option (List String) → Option (List String)
clone_strings none = none
clone_strings (some []) = none
clone_strings (some (x ∷ xs)) = some (x ∷ xs)

-- `applyTurnPolicy`
unfoldable pub apply_turn_policy : TurnPolicy → RunConfig → RunConfig
apply_turn_policy p cfg =
    let denied = dedupe_strings (cfg.denied_tools ++ p.denied_tools) in
    if not (active p)
    then record cfg { denied_tools = denied; turn_policy_active = p.require_cortex }
    else record {
      denied_tools = denied;
      turn_policy_active = true;
      tool_override = clone_strings p.tools;
      toolbox_expansion = none;
      strict_tools = p.strict;
      tool_selection_source = p.source;
    }

unfoldable pub nonempty : List String → List String
nonempty [] = []
nonempty (n ∷ ns) = let rest = nonempty ns in if str_eq n "" then rest else n ∷ rest

-- `WithDeniedTools`: the denylist of the new context.
unfoldable pub with_denied_tools : (outer : List String) → List String → List String
with_denied_tools outer ns = elim (nonempty ns) [ [] ↦ outer | m ∷ ms ↦ m ∷ ms ]
