-- ===== src/ToolRegistry/Evidence.antt =====
-- Read-only tools and the registry that is left when external research has closed: `MarkReadOnly`,
-- `RegisterEvidenceReader` and `EvidenceOnlySubset` (internal/core/registry.go). A nil handler is
-- `none`. The loops over a map keep the order of its list.
use blueship.Prelude.{
  String, Bool, true, false, not, ◌&&◌, ◌||◌, Option, none, some, List, [], ◌∷◌, ◌≡◌, ◌⊎◌, arith,
  eq_iff, if◌then◌else◌,
}
use blueship.Graph.Nodes.{find}
use blueship.ToolRegistry.{RegisteredTool, ToolRegistry, name_of, put, has, handler_by_name}

module _ {H : Type 0} where
  unfoldable pub all_known : ToolRegistry H → List String → Bool
  all_known r [] = true
  all_known r (n ∷ ns) = has r n && all_known r ns

  abbrev mark : Option (RegisteredTool H) → List (RegisteredTool H) → List (RegisteredTool H)
  mark none ts = ts
  mark (some t) ts = put (record t { read_only = true }) ts

  unfoldable pub mark_all : List String → List (RegisteredTool H) → List (RegisteredTool H)
  mark_all [] ts = ts
  mark_all (n ∷ ns) ts = mark_all ns (mark (find name_of ts n) ts)

  -- `MarkReadOnly`; false is its error.
  unfoldable pub mark_read_only : List String → ToolRegistry H → ToolRegistry H × Bool
  mark_read_only ns r =
      if all_known r ns then (record r { tools = mark_all ns r.tools }, true) else (r, false)

  -- `IsReadOnly`
  unfoldable pub is_read_only : ToolRegistry H → String → Bool
  is_read_only r n = elim (find name_of r.tools n) [ none ↦ false | some t ↦ t.read_only ]

  -- `RegisterEvidenceReader`; false is its error.
  unfoldable pub register_evidence_reader :
      String → Option H → ToolRegistry H → ToolRegistry H × Bool
  register_evidence_reader n handler r = elim (find name_of r.tools n) [
    | none ↦ (r, false)
    | some t ↦ elim handler [
      | none ↦ (r, false)
      | some h ↦
          if not t.read_only || t.remote
          then (r, false)
          else (record r { tools = put (record t { evidence_reader = some h }) r.tools }, true)
    ]
  ]

  unfoldable pub evidence_tools : List (RegisteredTool H) → List (RegisteredTool H)
  evidence_tools [] = []
  evidence_tools (t ∷ ts) =
      let rest = evidence_tools ts in
      elim t.evidence_reader [
        | none ↦ rest
        | some h ↦ if t.read_only && not t.remote then record t { handler = h } ∷ rest else rest
      ]

  -- `EvidenceOnlySubset`
  unfoldable pub evidence_only_subset : ToolRegistry H → ToolRegistry H
  evidence_only_subset r = record { tools = evidence_tools r.tools; remote_by_peer = [] }

  -- A local read-only tool of that name with that reader.
  abbrev pub IsReader : List (RegisteredTool H) → String → H → Type 0
  IsReader [] n h = ⊥
  IsReader (t ∷ ts) n h =
      ((name_of t ≡ n) × (t.read_only ≡ true) × (t.remote ≡ false) × (t.evidence_reader ≡ some h))
      ⊎ IsReader ts n h

  abbrev handler_in : List (RegisteredTool H) → String → Option H
  handler_in ts n = elim (find name_of ts n) [ none ↦ none | some t ↦ some t.handler ]

  evidence_tools-IsReader :
      (ts : List (RegisteredTool H)) (n : String) (h : H)
      → handler_in (evidence_tools ts) n ≡ some h
      → IsReader ts n h
  unfolding evidence_tools find
  evidence_tools-IsReader [] n h e = cc
  evidence_tools-IsReader (t ∷ ts) n h e =
      ground (arith, evidence_tools-IsReader ts n h, eq_iff (name_of t) n)

  -- Every handler that the evidence-only registry resolves is the evidence reader of a local
  -- read-only tool of that name: neither an ordinary handler nor a peer's is reachable.
  pub evidence_only_subset-IsReader :
      (r : ToolRegistry H) (n : String) (h : H)
      → handler_by_name (evidence_only_subset r) n ≡ some h
      → IsReader r.tools n h
  unfolding handler_by_name evidence_only_subset
  evidence_only_subset-IsReader r n h e = evidence_tools-IsReader r.tools n h e
