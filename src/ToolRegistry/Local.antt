-- ===== src/ToolRegistry/Local.antt =====
-- A local registration owns its name (`RegisterRemote` of internal/core/registry.go).
use blueship.Prelude.{
  String, true, false, Option, none, some, List, [], ◌∷◌, ◌≡◌, inl, inr, refl, sym, ◌∙◌, ap, arith,
  str_eq, eq_iff, Bool-cases, Option-cases, if◌then◌else◌,
}
use blueship.Graph.Nodes.{find}
use blueship.ToolRegistry.Lookup.{find-name}
use blueship.ToolRegistry.{
  RegisteredTool, ToolRegistry, name_of, put, register, register_remote, expose, handler_by_name,
  owned_locally, local_tool, remote_tool,
}

-- What peers and the exposure of tools do to a registry after the ship's own registrations.
pub data Change (H : Type 0) : Type 0 where
  remote : (name description schema mode peer : String) → H → Change H
  exposing : (name mode : String) → Change H

module _ {H : Type 0} where
  unfoldable pub change : Change H → ToolRegistry H → ToolRegistry H
  change (remote name description schema mode peer h) r =
      register_remote name description schema mode peer h r
  change (exposing name mode) r = (expose name mode r).0

  unfoldable pub changes : List (Change H) → ToolRegistry H → ToolRegistry H
  unfolding change
  changes [] r = r
  changes (c ∷ cs) r = changes cs (change c r)

  find-put :
      (t : RegisteredTool H) (ts : List (RegisteredTool H)) (k : String)
      → find name_of (put t ts) k ≡ (if str_eq (name_of t) k then some t else find name_of ts k)
  unfolding find put
  find-put t [] k = refl
  find-put t (u ∷ ts) k = ground (
    arith,
    find-put t ts k,
    eq_iff (name_of u) (name_of t),
    eq_iff (name_of u) k,
    eq_iff (name_of t) k,
  )

  -- The name is held by a local tool with that handler.
  record Owned (name : String) (h : H) (r : ToolRegistry H) : Type 0 where
    tool : RegisteredTool H
    found : find name_of r.tools name ≡ some tool
    is_local : tool.remote ≡ false
    handler : tool.handler ≡ h

  register-Owned :
      (name description schema : String) (h : H) (r : ToolRegistry H)
      → Owned name h (register name description schema h r)
  unfolding register
  register-Owned name description schema h r = record {
    tool = local_tool name description schema h;
    found =
        find-put (local_tool name description schema h) r.tools name
        ∙ ground (arith, eq_iff name name);
    is_local = refl;
    handler = refl;
  }

  -- A name that is not held by a local tool is another one.
  other_name :
      (name : String) (h : H) (n : String) (r : ToolRegistry H)
      → Owned name h r
      → owned_locally r n ≡ false
      → str_eq n name ≡ false
  unfolding owned_locally
  other_name name h n r o free = elim (Bool-cases (str_eq n name)) [
    | inr e ↦ e
    | inl e ↦
        let same : find name_of r.tools n ≡ some o.tool =
          ap (find name_of r.tools) ((eq_iff n name).0 e) ∙ o.found in
        absurd (ground (arith, same, o.is_local))
  ]

  expose-some :
      (n mode : String) (r : ToolRegistry H) {t : RegisteredTool H}
      → find name_of r.tools n ≡ some t
      → (expose n mode r).0.tools ≡ put (record t { exposed = true; mode = mode }) r.tools
  unfolding expose
  expose-some n mode r e = rw (e, expose) refl

  expose-none :
      (n mode : String) (r : ToolRegistry H)
      → find name_of r.tools n ≡ none
      → (expose n mode r).0.tools ≡ r.tools
  unfolding expose
  expose-none n mode r e = rw (e, expose) refl

  same_tool :
      {o : Option (RegisteredTool H)} {t u : RegisteredTool H} → o ≡ some t → o ≡ some u → t ≡ u
  same_tool p q = cc

  expose-Owned :
      (name : String) (h : H) (n mode : String) (r : ToolRegistry H)
      → Owned name h r
      → Owned name h (expose n mode r).0
  expose-Owned name h n mode r o = elim (Option-cases (find name_of r.tools n)) [
    | inl e ↦ record {
      tool = o.tool;
      found = ap (λ ts. find name_of ts name) (expose-none n mode r e) ∙ o.found;
      is_local = o.is_local;
      handler = o.handler;
    }
    | inr (t, e) ↦
        let t' : RegisteredTool H = record t { exposed = true; mode = mode } in
        let at : find name_of (expose n mode r).0.tools name
            ≡ (if str_eq (name_of t) name then some t' else find name_of r.tools name) =
          ap (λ ts. find name_of ts name) (expose-some n mode r e) ∙ find-put t' r.tools name in
        elim (Bool-cases (str_eq (name_of t) name)) [
          | inr differs ↦ record {
            tool = o.tool;
            found = at ∙ rw differs o.found;
            is_local = o.is_local;
            handler = o.handler;
          }
          | inl same ↦
              let name_is : n ≡ name =
                sym (find-name r.tools n e) ∙ (eq_iff (name_of t) name).0 same in
              let tool_is : t ≡ o.tool =
                same_tool (ap (find name_of r.tools) (sym name_is) ∙ e) o.found in
              record {
                tool = t';
                found = at ∙ rw same refl;
                is_local = ap (λ u. u.remote) tool_is ∙ o.is_local;
                handler = ap (λ u. u.handler) tool_is ∙ o.handler;
              }
        ]
  ]

  change-Owned :
      (name : String) (h : H) (c : Change H) (r : ToolRegistry H)
      → Owned name h r
      → Owned name h (change c r)
  unfolding change
  change-Owned name h (remote n description schema mode peer g) r o =
      let rt = remote_tool n description schema mode peer g in
      record {
        tool = o.tool;
        found = elim (Bool-cases (owned_locally r n)) [
          | inl mine ↦ unfold register_remote in rw mine o.found
          | inr free ↦
              unfold register_remote in
              rw free (find-put rt r.tools name ∙ rw (other_name name h n r o free) o.found)
        ];
        is_local = o.is_local;
        handler = o.handler;
      }
  change-Owned name h (exposing n mode) r o = expose-Owned name h n mode r o

  changes-Owned :
      (name : String) (h : H) (cs : List (Change H)) (r : ToolRegistry H)
      → Owned name h r
      → Owned name h (changes cs r)
  unfolding changes
  changes-Owned name h [] r o = o
  changes-Owned name h (c ∷ cs) r o =
      changes-Owned name h cs (change c r) (change-Owned name h c r o)

  -- After a ship has registered a tool itself, no registration of a peer and no exposure, in any
  -- number and order, changes which handler the name is resolved to.
  pub register-kept :
      (name description schema : String) (h : H) (r : ToolRegistry H) (cs : List (Change H))
      → handler_by_name (changes cs (register name description schema h r)) name ≡ some h
  unfolding handler_by_name
  register-kept name description schema h r cs =
      let o = changes-Owned name h cs _ (register-Owned name description schema h r) in
      rw (o.found, handler_by_name) (ground (arith, o.handler))
