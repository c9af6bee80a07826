-- ===== src/TurnPolicy/Denied.antt =====
-- A turn whose tool policy could not be looked up calls no tool.
use Prim.Native.String.{◌++◌ as str_append}
use blueship.Prelude.{
  String, true, Option, none, some, List, [], ◌∷◌, ◌++◌, ◌≡◌, ◌≢◌, inl, refl, ◌∙◌, arith, contains,
  contains-append, eq_iff,
}
use blueship.ToolRegistry.{ToolRegistry, has, definitions, execute}
use blueship.ToolRegistry.Lookup.{definitions-has}
use blueship.TurnPolicy.{
  TurnPolicy, TurnPolicyRequest, RunConfig, names, fail_closed_soul_tool_policy,
  resolve_turn_policy, apply_turn_policy, with_denied_tools, nonempty,
}
use blueship.TurnPolicy.Available.{dedupe_strings-contains}

nonempty-contains :
    (ns : List String) (k : String) → k ≢ "" → contains (nonempty ns) k ≡ contains ns k
unfolding nonempty contains
nonempty-contains [] k n = refl
nonempty-contains (m ∷ ns) k n = ground (arith, nonempty-contains ns k n, eq_iff m "", eq_iff m k)

with_denied_tools-contains :
    (outer ns : List String) (k : String)
    → k ≢ ""
    → contains ns k ≡ true
    → contains (with_denied_tools outer ns) k ≡ true
unfolding with_denied_tools
with_denied_tools-contains outer ns k n c = of_names (nonempty ns) (nonempty-contains ns k n ∙ c)
  where
    of_names :
        (ms : List String)
        → contains ms k ≡ true
        → contains (elim ms [ [] ↦ outer | m ∷ ms ↦ m ∷ ms ]) k ≡ true
    of_names [] h = absurd (unfold contains in cc)
    of_names (m ∷ ms) h = h

module _ {H : Type 0} (registry : ToolRegistry H) where
  fail_closed-denies :
      (p : TurnPolicy) (k : String)
      → k ≢ ""
      → has registry k ≡ true
      → contains (fail_closed_soul_tool_policy registry p).denied_tools k ≡ true
  unfolding fail_closed_soul_tool_policy
  fail_closed-denies p k n h =
      dedupe_strings-contains (p.denied_tools ++ names (definitions registry)) k n
      ∙ contains-append p.denied_tools (names (definitions registry)) k
      ∙ ground (arith, definitions-has registry k)

  resolved-denies :
      (base : List String) (resolver : Option (TurnPolicyRequest → TurnPolicy))
      (facts : TurnPolicyRequest) (k : String)
      → k ≢ ""
      → has registry k ≡ true
      → contains (resolve_turn_policy registry base none resolver facts).0.denied_tools k ≡ true
  unfolding resolve_turn_policy
  resolved-denies base none facts k n h = fail_closed-denies _ k n h
  resolved-denies base (some f) facts k n h = fail_closed-denies _ k n h

  applied-denies :
      (p : TurnPolicy) (cfg : RunConfig) (k : String)
      → k ≢ ""
      → contains p.denied_tools k ≡ true
      → contains (apply_turn_policy p cfg).denied_tools k ≡ true
  unfolding apply_turn_policy
  applied-denies p cfg k n h = ground (
    arith,
    dedupe_strings-contains (cfg.denied_tools ++ p.denied_tools) k n,
    contains-append cfg.denied_tools p.denied_tools k,
  )

  -- When the soul's allowlist cannot be looked up, no registered tool whose name is not empty is
  -- executed in a run that carries the resolved policy, whatever the host resolves and whatever the
  -- run's configuration: every call is answered with the denial.
  pub failed_lookup-execute :
      (base : List String) (resolver : Option (TurnPolicyRequest → TurnPolicy))
      (facts : TurnPolicyRequest) (cfg : RunConfig) (outer : List String) (k : String)
      → k ≢ ""
      → has registry k ≡ true
      → execute registry
          (with_denied_tools outer
            (apply_turn_policy
              (resolve_turn_policy registry base none resolver facts).0
              cfg).denied_tools)
          k
        ≡ inl (str_append "tool denied for this turn: " k)
  unfolding execute
  failed_lookup-execute base resolver facts cfg outer k n h =
      rw
        (with_denied_tools-contains outer _ k n (
          applied-denies (resolve_turn_policy registry base none resolver facts).0 cfg k n
            (resolved-denies base resolver facts k n h)))
        refl
