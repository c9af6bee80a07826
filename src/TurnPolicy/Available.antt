-- ===== src/TurnPolicy/Available.antt =====
-- A policy that acts uses available tools only (internal/gateway/turn_policy.go).
use blueship.Prelude.{
  true≢false, String, true, false, not, ◌&&◌, ◌||◌, Option, none, some, List, [], ◌∷◌, ◌++◌, ◌≡◌,
  ◌≢◌, ◌⊎◌, inl, inr, refl, sym, ◌∙◌, arith, contains, contains-append, eq_iff, Bool-cases,
  Option-cases,
}
use blueship.ToolRegistry.{ToolDefinition, ToolRegistry, definitions_for_names, is_wildcard}
use blueship.TurnPolicy.{
  TurnPolicy, TurnPolicyRequest, active, dedupe, dedupe_strings, first_missing, required,
  known_mode, quiet, demand, normalize_turn_policy, backing, wildcards, peers_of,
  available_tool_names, fail_closed_soul_tool_policy, resolve_turn_policy, tools_of, names,
}

dedupe-contains :
    (seen xs : List String) (k : String)
    → k ≢ ""
    → contains (dedupe seen xs) k ≡ (contains xs k && not (contains seen k))
unfolding dedupe contains
dedupe-contains seen [] k n = refl
dedupe-contains seen (x ∷ xs) k n =
    ground (
      arith,
      dedupe-contains seen xs k n,
      dedupe-contains (x ∷ seen) xs k n,
      eq_iff x "",
      eq_iff x k,
    )

pub dedupe_strings-contains :
    (xs : List String) (k : String) → k ≢ "" → contains (dedupe_strings xs) k ≡ contains xs k
unfolding dedupe_strings contains
dedupe_strings-contains xs k n = ground (arith, dedupe-contains [] xs k n)

none_missing :
    (available xs : List String) (k : String)
    → first_missing available xs ≡ none
    → contains xs k ≡ true
    → contains available k ≡ true
unfolding first_missing contains
none_missing available [] k h c = cc
none_missing available (x ∷ xs) k h c = ground (arith, none_missing available xs k, eq_iff x k)

-- Every tool that the policy needs, and that has a name, is available.
abbrev pub IsBacked : List String → TurnPolicy → Type 0
IsBacked available p =
    (k : String) → k ≢ "" → contains (required p) k ≡ true → contains available k ≡ true

demand-IsBacked :
    (p : TurnPolicy) (available : List String)
    → active (demand p available) ≡ true
    → IsBacked available (demand p available)
unfolding demand active
demand-IsBacked p available on =
    elim (Option-cases (first_missing available (dedupe_strings (required p)))) [
      | inl e ↦
          rw (e, demand)
            (λ k n c.
              none_missing available (dedupe_strings (required p)) k e
                (dedupe_strings-contains (required p) k n ∙ c))
      | inr (m, e) ↦ absurd (true≢false (sym (rw (e, demand) at on)))
    ]

quiet-active : (p : TurnPolicy) → active (quiet p) ≡ active p
unfolding active quiet
quiet-active p = refl

normalize-IsBacked :
    (p : TurnPolicy) (available : List String)
    → active (normalize_turn_policy p available) ≡ true
    → IsBacked available (normalize_turn_policy p available)
unfolding normalize_turn_policy
normalize-IsBacked p available on = elim (Bool-cases (active (known_mode p))) [
  | inl e ↦
      rw (e, normalize_turn_policy)
        (demand-IsBacked (known_mode p) available (rw (e, normalize_turn_policy) at on))
  | inr e ↦
      absurd
        (true≢false (sym (rw (e, normalize_turn_policy) at on) ∙ quiet-active (known_mode p) ∙ e))
]

module _ {H : Type 0} (registry : ToolRegistry H) where
  fail_closed-inactive : (p : TurnPolicy) → active (fail_closed_soul_tool_policy registry p) ≡ false
  unfolding active fail_closed_soul_tool_policy
  fail_closed-inactive p = refl

  -- A name that the soul allows, and a registered definition of the role carries; or a wildcard
  -- among the tools of the role.
  abbrev pub IsOffered : List String → Option (List String) → String → Type 0
  IsOffered base allowed k =
      ((contains (names (definitions_for_names registry base)) k ≡ true)
        × ((allowed ≡ none) ⊎ (contains (tools_of allowed) k ≡ true)))
      ⊎ ((is_wildcard k ≡ true) × (contains base k ≡ true))

  backing-contains :
      (ds : List ToolDefinition) (allowed : Option (List String)) (k : String)
      → contains (backing ds allowed) k ≡ true
      → (contains (names ds) k ≡ true) × ((allowed ≡ none) ⊎ (contains (tools_of allowed) k ≡ true))
  unfolding backing contains
  backing-contains [] allowed k h = cc
  backing-contains (d ∷ ds) none k h = ground (arith, backing-contains ds none k)
  backing-contains (d ∷ ds) (some xs) k h =
      ground (arith, backing-contains ds (some xs) k, eq_iff d.name k)

  wildcards-contains :
      (peers base : List String) (k : String)
      → contains (wildcards registry peers base) k ≡ true
      → (is_wildcard k ≡ true) × (contains base k ≡ true)
  unfolding wildcards contains
  wildcards-contains peers [] k h = cc
  wildcards-contains peers (n ∷ ns) k h = ground (arith, wildcards-contains peers ns k, eq_iff n k)

  available-IsOffered :
      (base : List String) (allowed : Option (List String)) (k : String)
      → k ≢ ""
      → contains (available_tool_names registry base allowed) k ≡ true
      → IsOffered base allowed k
  unfolding available_tool_names
  available-IsOffered base allowed k n h =
      let out = backing (definitions_for_names registry base) allowed in
      let wild = wildcards registry (peers_of registry out) base in
      let both : (contains out k || contains wild k) ≡ true =
        sym (contains-append out wild k) ∙ sym (dedupe_strings-contains (out ++ wild) k n) ∙ h in
      elim (Bool-cases (contains out k)) [
        | inl e ↦ inl (backing-contains (definitions_for_names registry base) allowed k e)
        | inr e ↦ inr (wildcards-contains (peers_of registry out) base k (rw e at both))
      ]

  -- Whatever policy the host resolves, if it acts on the turn then every tool that it selects or
  -- runs beforehand, and that has a name, is one that the role defines and the soul allows, or a
  -- wildcard of the role.
  pub resolve_turn_policy-IsOffered :
      (base : List String) (lookup : Option (Option (List String)))
      (resolver : Option (TurnPolicyRequest → TurnPolicy)) (facts : TurnPolicyRequest)
      → active (resolve_turn_policy registry base lookup resolver facts).0 ≡ true
      → (k : String) → k ≢ ""
      → contains (required (resolve_turn_policy registry base lookup resolver facts).0) k ≡ true
      → IsOffered base (resolve_turn_policy registry base lookup resolver facts).1 k
  unfolding resolve_turn_policy
  resolve_turn_policy-IsOffered base none none facts on k n c =
      absurd (true≢false (sym on ∙ fail_closed-inactive _))
  resolve_turn_policy-IsOffered base none (some f) facts on k n c =
      absurd (true≢false (sym on ∙ fail_closed-inactive _))
  resolve_turn_policy-IsOffered base (some a) none facts on k n c = absurd (unfold active in cc)
  resolve_turn_policy-IsOffered base (some a) (some f) facts on k n c =
      available-IsOffered base a k n
        (normalize-IsBacked _ (available_tool_names registry base a) on k n c)
