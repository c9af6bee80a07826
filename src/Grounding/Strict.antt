-- ===== src/Grounding/Strict.antt =====
-- Which audits the strict rule of graph tasks leaves met.
use blueship.Grounding.{
  ClaimGrounding, GroundingVerdict, is_claim_type, is_claim_status, is_issue, strict_loop,
  strict_graph_grounding,
}
use blueship.Prelude.{
  String, Bool, true, false, ◌⊎◌, List, [], ◌∷◌, ◌++◌, ◌≡◌, ◌<◌, ◌↔◌, refl, sym, All, eq_iff,
  if◌then◌else◌, true≢false, arith, length,
}

-- A claim that is well-formed, and grounded unless it is framing.
unfoldable pub IsSupported : ClaimGrounding → Type 0
IsSupported c =
    (is_claim_type c.claim_type ≡ true)
    × (is_claim_status c.status ≡ true)
    × ((c.claim_type ≡ "framing") ⊎ (c.status ≡ "grounded"))

unfoldable pub is_empty : List ClaimGrounding → Bool
is_empty [] = true
is_empty (i ∷ issues) = false

pub is_empty-append :
    (issues : List ClaimGrounding) (c : ClaimGrounding) → is_empty (issues ++ c ∷ []) ≡ false
unfolding is_empty
is_empty-append [] c = refl
is_empty-append (i ∷ issues) c = refl

not_issue :
    (c : ClaimGrounding) → is_issue c ≡ false → (c.claim_type ≡ "framing") ⊎ (c.status ≡ "grounded")
unfolding is_issue
not_issue c h = ground (arith, eq_iff c.claim_type "framing", eq_iff c.status "grounded")

module _ (join_issues : List ClaimGrounding → String) where
  loop-claim :
      (v : GroundingVerdict) (c : ClaimGrounding) (cs issues : List ClaimGrounding)
      → (strict_loop join_issues v (c ∷ cs) issues).met ≡ true
      → (is_claim_type c.claim_type ≡ true)
        × (is_claim_status c.status ≡ true)
        × ((strict_loop join_issues v cs (if is_issue c then issues ++ c ∷ [] else issues)).met
            ≡ true)
  unfolding strict_loop
  loop-claim v c cs issues h = ground arith

  no_issue :
      (c : ClaimGrounding) (issues : List ClaimGrounding)
      → is_empty (if is_issue c then issues ++ c ∷ [] else issues) ≡ true
      → (is_issue c ≡ false) × (is_empty issues ≡ true)
  no_issue c issues h = ground (arith, is_empty-append issues c)

  loop-IsSupported :
      (v : GroundingVerdict) (cs issues : List ClaimGrounding)
      → (strict_loop join_issues v cs issues).met ≡ true
      → (v.met ≡ true) × (is_empty issues ≡ true) × All IsSupported cs
  unfolding strict_loop is_empty IsSupported
  loop-IsSupported v [] [] h = (h, refl, tt)
  loop-IsSupported v [] (i ∷ issues) h = absurd (true≢false (sym h))
  loop-IsSupported v (c ∷ cs) issues h =
      let (known_type, known_status, later) = loop-claim v c cs issues h in
      let (met, none_left, supported) =
        loop-IsSupported v cs (if is_issue c then issues ++ c ∷ [] else issues) later in
      let (fine, none_before) = no_issue c issues none_left in
      (met, none_before, ((known_type, known_status, not_issue c fine), supported))

  IsSupported-loop :
      (v : GroundingVerdict) (cs issues : List ClaimGrounding)
      → v.met ≡ true
      → is_empty issues ≡ true
      → All IsSupported cs
      → (strict_loop join_issues v cs issues).met ≡ true
  unfolding strict_loop is_empty IsSupported is_issue
  IsSupported-loop v [] [] m e s = m
  IsSupported-loop v [] (i ∷ issues) m e s = absurd (true≢false (sym e))
  IsSupported-loop v (c ∷ cs) issues m e s = ground (
    arith,
    IsSupported-loop v cs (if is_issue c then issues ++ c ∷ [] else issues),
    eq_iff c.claim_type "framing",
    eq_iff c.status "grounded",
  )

  -- The strict rule leaves an audit met exactly when it was met, it has at least one claim, and every
  -- claim has a known kind and a known status and is grounded or framing.
  pub strict_graph_grounding_iff :
      (v : GroundingVerdict)
      → ((strict_graph_grounding join_issues v).met ≡ true)
        ↔ ((v.met ≡ true) × (0 < length v.claims) × All IsSupported v.claims)
  unfolding strict_graph_grounding is_empty
  strict_graph_grounding_iff v = (
    λ h.
        let (some_claims, checked) = strict-loop v h in
        let (met, _, supported) = loop-IsSupported v v.claims [] checked in
        (met, some_claims, supported),
    λ (met, some_claims, supported).
        ground (arith, IsSupported-loop v v.claims [] met refl supported),
  )
    where
      strict-loop :
          (v : GroundingVerdict)
          → (strict_graph_grounding join_issues v).met ≡ true
          → (0 < length v.claims) × ((strict_loop join_issues v v.claims []).met ≡ true)
      strict-loop v h = ground arith
