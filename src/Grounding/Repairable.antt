-- ===== src/Grounding/Repairable.antt =====
-- What `graphGroundingRepairable` answers on an audit that the strict rule has judged
-- (internal/agenttask/graph_grounding.go).
use blueship.Grounding.{
  ClaimGrounding, GroundingVerdict, is_issue, strict_loop, strict_graph_grounding, repairable_loop,
  grounding_repairable, graph_grounding_repairable, unusable,
}
use blueship.Grounding.Strict.{is_empty}
use blueship.Prelude.{
  String, ◌==◌, Bool, true, false, not, ◌||◌, ◌⊎◌, inl, inr, some, List, [], ◌∷◌, ◌++◌, ◌≡◌, refl,
  sym, ap, subst, ◌∙◌, if◌then◌else◌, str_eq, Bool-cases, true≢false, arith, length,
}

-- An issue means that some claim so far is not grounded.
IsNoted : List ClaimGrounding → Bool → Type 0
IsNoted issues unsupported = (is_empty issues ≡ false) → (unsupported ≡ true)

IsNoted-claim :
    (c : ClaimGrounding) (issues : List ClaimGrounding) (unsupported : Bool)
    → IsNoted issues unsupported
    → IsNoted
        (if is_issue c then issues ++ c ∷ [] else issues)
        (unsupported || not (str_eq c.status "grounded"))
unfolding IsNoted is_issue
IsNoted-claim c issues unsupported h left = ground (arith, h, left)

-- The audit is unusable, or it is met or has a claim that is not grounded.
IsJudged : GroundingVerdict → Bool → Type 0
IsJudged r unsupported =
    (r.unavailable ≡ true) ⊎ ((r.unavailable ≡ false) × ((r.met ≡ true) ⊎ (unsupported ≡ true)))

judged-repairable :
    (r : GroundingVerdict)
    → (length r.claims == 0) ≡ false
    → IsJudged r (repairable_loop r.claims false)
    → grounding_repairable r ≡ not r.unavailable
unfolding grounding_repairable IsJudged
judged-repairable r claims h = ground (arith, h, claims)

unusable-repairable :
    (v : GroundingVerdict) (reason : String) → grounding_repairable (unusable reason v) ≡ false
unfolding grounding_repairable
unusable-repairable v reason = refl

module _ (join_issues : List ClaimGrounding → String) where
  loop-claims :
      (v : GroundingVerdict) (cs issues : List ClaimGrounding)
      → (strict_loop join_issues v cs issues).claims ≡ v.claims
  unfolding strict_loop
  loop-claims v [] [] = refl
  loop-claims v [] (i ∷ issues) = refl
  loop-claims v (c ∷ cs) issues =
      ground (arith, loop-claims v cs (if is_issue c then issues ++ c ∷ [] else issues))

  claim-IsJudged :
      (v : GroundingVerdict) (c : ClaimGrounding) (cs issues : List ClaimGrounding)
      (unsupported : Bool)
      → IsJudged
          (strict_loop join_issues v cs (if is_issue c then issues ++ c ∷ [] else issues))
          (repairable_loop cs (unsupported || not (str_eq c.status "grounded")))
      → IsJudged (strict_loop join_issues v (c ∷ cs) issues) (repairable_loop (c ∷ cs) unsupported)
  unfolding strict_loop repairable_loop IsJudged
  claim-IsJudged v c cs issues unsupported h = ground (arith, h)

  loop-IsJudged :
      (v : GroundingVerdict) (cs issues : List ClaimGrounding) (unsupported : Bool)
      → v.met ≡ true
      → v.unavailable ≡ false
      → IsNoted issues unsupported
      → IsJudged (strict_loop join_issues v cs issues) (repairable_loop cs unsupported)
  unfolding IsJudged IsNoted strict_loop repairable_loop is_empty
  loop-IsJudged v [] [] unsupported met usable noted = inr (usable, inl met)
  loop-IsJudged v [] (i ∷ issues) unsupported met usable noted = inr (usable, inr (noted refl))
  loop-IsJudged v (c ∷ cs) issues unsupported met usable noted =
      claim-IsJudged v c cs issues unsupported (
        loop-IsJudged v cs (if is_issue c then issues ++ c ∷ [] else issues)
          (unsupported || not (str_eq c.status "grounded")) met usable
          (IsNoted-claim c issues unsupported noted))

  usable_claims-IsJudged :
      (v : GroundingVerdict)
      → v.met ≡ true
      → v.unavailable ≡ false
      → IsJudged
          (strict_loop join_issues v v.claims [])
          (repairable_loop (strict_loop join_issues v v.claims []).claims false)
  unfolding IsNoted is_empty
  usable_claims-IsJudged v met usable =
      subst (λ cs. IsJudged (strict_loop join_issues v v.claims []) (repairable_loop cs false))
        (sym (loop-claims v v.claims []))
        (loop-IsJudged v v.claims [] false met usable (λ left. absurd (true≢false left)))

  -- graphGroundingRepairable accepts what the strict rule makes of a usable audit that was met,
  -- unless the strict rule has made the audit unavailable.
  strict-grounding_repairable :
      (v : GroundingVerdict)
      → v.met ≡ true
      → v.unavailable ≡ false
      → graph_grounding_repairable (some (strict_graph_grounding join_issues v))
        ≡ not (strict_graph_grounding join_issues v).unavailable
  unfolding graph_grounding_repairable strict_graph_grounding
  strict-grounding_repairable v met usable = elim (Bool-cases (length v.claims == 0)) [
    | inl no_claims ↦ rw no_claims (unusable-repairable v "grounding audit returned no claims")
    | inr claims ↦ rw claims (
        judged-repairable (strict_loop join_issues v v.claims [])
          (ap (λ cs. length cs == 0) (loop-claims v v.claims []) ∙ claims)
          (usable_claims-IsJudged v met usable))
  ]
