-- ===== src/Grounding/Examples.antt =====
-- Witnesses for the theorems about grounding audits, and tests.
use blueship.Grounding.{
  ClaimGrounding, GroundingVerdict, is_claim_type, is_claim_status, is_issue, strict_loop,
  strict_graph_grounding, repairable_loop, grounding_repairable, graph_grounding_repairable,
}
use blueship.Grounding.Strict.{IsSupported, strict_graph_grounding_iff}
use blueship.Prelude.{
  String, true, false, some, List, [], ◌∷◌, ◌<◌, ◌≡◌, ◌↔◌, refl, All, length, contains,
}

abbrev join : List ClaimGrounding → String
join [] = ""
join (c ∷ cs) = c.issue

abbrev a_claim : ClaimGrounding
a_claim = record { claim = "44"; claim_type = "numerical"; status = "grounded"; issue = "" }

abbrev a_guess : ClaimGrounding
a_guess = record a_claim { status = "partial"; issue = "a guess" }

abbrev an_audit : GroundingVerdict
an_audit = record { met = true; unavailable = false; reason = ""; claims = a_claim ∷ a_guess ∷ [] }

strict_audit : (strict_graph_grounding join an_audit).reason ≡ "a guess"
unfolding strict_graph_grounding strict_loop is_claim_type is_claim_status is_issue contains
strict_audit = refl

repair_audit : graph_grounding_repairable (some (strict_graph_grounding join an_audit)) ≡ true
unfolding graph_grounding_repairable grounding_repairable repairable_loop strict_graph_grounding
    strict_loop is_claim_type is_claim_status is_issue contains
repair_audit = refl

strict_graph_grounding_iff_example :
    ((strict_graph_grounding join an_audit).met ≡ true)
    ↔ ((an_audit.met ≡ true) × (0 < length an_audit.claims) × All IsSupported an_audit.claims)
strict_graph_grounding_iff_example = strict_graph_grounding_iff join an_audit
