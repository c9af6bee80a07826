-- ===== src/Grounding.antt =====
-- The rules on a grounding audit, in internal/agenttask/graph_grounding.go, and the verdicts that
-- they read (internal/agenttask/evaluator.go). An audit is a list of claims of a report, each with its
-- kind and how its sources support it. The text that joins the issues is a parameter.
pub mod Strict
pub mod Repairable
mod Examples
use blueship.Prelude.{
  ℕ, String, Bool, true, false, not, ◌&&◌, ◌||◌, Option, none, some, List, [], ◌∷◌, ◌++◌, length,
  ◌==◌, if◌then◌else◌, str_eq, contains,
}

pub record ClaimGrounding : Type 0 where
  pub claim : String
  pub claim_type : String
  pub status : String
  pub issue : String

pub record GroundingVerdict : Type 0 where
  pub met : Bool
  pub unavailable : Bool
  pub reason : String
  pub claims : List ClaimGrounding

pub record AcceptanceVerdict : Type 0 where
  pub retry_delay : ℕ
  pub met : Bool
  pub reason : String
  pub unavailable : Bool
  pub grounding : Option GroundingVerdict

-- The two `switch` statements.
unfoldable pub is_claim_type : String → Bool
is_claim_type t =
    contains ("attribution" ∷ "architectural" ∷ "numerical" ∷ "quote" ∷ "framing" ∷ []) t

unfoldable pub is_claim_status : String → Bool
is_claim_status s = contains ("grounded" ∷ "partial" ∷ "ungrounded" ∷ []) s

-- `c.ClaimType != "framing" && c.Status != "grounded"`
unfoldable pub is_issue : ClaimGrounding → Bool
is_issue c = not (str_eq c.claim_type "framing") && not (str_eq c.status "grounded")

abbrev pub unusable : String → GroundingVerdict → GroundingVerdict
unusable reason v = record v { met = false; unavailable = true; reason = reason }

module _ (join_issues : List ClaimGrounding → String) where
  -- The loop, with the issues so far.
  unfoldable pub strict_loop :
      GroundingVerdict → List ClaimGrounding → List ClaimGrounding → GroundingVerdict
  strict_loop v [] [] = v
  strict_loop v [] (i ∷ issues) = record v { met = false; reason = join_issues (i ∷ issues) }
  strict_loop v (c ∷ cs) issues =
      let rest = strict_loop v cs (if is_issue c then issues ++ c ∷ [] else issues) in
      if not (is_claim_type c.claim_type)
      then unusable "grounding audit returned an unknown claim type" v
      else if not (is_claim_status c.status)
      then unusable "grounding audit returned an unknown claim status" v
      else rest

  unfoldable pub strict_graph_grounding : GroundingVerdict → GroundingVerdict
  strict_graph_grounding v =
      let checked = strict_loop v v.claims [] in
      if length v.claims == 0 then unusable "grounding audit returned no claims" v else checked

-- The loop of `graphGroundingRepairable`, with its variable.
unfoldable pub repairable_loop : List ClaimGrounding → Bool → Bool
repairable_loop [] unsupported = unsupported
repairable_loop (c ∷ cs) unsupported =
    let rest = repairable_loop cs (unsupported || not (str_eq c.status "grounded")) in
    if is_claim_type c.claim_type && is_claim_status c.status then rest else false

unfoldable pub grounding_repairable : GroundingVerdict → Bool
grounding_repairable v =
    let loop = repairable_loop v.claims false in
    if v.unavailable
    then false
    else if v.met
    then true
    else if length v.claims == 0
    then false
    else loop

unfoldable pub graph_grounding_repairable : Option GroundingVerdict → Bool
graph_grounding_repairable none = true
graph_grounding_repairable (some v) = grounding_repairable v
