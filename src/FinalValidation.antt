-- ===== src/FinalValidation.antt =====
-- The validation of the final report of a graph task: `validateGraphResult` of
-- internal/agenttask/graph_validation.go. The function runs in a monad that either goes on or has
-- returned; its state is the validation record that the database keeps, with the history of all the
-- records saved. What lies outside answers by functions of that history, since every such call
-- follows another save: the clock (in milliseconds), the writes of the store (fenced, so they may be
-- refused), the repairer, the output guard and the reviewer. The recursion takes fuel.
pub mod Stages
pub mod Triples
pub mod Sound
pub mod Repairs
pub mod Reviews
pub mod Safe
pub mod Returns
pub mod Ends
mod Examples
use blueship.Grounding.{AcceptanceVerdict}
use blueship.Prelude.{
  ℕ, zero, suc, ◌+◌, ◌*◌, max, String, Bool, true, false, not, ◌&&◌, ◌||◌, ◌⊎◌, inl, inr, Option,
  none, some, List, [], ◌∷◌, ◌++◌, leb, ltb, if◌then◌else◌, str_eq, is_blank,
}

pub record FinalValidation : Type 0 where
  pub repair_pending : Bool
  pub repair_attempts : ℕ
  pub repair_body : String
  pub verdict : Option AcceptanceVerdict
  pub candidate_hash : String
  pub attempts : ℕ
  pub response_checked : Bool
  pub accepted : Bool
  pub safe_body : String
  pub last_checked_body : String
  pub reason : String

-- Go's zero value.
abbrev pub no_validation : FinalValidation
no_validation = record {
  repair_pending = false;
  repair_attempts = 0;
  repair_body = "";
  verdict = none;
  candidate_hash = "";
  attempts = 0;
  response_checked = false;
  accepted = false;
  safe_body = "";
  last_checked_body = "";
  reason = "";
}

unfoldable pub checked_body : FinalValidation → String
checked_body v =
    if v.response_checked && not (is_blank v.safe_body) then v.safe_body else v.last_checked_body

pub record Store : Type 0 where
  pub saved : FinalValidation
  pub history : List FinalValidation

-- A failed call, with the delay that `TaskRetryPolicy` gives its error, or a text.
abbrev pub Answer : Type 0
Answer = ℕ ⊎ String

pub record World : Type 0 where
  -- whether `Get` succeeds and the progress can be decoded
  pub get_ok : List FinalValidation → Bool
  pub save_ok : List FinalValidation → FinalValidation → Bool
  pub now : List FinalValidation → ℕ
  pub hash : String → String
  -- `core.TaskStopDeadline(task)`
  pub stop : Option ℕ
  -- the checkpoints of the steps that are done, and the receipts and traces that one holds
  pub checkpoints : List String
  pub decode : String → Option (List String × List String)
  pub marshal : List String → Option String
  -- `RepairGraphResult(SafeBody, Reason)`, if the handler has it
  pub repairer : Option (List FinalValidation → String → String → Answer)
  -- `ResponseValidator` on the text and the receipts
  pub validator : Option (List FinalValidation → String → List String → Answer)
  -- `evaluateAcceptanceWithPrior` on the text, the traces and the verdict before
  pub review : List FinalValidation → String → String → Option AcceptanceVerdict → AcceptanceVerdict

pub data Status : Type 0 where
  completed partial : Status

-- How the function returns: by `finishGraph`, by `YieldGraphTask` or with an error.
pub data Outcome : Type 0 where
  finished : Status → String → String → Outcome
  yielded : ℕ → Outcome
  failed : Outcome
  out_of_fuel : Outcome

pub data Flow (A : Type 0) : Type 0 where
  running : A → Store → Flow A
  returned : Outcome → Store → Flow A

abbrev pub M : Type 0 → Type 0
M A = Store → Flow A

infixl 5 ◌>>=◌ ◌>>◌
unfoldable pub ◌>>=◌ : {A B : Type 0} → M A → (A → M B) → M B
◌>>=◌ m f st = elim (m st) [ running a st' ↦ f a st' | returned o st' ↦ returned o st' ]

abbrev pub ◌>>◌ : {A B : Type 0} → M A → M B → M B
m >> k = m >>= λ _. k

abbrev pub pure : {A : Type 0} → A → M A
pure a st = running a st

abbrev pub exit : {A : Type 0} → Outcome → M A
exit o st = returned o st
