-- ===== src/StepStore/Save.antt =====
-- `SaveTaskSteps` (internal/core/task_steps.go): a plan becomes rows. The columns that no write reads
-- are left out; the CHECK on the kind is the failure of `kind_of`, and those on the other columns
-- repeat what the validation has tested.
use blueship.Prelude.Int.{ℤ, pos, negsuc}
use blueship.Prelude.{
  ℕ, zero, suc, String, Bool, false, not, Option, none, some, List, [], ◌∷◌, ◌++◌, ◌≡◌, ◌≢◌, ◌⊎◌,
  refl, sym, inl, inr, All, ap, subst, Bool-cases, Option-cases, arith, if◌then◌else◌, str_eq,
  eq_iff,
}
use blueship.TaskSteps.{TaskStep, validate_task_steps}
use blueship.StepStore.{
  Kind, Status, Row, Db, absent, Checkpoint, Error, Result, ok, err, claim_lost, step_exists,
  invalid_kind, invalid_plan, find_row,
}
use blueship.StepStore.Ops.{lock_task_execution}
use blueship.StepStore.Invariant.{Inv}
use blueship.StepStore.Schedule.{Op, run_ops}
use blueship.StepStore.Safety.{IsNew, run_ops-safe}

abbrev no_checkpoint : Checkpoint
no_checkpoint = record {
  candidate_ready = absent;
  phase = absent;
  output = absent;
  last_candidate = absent;
  pending_tool = absent;
  rest = "";
}

unfoldable pub kind_of : String → Option Kind
kind_of k =
    if str_eq k "read"
    then some Kind.read
    else if str_eq k "action"
    then some Kind.action
    else if str_eq k "finalize"
    then some Kind.finalize
    else none

-- A budget of no attempts is one of three.
abbrev attempts_of : ℤ → ℕ
attempts_of (pos zero) = 3
attempts_of (pos (suc n)) = suc n
attempts_of (negsuc n) = 0

unfoldable pub new_row : ℕ → Kind → TaskStep → Row
new_row now kind s = record {
  id = s.id;
  kind = kind;
  tools = s.tools;
  dependencies = s.dependencies;
  status = Status.pending;
  result = "";
  checkpoint = no_checkpoint;
  next_attempt_at = now;
  last_error = "";
  attempts = 0;
  max_attempts = attempts_of s.max_attempts;
  run_id = none;
  lease_until = none;
  heartbeat_at = none;
  started_at = none;
  completed_at = none;
  progress_at = none;
}

abbrev with_id : String → Row → Bool
with_id k r = str_eq r.id k

-- One INSERT, which the primary key may refuse.
unfoldable pub insert_step : ℕ → TaskStep → List Row → Result (List Row)
insert_step now s rows = elim (kind_of s.kind) [
  | none ↦ err invalid_kind
  | some kind ↦ elim (find_row (with_id s.id) rows) [
    | some r ↦ err step_exists
    | none ↦ ok (rows ++ new_row now kind s ∷ [])
  ]
]

unfoldable pub insert_steps : ℕ → List TaskStep → List Row → Result (List Row)
insert_steps now [] rows = ok rows
insert_steps now (s ∷ ss) rows = elim (insert_step now s rows) [
  | err e ↦ err e
  | ok rows' ↦ insert_steps now ss rows'
]

-- `SaveTaskSteps`; `keys` is the order of the range in the validation.
unfoldable pub save_task_steps :
    (keys : List String) → ℕ → Option ℕ → (claim : ℕ) → List TaskStep → Db → Db × Result Unit
save_task_steps keys now ctx_run claim steps db = elim (validate_task_steps keys steps) [
  | some e ↦ (db, err (invalid_plan e))
  | none ↦
      if not (lock_task_execution now ctx_run (some claim) false db)
      then (db, err claim_lost)
      else elim (insert_steps now steps db.steps) [
        | err e ↦ (db, err e)
        | ok rows ↦ (record db { steps = rows }, ok tt)
      ]
]

some≢none : {r : Row} → some r ≡ none → ⊥
some≢none h = cc

find_row-none :
    (k : String) (rows : List Row) → find_row (with_id k) rows ≡ none → All (λ r. r.id ≢ k) rows
unfolding find_row
find_row-none k [] h = tt
find_row-none k (r ∷ rows) h = elim (Bool-cases (str_eq r.id k)) [
  | inl e ↦ absurd (some≢none (rw (e, find_row) at h))
  | inr e ↦ (
    (λ same. absurd (ground (arith, eq_iff r.id k))),
    find_row-none k rows (rw (e, find_row) at h),
  )
]

All-snoc :
    (P : Row → Type 0) (rows : List Row) (r : Row) → All P rows → P r → All P (rows ++ r ∷ [])
All-snoc P [] r h p = (p, tt)
All-snoc P (s ∷ rows) r h p = (h.0, All-snoc P rows r h.1 p)

IsNew-snoc :
    (now : ℕ) (kind : Kind) (s : TaskStep) (rows : List Row)
    → IsNew rows
    → All (λ r. r.id ≢ s.id) rows
    → IsNew (rows ++ new_row now kind s ∷ [])
unfolding new_row
IsNew-snoc now kind s [] h d = (refl, refl, tt, tt)
IsNew-snoc now kind s (r ∷ rows) (new, zero_yet, apart, rest) (differs, d) = (
  new,
  zero_yet,
  All-snoc (λ t. r.id ≢ t.id) rows (new_row now kind s) apart differs,
  IsNew-snoc now kind s rows rest d,
)

ok-eq : {A : Type 0} {x y : A} → ok x ≡ ok y → x ≡ y
ok-eq h = cc

err≢ok : {A : Type 0} {e : Error} {x : A} → err e ≡ ok x → ⊥
err≢ok h = cc

insert_step-IsNew :
    (now : ℕ) (s : TaskStep) (rows : List Row) {rows' : List Row}
    → insert_step now s rows ≡ ok rows'
    → IsNew rows
    → IsNew rows'
unfolding insert_step
insert_step-IsNew now s rows h n = elim (Option-cases (kind_of s.kind)) [
  | inl e ↦ absurd (err≢ok (rw (e, insert_step) at h))
  | inr (kind, e) ↦ elim (Option-cases (find_row (with_id s.id) rows)) [
    | inr (r, f) ↦ absurd (err≢ok (rw (e, f, insert_step) at h))
    | inl f ↦
        subst IsNew (ok-eq (rw (e, f, insert_step) at h))
          (IsNew-snoc now kind s rows n (find_row-none s.id rows f))
  ]
]

Result-cases : {A : Type 0} (r : Result A) → ((e : Error) × (r ≡ err e)) ⊎ ((x : A) × (r ≡ ok x))
Result-cases (err e) = inl (e, refl)
Result-cases (ok x) = inr (x, refl)

insert_steps-IsNew :
    (now : ℕ) (ss : List TaskStep) (rows : List Row) {rows' : List Row}
    → insert_steps now ss rows ≡ ok rows'
    → IsNew rows
    → IsNew rows'
unfolding insert_steps
insert_steps-IsNew now [] rows h n = subst IsNew (ok-eq h) n
insert_steps-IsNew now (s ∷ ss) rows {rows'} h n = elim (Result-cases (insert_step now s rows)) [
  | inl (e, f) ↦ absurd (err≢ok (rw (f, insert_steps) at h))
  | inr (mid, f) ↦
      insert_steps-IsNew now ss mid {rows' = rows'} (rw (f, insert_steps) at h)
        (insert_step-IsNew now s rows f n)
]

failed : {d d' : Db} {e : Error} → ◌≡◌ {A = Db × Result Unit} (d, err e) (d', ok tt) → ⊥
failed h = err≢ok {A = Unit} {x = tt} (ap (λ o. o.1) h)

save-IsNew :
    (keys : List String) (now : ℕ) (ctx_run : Option ℕ) (claim : ℕ) (steps : List TaskStep)
    (db db' : Db)
    → db.steps ≡ []
    → save_task_steps keys now ctx_run claim steps db ≡ (db', ok tt)
    → IsNew db'.steps
unfolding save_task_steps
save-IsNew keys now ctx_run claim steps db db' fresh h =
    elim (Option-cases (validate_task_steps keys steps)) [
      | inr (e, f) ↦ absurd (failed (rw (f, save_task_steps) at h))
      | inl f ↦ elim (Bool-cases (lock_task_execution now ctx_run (some claim) false db)) [
        | inr g ↦ absurd (failed (rw (f, g, save_task_steps) at h))
        | inl g ↦ elim (Result-cases (insert_steps now steps db.steps)) [
          | inl (e, i) ↦ absurd (failed (rw (f, g, i, save_task_steps) at h))
          | inr (rows, i) ↦
              subst IsNew (ap (λ o. o.0.steps) (rw (f, g, i, save_task_steps) at h))
                (insert_steps-IsNew now steps db.steps i (subst IsNew (sym fresh) tt))
        ]
      ]
    ]

-- A plan that `SaveTaskSteps` has stored for a task without steps is worked on safely: whatever the
-- workers and coordinators do after it, two active steps are both reads, a step that left `pending` has
-- its dependencies done, and no step exceeds its attempts.
pub save_task_steps-safe :
    (keys : List String) (now : ℕ) (ctx_run : Option ℕ) (claim : ℕ) (steps : List TaskStep)
    (db db' : Db)
    → db.steps ≡ []
    → save_task_steps keys now ctx_run claim steps db ≡ (db', ok tt)
    → (ops : List Op) → Inv (run_ops ops db').steps
save_task_steps-safe keys now ctx_run claim steps db db' fresh h ops =
    run_ops-safe ops db' (save-IsNew keys now ctx_run claim steps db db' fresh h)
