-- ===== src/TaskSteps/Plan.antt =====
-- `ValidateTaskSteps` against an independent description of a plan.
use blueship.Prelude.{
  true≢false, ℕ, suc, ◌≤◌, String, true, false, none, some, List, [], ◌∷◌, ◌++◌, ◌≡◌, ◌≢◌, ◌↔◌, inl,
  inr, refl, sym, ◌∙◌, ap, length, arith, All, contains, Bool-cases, Option-cases, ltb, ◌==◌, ◌||◌,
}
use blueship.Graph.{Marks, Outcome, done, fault, out_of_fuel, blank, walk_all}
use blueship.Graph.Order.{Distinct}
use blueship.Graph.Ranked.{IsRanked}
use blueship.Graph.Total.{walk_all_ends}
use blueship.Graph.Decide.{done_iff}
use blueship.TaskSteps.{
  key, inputs, TaskStep, PlanError, plan_size, admit, err, collect, of_walk, validate_task_steps,
}
use blueship.Graph.Nodes.{
  ids, deps_of, deps_of-known, IsPlaced, IsPlaced-IsRanked, IsRanked-IsPlaced, contains-All,
}
use blueship.TaskSteps.Fields.{IsFilled, Admitted, collect-cases}

pub record IsPlan (steps : List TaskStep) : Type 0 where
  pub size_min : 1 ≤ length steps
  pub size_max : length steps ≤ 64
  pub filled : All IsFilled steps
  pub distinct : Distinct [] (ids key steps)
  pub rank : String → ℕ
  pub placed : All (IsPlaced key inputs true steps rank) steps

-- The keys of the map, each as often as the range yields it.
abbrev pub IsRange : List String → List TaskStep → Type 0
IsRange keys steps = (k : String) → contains keys k ≡ contains (ids key steps) k

err-eq : {e f : PlanError} → err e ≡ err f → e ≡ f
err-eq h = cc

some-eq : {e f : PlanError} → some e ≡ some f → e ≡ f
some-eq h = cc

plan_size≢ : some plan_size ≡ some PlanError.out_of_fuel → ⊥
plan_size≢ h = cc

some≢none : {e : PlanError} → some e ≡ none → ⊥
some≢none h = cc

of_walk-none : (r : Outcome) → of_walk r ≡ none → (m : Marks) × (r ≡ done m)
of_walk-none (done m) h = (m, refl)
of_walk-none (fault f) h = cc
of_walk-none out_of_fuel h = cc

size_iff : (n : ℕ) → ((n == 0 || ltb 64 n) ≡ false) ↔ ((1 ≤ n) × (n ≤ 64))
size_iff n = ground arith

module _ (keys : List String) (steps : List TaskStep) (range : IsRange keys steps) where
  abbrev walked : Outcome
  walked = walk_all true (deps_of key inputs steps) (suc (length keys)) keys blank

  validate_cases : (validate_task_steps keys steps ≡ none) ↔ (
      (1 ≤ length steps)
      × (length steps ≤ 64)
      × Admitted [] steps
      × (m : Marks) × (walked ≡ done m))
  unfolding validate_task_steps
  validate_cases = elim (Bool-cases (length steps == 0 || ltb 64 (length steps))) [
    | inl bad ↦ (
      λ h. absurd (some≢none (rw bad at h)),
      λ (low, high, _, _, _).
          absurd (true≢false (sym bad ∙ (size_iff (length steps)).1 (low, high))),
    )
    | inr fine ↦
        let (low, high) = (size_iff (length steps)).0 fine in
        elim (collect-cases [] [] steps (λ k. refl)) [
          | inl (admitted, e) ↦ (
            λ h.
                let (m, r) = of_walk-none walked (rw (fine, e) at h) in (low, high, admitted, m, r),
            λ (_, _, _, m, r). rw (fine, e, r) refl,
          )
          | inr (fails, f, e) ↦ (
            λ h. absurd (some≢none (rw (fine, e) at h)),
            λ (_, _, admitted, _, _). absurd (fails admitted),
          )
        ]
  ]

  walked_iff :
      ((m : Marks) × (walked ≡ done m))
      ↔ ((rank : String → ℕ) × IsRanked true (deps_of key inputs steps) rank)
  walked_iff =
      done_iff true (deps_of key inputs steps) keys
        (λ x ds e. range x ∙ (deps_of-known key inputs steps x).0 (λ n. cc)) (suc (length keys))
        (omega arith)
        (contains-All keys (λ k h. (deps_of-known key inputs steps k).1 (sym (range k) ∙ h)))

  -- `ValidateTaskSteps` returns no error exactly for the plans, in whatever order the map is ranged
  -- over.
  pub validate_task_steps_iff : (validate_task_steps keys steps ≡ none) ↔ IsPlan steps
  validate_task_steps_iff = (
    λ h.
        let (low, high, (filled, distinct), m, e) = validate_cases.0 h in
        let (rank, ranked) = walked_iff.0 (m, e) in
        record {
          size_min = low;
          size_max = high;
          filled = filled;
          distinct = distinct;
          rank = rank;
          placed = IsRanked-IsPlaced key inputs true steps rank distinct ranked;
        },
    λ p.
        let (m, e) =
          walked_iff.1 (p.rank, IsPlaced-IsRanked key inputs true steps p.rank p.placed) in
        validate_cases.1 (p.size_min, p.size_max, (p.filled, p.distinct), m, e),
  )

admit-ne-out_of_fuel :
    (by_id : List TaskStep) (s : TaskStep) → admit by_id s ≢ some PlanError.out_of_fuel
unfolding admit
admit-ne-out_of_fuel by_id s h = ground arith

collect-ne-out_of_fuel : (by_id ss : List TaskStep) → collect by_id ss ≢ err PlanError.out_of_fuel
unfolding collect
collect-ne-out_of_fuel by_id [] h = cc
collect-ne-out_of_fuel by_id (s ∷ ss) h = elim (Option-cases (admit by_id s)) [
  | inl e ↦ collect-ne-out_of_fuel (by_id ++ s ∷ []) ss (rw (e, collect) at h)
  | inr (f, e) ↦ admit-ne-out_of_fuel by_id s (e ∙ ap some (err-eq (rw (e, collect) at h)))
]

of_walk-ne-out_of_fuel : (r : Outcome) → r ≢ out_of_fuel → of_walk r ≢ some PlanError.out_of_fuel
of_walk-ne-out_of_fuel (done m) n h = cc
of_walk-ne-out_of_fuel (fault f) n h = cc
of_walk-ne-out_of_fuel out_of_fuel n h = n refl

-- The validation of any plan ends: its recursion over the dependencies never runs out of fuel.
pub validate_task_steps_ends :
    (keys : List String) (steps : List TaskStep)
    → IsRange keys steps
    → validate_task_steps keys steps ≢ some PlanError.out_of_fuel
unfolding validate_task_steps
validate_task_steps_ends keys steps range h =
    elim (Bool-cases (length steps == 0 || ltb 64 (length steps))) [
      | inl bad ↦ plan_size≢ (rw (bad, validate_task_steps) at h)
      | inr fine ↦ elim (collect-cases [] [] steps (λ k. refl)) [
        | inl (admitted, e) ↦
            of_walk-ne-out_of_fuel (walked keys steps range)
              (walk_all_ends true (deps_of key inputs steps) keys
                (λ x ds e. range x ∙ (deps_of-known key inputs steps x).0 (λ n. cc))
                (suc (length keys)) keys blank refl (omega arith))
              (rw (fine, e, validate_task_steps) at h)
        | inr (fails, f, e) ↦
            collect-ne-out_of_fuel [] steps
              (e ∙ ap err (some-eq (rw (fine, e, validate_task_steps) at h)))
      ]
    ]
