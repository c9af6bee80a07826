-- ===== src/Workflow/Valid.antt =====
-- `Validate` against an independent description of a workflow.
use blueship.Prelude.Int.{ℤ, pos, negsuc, lt_nat, nat_lt}
use blueship.Prelude.{
  true≢false, ℕ, zero, suc, ◌≤◌, String, true, false, ◌||◌, Option, none, some, List, [], ◌∷◌, ◌++◌,
  ◌≡◌, ◌≢◌, ◌↔◌, ◌⊎◌, inl, inr, refl, sym, ◌∙◌, ap, length, str_eq, arith, All, contains,
  append_assoc, append-nil, eq_iff, Bool-cases, Option-cases, ltb, ◌==◌,
}
use blueship.Graph.{Marks, Outcome, done, fault, blank, walk_all}
use blueship.Graph
use blueship.Graph.Order.{Distinct}
use blueship.Graph.Ranked.{IsRanked}
use blueship.Graph.Decide.{done_iff}
use blueship.Graph.Nodes.{
  ids, find, deps_of, deps_of-known, IsPlaced, IsPlaced-IsRanked, IsRanked-IsPlaced, contains-All,
  SameKeys, SameKeys-snoc,
}
use blueship.Workflow.{
  Node, WorkflowError, stage_count, out_of_fuel, key, inputs, is_taken, admit, ok, err, collect,
  descendants, bad_retry, check_retries, of_walk, validate,
}
use blueship.Workflow.Passes.{Invalidates}
use blueship.Workflow.Closure.{descendants_iff, length-map}

pub record IsStage (n : Node) : Type 0 where
  pub named : n.id ≢ ""
  pub attempts : (k : ℕ) × (n.max_attempts ≡ pos (suc k)) × (suc k ≤ 100)

abbrev pub Retries : List Node → Node → Type 0
Retries nodes n = (n.retry_from ≡ "") ⊎ Invalidates nodes n.retry_from n.id

-- One to a hundred stages with distinct names and bounded attempts, whose dependencies are stages
-- and fall along a rank, and each of which restarts from itself or an ancestor.
pub record IsWorkflow (nodes : List Node) : Type 0 where
  pub size_min : 1 ≤ length nodes
  pub size_max : length nodes ≤ 100
  pub stages : All IsStage nodes
  pub distinct : Distinct [] (ids key nodes)
  pub rank : String → ℕ
  pub placed : All (IsPlaced key inputs false nodes rank) nodes
  pub retries : All (Retries nodes) nodes

pub err-eq : {e f : WorkflowError} → err e ≡ err f → e ≡ f
err-eq h = cc

pub some-eq : {e f : WorkflowError} → some e ≡ some f → e ≡ f
some-eq h = cc

pub stage_count≢ : some stage_count ≡ some out_of_fuel → ⊥
stage_count≢ h = cc

some≢none : {e : WorkflowError} → some e ≡ none → ⊥
some≢none h = cc

is_taken-contains :
    (by_id : List Node) (k : String) → k ≢ "" → is_taken by_id k ≡ contains (ids key by_id) k
unfolding is_taken find contains
is_taken-contains [] k h = refl
is_taken-contains (n ∷ by_id) k h =
    ground (arith, is_taken-contains by_id k h, eq_iff n.id k, eq_iff n.id "")

attempts_iff :
    (z : ℤ) → ((lt_nat z 1 || nat_lt 100 z) ≡ false) ↔ ((k : ℕ) × (z ≡ pos (suc k)) × (suc k ≤ 100))
attempts_iff (pos zero) = (λ h. cc, λ (m, e, h). ground arith)
attempts_iff (pos (suc n)) = (λ h. (n, refl, ground arith), λ (m, e, h). ground arith)
attempts_iff (negsuc n) = (λ h. cc, λ (m, e, h). cc)

admit_iff :
    (by_id : List Node) (n : Node)
    → (admit by_id n ≡ none) ↔ (
        (str_eq n.id "" ≡ false)
        × (is_taken by_id n.id ≡ false)
        × ((lt_nat n.max_attempts 1 || nat_lt 100 n.max_attempts) ≡ false))
unfolding admit
admit_iff by_id n = (λ h. (ground arith, ground arith, ground arith), λ (a, b, c). ground arith)

admit-none :
    (by_id : List Node) (n : Node)
    → (admit by_id n ≡ none) ↔ (IsStage n × (contains (ids key by_id) n.id ≡ false))
admit-none by_id n = (
  λ h.
      let (named, free, range) = (admit_iff by_id n).0 h in
      let named' : n.id ≢ "" = ground (arith, eq_iff n.id "", named) in
      (
        record { named = named'; attempts = (attempts_iff n.max_attempts).0 range },
        sym (is_taken-contains by_id n.id named') ∙ free,
      ),
  λ (stage, new). (admit_iff by_id n).1 (
    ground (arith, eq_iff n.id "", stage.named),
    is_taken-contains by_id n.id stage.named ∙ new,
    (attempts_iff n.max_attempts).1 stage.attempts,
  ),
)

abbrev Admitted : List String → List Node → Type 0
Admitted seen ns = All IsStage ns × Distinct seen (ids key ns)

pub collect-cases :
    (seen : List String) (by_id ns : List Node)
    → SameKeys key seen by_id
    → (Admitted seen ns × (collect by_id ns ≡ ok (by_id ++ ns)))
      ⊎ ((¬ Admitted seen ns) × (e : WorkflowError) × (collect by_id ns ≡ err e))
unfolding collect
collect-cases seen by_id [] same = inl ((tt, tt), rw append-nil)
collect-cases seen by_id (n ∷ ns) same = elim (Option-cases (admit by_id n)) [
  | inl fine ↦
      let (stage, new) = (admit-none by_id n).0 fine in
      elim (collect-cases (n.id ∷ seen) (by_id ++ n ∷ []) ns
        (SameKeys-snoc key seen by_id n same)) [
          | inl ((all, distinct), e) ↦ inl (
            ((stage, all), (same n.id ∙ new, distinct)),
            rw (fine, collect) (e ∙ ap ok (append_assoc by_id (n ∷ []) ns)),
          )
          | inr (fails, e, h) ↦
              inr (λ (all, distinct). fails (all.1, distinct.1), e, rw (fine, collect) h)
        ]
  | inr (e, bad) ↦ inr (
    λ (all, distinct).
        some≢none (sym bad ∙ (admit-none by_id n).1 (all.0, sym (same n.id) ∙ distinct.0)),
    e,
    rw (bad, collect) refl,
  )
]

retry_found :
    (nodes : List Node) (n : Node) (r : List String)
    → str_eq n.retry_from "" ≡ false
    → descendants nodes n.retry_from ≡ some r
    → bad_retry nodes n ≡ none
    → contains r n.id ≡ true
unfolding bad_retry
retry_found nodes n r given found h = ground arith

bad_retry-none : (nodes : List Node) (n : Node) → (bad_retry nodes n ≡ none) ↔ Retries nodes n
unfolding bad_retry
bad_retry-none nodes n =
    let (r, found, iff) = descendants_iff nodes n.retry_from in
    elim (Bool-cases (str_eq n.retry_from "")) [
      | inl none_given ↦
          (λ h. inl ((eq_iff n.retry_from "").0 none_given), λ h. rw (none_given, bad_retry) refl)
      | inr given ↦ (
        λ h. inr ((iff n.id).0 (retry_found nodes n r given found h)),
        λ h. elim h [
          | inl e ↦ absurd (ground (arith, eq_iff n.retry_from ""))
          | inr inv ↦ rw (given, found, (iff n.id).1 inv, bad_retry) refl
        ],
      )
    ]

check_retries-none :
    (nodes ns : List Node) → (check_retries nodes ns ≡ none) ↔ All (Retries nodes) ns
unfolding check_retries
check_retries-none nodes [] = (λ h. tt, λ h. refl)
check_retries-none nodes (n ∷ ns) =
    let head = bad_retry-none nodes n in
    let rest = check_retries-none nodes ns in
    elim (Option-cases (bad_retry nodes n)) [
      | inl e ↦ (
        λ h. (head.0 e, rest.0 (rw (e, check_retries) at h)),
        λ (a, b). rw (e, check_retries) (rest.1 b),
      )
      | inr (f, e) ↦ (
        λ h. absurd (some≢none (rw (e, check_retries) at h)),
        λ (a, b). absurd (some≢none (sym e ∙ head.1 a)),
      )
    ]

size_iff : (n : ℕ) → ((n == 0 || ltb 100 n) ≡ false) ↔ ((1 ≤ n) × (n ≤ 100))
size_iff n = ground arith

of_walk-done :
    (r : Outcome) (rest : Option WorkflowError)
    → of_walk r rest ≡ none
    → ((m : Marks) × (r ≡ done m)) × (rest ≡ none)
of_walk-done (done m) rest h = ((m, refl), h)
of_walk-done (fault f) rest h = cc
of_walk-done Graph.out_of_fuel rest h = cc

module _ (nodes : List Node) where
  abbrev pub walked : Outcome
  walked = walk_all false (deps_of key inputs nodes) (suc (length nodes)) (ids key nodes) blank

  validate_walk :
      (length nodes == 0 || ltb 100 (length nodes)) ≡ false
      → collect [] nodes ≡ ok nodes
      → (validate nodes ≡ none)
        ↔ (((m : Marks) × (walked ≡ done m)) × (check_retries nodes nodes ≡ none))
  unfolding validate
  validate_walk size all = (
    λ h. of_walk-done walked (check_retries nodes nodes) (rw (size, all, validate) at h),
    λ ((m, e), c). rw (size, all, validate) (rw e c),
  )

  walked_iff :
      ((m : Marks) × (walked ≡ done m))
      ↔ ((rank : String → ℕ) × IsRanked false (deps_of key inputs nodes) rank)
  walked_iff =
      done_iff false (deps_of key inputs nodes) (ids key nodes)
        (λ x ds e. (deps_of-known key inputs nodes x).0 (λ n. cc)) (suc (length nodes))
        (omega (arith, length-map key nodes))
        (contains-All (ids key nodes) (λ k h. (deps_of-known key inputs nodes k).1 h))

  -- `Validate` returns no error exactly for the workflows.
  pub validate_iff : (validate nodes ≡ none) ↔ IsWorkflow nodes
  unfolding validate
  validate_iff = elim (Bool-cases (length nodes == 0 || ltb 100 (length nodes))) [
    | inl bad ↦ (
      λ h. absurd (some≢none (rw (bad, validate) at h)),
      λ w. absurd (true≢false (sym bad ∙ (size_iff (length nodes)).1 (w.size_min, w.size_max))),
    )
    | inr size ↦ elim (collect-cases [] [] nodes (λ k. refl)) [
      | inr (fails, e, bad) ↦ (
        λ h. absurd (some≢none (rw (size, bad, validate) at h)),
        λ w. absurd (fails (w.stages, w.distinct)),
      )
      | inl ((stages, distinct), all) ↦ (
        λ h.
            let (low, high) = (size_iff (length nodes)).0 size in
            let (walk, retries) = (validate_walk size all).0 h in
            let (rank, ranked) = walked_iff.0 walk in
            record {
              size_min = low;
              size_max = high;
              stages = stages;
              distinct = distinct;
              rank = rank;
              placed = IsRanked-IsPlaced key inputs false nodes rank distinct ranked;
              retries = (check_retries-none nodes nodes).0 retries;
            },
        λ w. (validate_walk size all).1 (
          walked_iff.1 (w.rank, IsPlaced-IsRanked key inputs false nodes w.rank w.placed),
          (check_retries-none nodes nodes).1 w.retries,
        ),
      )
    ]
  ]
