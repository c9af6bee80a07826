-- ===== src/Workflow/Ends.antt =====
-- `Validate` ends: the walk has fuel for every graph.
use blueship.Prelude.{
  suc, false, ◌||◌, Option, some, List, [], ◌∷◌, ◌++◌, ◌≢◌, inl, inr, refl, ◌∙◌, ap, length, arith,
  Bool-cases, Option-cases, ltb, ◌==◌,
}
use blueship.Graph.{Marks, Outcome, done, fault, blank, walk_all}
use blueship.Graph
use blueship.Graph.Total.{walk_all_ends}
use blueship.Graph.Nodes.{ids, deps_of, deps_of-known}
use blueship.Workflow.{
  Node, WorkflowError, out_of_fuel, key, inputs, admit, err, collect, bad_retry, check_retries,
  of_walk, validate,
}
use blueship.Workflow.Closure.{descendants_iff, length-map}
use blueship.Workflow.Valid.{stage_count≢, walked, some-eq, collect-cases, err-eq}

admit-ne-out_of_fuel : (by_id : List Node) (n : Node) → admit by_id n ≢ some out_of_fuel
unfolding admit
admit-ne-out_of_fuel by_id n h = ground arith

collect-ne-out_of_fuel : (by_id ns : List Node) → collect by_id ns ≢ err out_of_fuel
unfolding collect
collect-ne-out_of_fuel by_id [] h = cc
collect-ne-out_of_fuel by_id (n ∷ ns) h = elim (Option-cases (admit by_id n)) [
  | inl e ↦ collect-ne-out_of_fuel (by_id ++ n ∷ []) ns (rw (e, collect) at h)
  | inr (f, e) ↦ admit-ne-out_of_fuel by_id n (e ∙ ap some (err-eq (rw (e, collect) at h)))
]

bad_retry-ne-out_of_fuel : (nodes : List Node) (n : Node) → bad_retry nodes n ≢ some out_of_fuel
unfolding bad_retry
bad_retry-ne-out_of_fuel nodes n h =
    let (r, found, iff) = descendants_iff nodes n.retry_from in ground (arith, found)

check_retries-ne-out_of_fuel : (nodes ns : List Node) → check_retries nodes ns ≢ some out_of_fuel
unfolding check_retries
check_retries-ne-out_of_fuel nodes [] h = cc
check_retries-ne-out_of_fuel nodes (n ∷ ns) h = elim (Option-cases (bad_retry nodes n)) [
  | inl e ↦ check_retries-ne-out_of_fuel nodes ns (rw (e, check_retries) at h)
  | inr (f, e) ↦
      bad_retry-ne-out_of_fuel nodes n (e ∙ ap some (some-eq (rw (e, check_retries) at h)))
]

of_walk-ne-out_of_fuel :
    (r : Outcome) (rest : Option WorkflowError)
    → r ≢ Graph.out_of_fuel
    → rest ≢ some out_of_fuel
    → of_walk r rest ≢ some out_of_fuel
of_walk-ne-out_of_fuel (done m) rest n k h = k h
of_walk-ne-out_of_fuel (fault f) rest n k h = cc
of_walk-ne-out_of_fuel Graph.out_of_fuel rest n k h = n refl

-- The validation of any list of stages ends: neither its recursion over the dependencies nor a
-- search for descendants runs out of fuel.
pub validate_ends : (nodes : List Node) → validate nodes ≢ some out_of_fuel
unfolding validate
validate_ends nodes h = elim (Bool-cases (length nodes == 0 || ltb 100 (length nodes))) [
  | inl bad ↦ absurd (stage_count≢ (rw (bad, validate) at h))
  | inr size ↦ elim (collect-cases [] [] nodes (λ k. refl)) [
    | inr (fails, e, bad) ↦
        collect-ne-out_of_fuel [] nodes (bad ∙ ap err (some-eq (rw (size, bad, validate) at h)))
    | inl (good, all) ↦
        of_walk-ne-out_of_fuel (walked nodes) (check_retries nodes nodes)
          (walk_all_ends false (deps_of key inputs nodes) (ids key nodes)
            (λ x ds e. (deps_of-known key inputs nodes x).0 (λ n. cc)) (suc (length nodes))
            (ids key nodes) blank refl (omega (arith, length-map key nodes)))
          (check_retries-ne-out_of_fuel nodes nodes) (rw (size, all, validate) at h)
  ]
]
