-- ===== src/FinalValidation/Ends.antt =====
-- The recursion of `validateGraphResult` ends: a call that repeats itself has used one more repair, and
-- a third repair is refused.
use blueship.FinalValidation.{FinalValidation, Store, World, completed}
use blueship.FinalValidation.Stages.{validate_graph_result, round, examine, finish, load}
use blueship.FinalValidation.Triples.{Ensures-map, >>=-Ensures, if-Ensures}
use blueship.Prelude.{ℕ, ◌+◌, zero, suc, ◌≤◌, String, ◌∙◌, ap, arith}
use blueship.FinalValidation.Returns.{
  IsReturn, Ends, IsLater, examine-Ends, IsWaitingAfter, IsRead, load-Ends,
}

module _ (w : World) where
  round-Ends :
      (body : String) (st : Store)
      → Ends
          (λ _ st'. (v : FinalValidation) × IsRead w body st v × IsLater w v st'.saved)
          (round w body st)
  unfolding round finish IsReturn
  round-Ends body st =
      let goal : Unit {0} → Store → Type 0 =
        λ _ st'. (v : FinalValidation) × IsRead w body st v × IsLater w v st'.saved in
      >>=-Ensures IsReturn (λ v _. IsRead w body st v) goal (load w body) _ st (load-Ends w body st)
        λ v st₁ read.
          if-Ensures IsReturn goal v.accepted (finish w completed v.safe_body "") (examine w v body)
            st₁ (λ _. tt)
            (λ _.
              Ensures-map IsReturn (λ _ st'. IsLater w v st'.saved) goal (examine w v body st₁)
                (λ _ st' later. (v, read, later)) (examine-Ends w v body st₁))

  first_round-Ends :
      (body : String) (st : Store) → Ends (λ _ st'. IsWaitingAfter w body 0 st') (round w body st)
  first_round-Ends body st =
      Ensures-map IsReturn _ (λ _ st'. IsWaitingAfter w body 0 st') (round w body st)
        (λ _ st' (v, read, later). (later.0.0 ∙ read.0, later.1, omega arith)) (round-Ends body st)

  next_round-Ends :
      (body : String) (n : ℕ) (st : Store)
      → IsWaitingAfter w body n st
      → Ends (λ _ st'. IsWaitingAfter w body (suc n) st' × (n ≤ 1)) (round w body st)
  next_round-Ends body n st waits =
      Ensures-map IsReturn _ (λ _ st'. IsWaitingAfter w body (suc n) st' × (n ≤ 1))
        (round w body st)
        (λ _ st' (v, read, later).
          let same = read.1 waits.0 in
          let repaired = later.0.1 (ap (λ x. x.repair_pending) same ∙ waits.1) in
          let count = ap (λ x. x.repair_attempts) same in
          (
            (later.0.0 ∙ read.0, later.1, omega (arith, repaired.1, count, waits.2)),
            omega (arith, repaired.2, count, waits.2),
          ))
        (round-Ends body st)

  waiting-Ends :
      (fuel n : ℕ) (body : String) (st : Store)
      → IsWaitingAfter w body n st
      → 1 ≤ fuel
      → 3 ≤ n + fuel
      → Ends (λ _ _. ⊥) (validate_graph_result w fuel body st)
  unfolding validate_graph_result
  waiting-Ends zero n body st waits some_fuel enough = absurd (omega (arith, some_fuel))
  waiting-Ends (suc fuel) n body st waits some_fuel enough =
      >>=-Ensures IsReturn (λ _ st'. IsWaitingAfter w body (suc n) st' × (n ≤ 1)) (λ _ _. ⊥)
        (round w body) (λ _. validate_graph_result w fuel body) st (next_round-Ends body n st waits)
        (λ _ st' next.
          waiting-Ends fuel (suc n) body st' next.0 (omega (arith, next.1, enough))
            (omega (arith, enough)))

  -- Whatever the record in the database, validateGraphResult returns by one of its own returns, and
  -- calls itself at most three times.
  pub validate_graph_result-Ends :
      (fuel : ℕ) (body : String) (st : Store)
      → 4 ≤ fuel
      → Ends (λ _ _. ⊥) (validate_graph_result w fuel body st)
  unfolding validate_graph_result
  validate_graph_result-Ends zero body st enough = absurd (omega (arith, enough))
  validate_graph_result-Ends (suc fuel) body st enough =
      >>=-Ensures IsReturn (λ _ st'. IsWaitingAfter w body 0 st') (λ _ _. ⊥) (round w body)
        (λ _. validate_graph_result w fuel body) st (first_round-Ends body st)
        (λ _ st' waits.
          waiting-Ends fuel 0 body st' waits (omega (arith, enough)) (omega (arith, enough)))
