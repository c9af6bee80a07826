-- ===== src/StepStore/Safety.antt =====
-- What every schedule of store operations keeps.
use blueship.Prelude.{
  true≢false, ℕ, ◌≤◌, String, Bool, true, false, List, [], ◌∷◌, ◌≡◌, ◌≢◌, inl, inr, refl, sym, ◌∙◌,
  All, Bool-cases, arith, if◌then◌else◌,
}
use blueship.StepStore.{
  Status, Row, Db, is_pending, is_done, is_running, update, needs_reconciliation,
}
use blueship.StepStore.Ops.{is_active, claimable, claim_row}
use blueship.StepStore.Schedule.{Op, apply, run_ops}
use blueship.StepStore.Invariant.{Apart, Exclusive, IsSound, Inv, update-Inv}
use blueship.StepStore.Claims.{claim-Inv}
use blueship.StepStore.Careful.{Careful}
use blueship.StepStore.Changes.{Change, same, careful, claimed, apply-Change}

-- A plan as it is inserted: pending steps with no attempts, under different ids.

abbrev pub IsNew : List Row → Type 0
IsNew [] = Unit
IsNew (r ∷ rs) =
    (r.status ≡ Status.pending) × (r.attempts ≡ 0) × All (λ s. r.id ≢ s.id) rs × IsNew rs

Change-Inv : (rows rows' : List Row) → Change rows rows' → Inv rows → Inv rows'
Change-Inv rows rows' (same e) h = rw e h
Change-Inv rows rows' (careful hit change c e) h = rw e (update-Inv hit change c.tame rows h)
Change-Inv rows rows' (claimed now id run lease e) h = rw e (claim-Inv now id run lease rows h)

run_ops-Inv : (ops : List Op) (db : Db) → Inv db.steps → Inv (run_ops ops db).steps
unfolding run_ops
run_ops-Inv [] db h = h
run_ops-Inv (op ∷ ops) db h =
    run_ops-Inv ops (apply op db) (Change-Inv db.steps _ (apply-Change op db) h)

new-Apart :
    (r : Row) (rows : List Row)
    → r.status ≡ Status.pending
    → All (λ s. r.id ≢ s.id) rows
    → All (Apart r) rows
unfolding is_active
new-Apart r [] e h = tt
new-Apart r (s ∷ rows) e h = ((h.0, λ p q. absurd (ground arith)), new-Apart r rows e h.1)

IsNew-Exclusive : (rows : List Row) → IsNew rows → Exclusive rows
IsNew-Exclusive [] h = tt
IsNew-Exclusive (r ∷ rows) (new, _, differ, rest) =
    (new-Apart r rows new differ, IsNew-Exclusive rows rest)

IsNew-IsSound : (all rows : List Row) → IsNew rows → All (IsSound all) rows
IsNew-IsSound all [] h = tt
IsNew-IsSound all (r ∷ rows) (new, none_yet, _, rest) = (
  record { ready = λ p. absurd (unfold is_pending in ground (arith, p)); budget = omega arith },
  IsNew-IsSound all rows rest,
)

-- Whatever the workers and coordinators do with a new plan: two active steps are both reads, a step
-- that left `pending` has its dependencies done, and no step exceeds its attempts.
pub run_ops-safe : (ops : List Op) (db : Db) → IsNew db.steps → Inv (run_ops ops db).steps
run_ops-safe ops db h =
    run_ops-Inv ops db
      (record { exclusive = IsNew-Exclusive db.steps h; sound = IsNew-IsSound db.steps db.steps h })

-- One operation's effect on one row.
pub record Advance (r r' : Row) : Type 0 where
  pub id : r'.id ≡ r.id
  pub final : is_done r.status ≡ true → r' ≡ r
  pub no_replay :
      is_running r.status ≡ true → needs_reconciliation r ≡ true → is_pending r'.status ≡ false
  pub no_return :
      is_running r.status ≡ false → is_pending r.status ≡ false → is_pending r'.status ≡ false
  pub no_start :
      is_running r.status ≡ false → is_pending r.status ≡ false → is_running r'.status ≡ false
  pub attempts : r.attempts ≤ r'.attempts

abbrev pub Each : (Row → Row → Type 0) → List Row → List Row → Type 0
Each R [] [] = Unit
Each R (r ∷ rs) (s ∷ ss) = R r s × Each R rs ss
Each R _ _ = ⊥

Each-refl : (R : Row → Row → Type 0) (rows : List Row) → ((r : Row) → R r r) → Each R rows rows
Each-refl R [] h = tt
Each-refl R (r ∷ rows) h = (h r, Each-refl R rows h)

Each-update :
    (R : Row → Row → Type 0) (hit : Row → Bool) (change : Row → Row) (rows : List Row)
    → ((r : Row) → R r (if hit r then change r else r))
    → Each R rows (update hit change rows)
unfolding update
Each-update R hit change [] h = tt
Each-update R hit change (r ∷ rows) h = (h r, Each-update R hit change rows h)

Each-trans :
    (R : Row → Row → Type 0)
    → ((a b c : Row) → R a b → R b c → R a c)
    → (xs ys zs : List Row) → Each R xs ys
    → Each R ys zs
    → Each R xs zs
Each-trans R t [] [] [] h k = tt
Each-trans R t (x ∷ xs) (y ∷ ys) (z ∷ zs) h k = (t x y z h.0 k.0, Each-trans R t xs ys zs h.1 k.1)
Each-trans R t [] (y ∷ ys) zs h k = absurd h
Each-trans R t (x ∷ xs) [] zs h k = absurd h
Each-trans R t [] [] (z ∷ zs) h k = absurd k
Each-trans R t (x ∷ xs) (y ∷ ys) [] h k = absurd k

Advance-refl : (r : Row) → Advance r r
unfolding is_running is_pending
Advance-refl r = record {
  id = refl;
  final = λ h. refl;
  no_replay = λ h u. ground arith;
  no_return = λ h p. p;
  no_start = λ h p. h;
  attempts = omega arith;
}

Careful-Advance :
    (hit : Row → Bool) (change : Row → Row)
    → Careful hit change
    → (r : Row) → Advance r (if hit r then change r else r)
Careful-Advance hit change c r = elim (Bool-cases (hit r)) [
  | inl x ↦ rw x (record {
    id = c.tame.keeps.id r;
    final = λ d. absurd (ground (arith, c.unfinished r x));
    no_replay = λ on u. elim (Bool-cases (is_pending (change r).status)) [
      | inl p ↦ absurd (true≢false (sym u ∙ c.no_replay r x on p))
      | inr f ↦ f
    ];
    no_return = λ off p. c.no_retry r x off;
    no_start = λ off p. c.no_start r x off;
    attempts = omega (arith, c.tame.attempts r);
  })
  | inr x ↦ rw x (Advance-refl r)
]

hit_pending :
    (now : ℕ) (id : String) (rows : List Row) (r : Row)
    → claimable now id rows r ≡ true
    → r.status ≡ Status.pending
unfolding claimable is_pending
hit_pending now id rows r h = ground arith

claim-Advance :
    (now : ℕ) (id : String) (run lease : ℕ) (rows : List Row) (r : Row)
    → Advance r (if claimable now id rows r then claim_row now run lease r else r)
claim-Advance now id run lease rows r = elim (Bool-cases (claimable now id rows r)) [
  | inl x ↦ rw x (start (hit_pending now id rows r x))
  | inr x ↦ rw x (Advance-refl r)
]
  where
    start : r.status ≡ Status.pending → Advance r (claim_row now run lease r)
    start e = record {
      id = unfold claim_row in refl;
      final = λ d. absurd (unfold is_done in ground (arith, e));
      no_replay = λ on u. absurd (unfold is_running in ground (arith, e));
      no_return = λ off p. absurd (unfold is_pending in ground (arith, e));
      no_start = λ off p. absurd (unfold is_pending in ground (arith, e));
      attempts = unfold claim_row in omega arith;
    }

-- One operation never touches a finished step, never makes an uncertain external effect pending
-- again, never makes a step that has stopped (one that is neither pending nor running) pending or
-- running again, and never takes an attempt back.
pub apply-Advance : (op : Op) (db : Db) → Each Advance db.steps (apply op db).steps
apply-Advance op db = of_change db.steps _ (apply-Change op db)
  where
    of_change : (rows rows' : List Row) → Change rows rows' → Each Advance rows rows'
    of_change rows rows' (same e) = rw e (Each-refl Advance rows Advance-refl)
    of_change rows rows' (careful hit change c e) =
        rw e (Each-update Advance hit change rows (Careful-Advance hit change c))
    of_change rows rows' (claimed now id run lease e) =
        rw e (Each-update Advance _ _ rows (claim-Advance now id run lease rows))

abbrev pub Final : Row → Row → Type 0
Final r r' = is_done r.status ≡ true → r' ≡ r

Final-trans : (a b c : Row) → Final a b → Final b c → Final a c
Final-trans a b c h k d = let e = h d in k (rw e d) ∙ e

Each-map :
    {R S : Row → Row → Type 0} (rows rows' : List Row)
    → ((r r' : Row) → R r r' → S r r')
    → Each R rows rows'
    → Each S rows rows'
Each-map [] [] f h = tt
Each-map (r ∷ rows) (r' ∷ rows') f h = (f r r' h.0, Each-map rows rows' f h.1)
Each-map [] (r' ∷ rows') f h = absurd h
Each-map (r ∷ rows) [] f h = absurd h

-- A finished step keeps its result, and every other column, for ever.
pub run_ops-Final : (ops : List Op) (db : Db) → Each Final db.steps (run_ops ops db).steps
unfolding run_ops
run_ops-Final [] db = Each-refl Final db.steps (λ r d. refl)
run_ops-Final (op ∷ ops) db =
    Each-trans Final Final-trans db.steps (apply op db).steps (run_ops ops (apply op db)).steps
      (Each-map db.steps _ (λ r r' a. a.final) (apply-Advance op db))
      (run_ops-Final ops (apply op db))
