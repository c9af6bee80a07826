-- ===== src/StepStore/Invariant.antt =====
-- What holds of the steps of a task whatever the workers do: no external effect runs beside
-- another step, no step starts before its dependencies are done, attempts stay in their budget.
use blueship.Prelude.{
  ◌≤◌, String, Bool, true, false, List, [], ◌∷◌, ◌≡◌, ◌≢◌, refl, sym, ◌∙◌, All, arith,
  if◌then◌else◌,
}
use blueship.StepStore.{Row, is_read, is_pending, is_done, update}
use blueship.StepStore.Ops.{is_active, is_done_step, all_done}

-- Two steps are different, and both are reads if both are active.
abbrev pub Apart : Row → Row → Type 0
Apart a b =
    (a.id ≢ b.id)
    × (is_active a.status ≡ true
        → is_active b.status ≡ true
        → (is_read a.kind ≡ true) × (is_read b.kind ≡ true))

abbrev pub Exclusive : List Row → Type 0
Exclusive [] = Unit
Exclusive (r ∷ rs) = All (Apart r) rs × Exclusive rs

-- A step that was ever started has its dependencies done, and its attempts in the budget.
pub record IsSound (rows : List Row) (r : Row) : Type 0 where
  pub ready : is_pending r.status ≡ false → all_done rows r.dependencies ≡ true
  pub budget : r.attempts ≤ r.max_attempts

pub record Inv (rows : List Row) : Type 0 where
  pub exclusive : Exclusive rows
  pub sound : All (IsSound rows) rows

-- A change that names, kinds and dependencies survive, and that undoes no result.
pub record Keeps (hit : Row → Bool) (change : Row → Row) : Type 0 where
  pub id : (r : Row) → (change r).id ≡ r.id
  pub kind : (r : Row) → (change r).kind ≡ r.kind
  pub dependencies : (r : Row) → (change r).dependencies ≡ r.dependencies
  pub max_attempts : (r : Row) → (change r).max_attempts ≡ r.max_attempts
  pub done : (r : Row) → hit r ≡ true → is_done r.status ≡ true → is_done (change r).status ≡ true

-- A change that starts nothing.
pub record Tame (hit : Row → Bool) (change : Row → Row) : Type 0 where
  pub keeps : Keeps hit change
  pub attempts : (r : Row) → (change r).attempts ≡ r.attempts
  pub active :
      (r : Row) → hit r ≡ true → is_active (change r).status ≡ true → is_active r.status ≡ true
  pub started :
      (r : Row) → hit r ≡ true → is_pending (change r).status ≡ false → is_pending r.status ≡ false

module _ (hit : Row → Bool) (change : Row → Row) (keeps : Keeps hit change) where
  abbrev pub new : Row → Row
  new r = if hit r then change r else r

  pub new_id : (r : Row) → (new r).id ≡ r.id
  new_id r = ground (arith, keeps.id r)

  pub new_kind : (r : Row) → (new r).kind ≡ r.kind
  new_kind r = ground (arith, keeps.kind r)

  pub new_dependencies : (r : Row) → (new r).dependencies ≡ r.dependencies
  new_dependencies r = ground (arith, keeps.dependencies r)

  pub new_max : (r : Row) → (new r).max_attempts ≡ r.max_attempts
  new_max r = ground (arith, keeps.max_attempts r)

  is_done_step-update :
      (rows : List Row) (d : String)
      → is_done_step rows d ≡ true
      → is_done_step (update hit change rows) d ≡ true
  unfolding is_done_step update
  is_done_step-update [] d h = h
  is_done_step-update (r ∷ rows) d h =
      rw (new_id r) (ground (arith, is_done_step-update rows d, keeps.done r))

  pub all_done-update :
      (rows : List Row) (ds : List String)
      → all_done rows ds ≡ true
      → all_done (update hit change rows) ds ≡ true
  unfolding all_done
  all_done-update rows [] h = refl
  all_done-update rows (d ∷ ds) h =
      ground (arith, is_done_step-update rows d, all_done-update rows ds)

module _ (hit : Row → Bool) (change : Row → Row) (tame : Tame hit change) where
  abbrev pub next : Row → Row
  next r = if hit r then change r else r

  next_active : (r : Row) → is_active (next r).status ≡ true → is_active r.status ≡ true
  next_active r h = ground (arith, tame.active r)

  next_started : (r : Row) → is_pending (next r).status ≡ false → is_pending r.status ≡ false
  next_started r h = ground (arith, tame.started r)

  next_attempts : (r : Row) → (next r).attempts ≡ r.attempts
  next_attempts r = ground (arith, tame.attempts r)

  Apart-next : (a b : Row) → Apart a b → Apart (next a) (next b)
  Apart-next a b (differ, reads) = (
    λ e. differ (sym (new_id hit change tame.keeps a) ∙ e ∙ new_id hit change tame.keeps b),
    λ p q.
        let (x, y) = reads (next_active a p) (next_active b q) in
        (rw (new_kind hit change tame.keeps a) x, rw (new_kind hit change tame.keeps b) y),
  )

  Apart-update :
      (a : Row) (rows : List Row)
      → All (Apart a) rows
      → All (Apart (next a)) (update hit change rows)
  unfolding update
  Apart-update a [] h = tt
  Apart-update a (b ∷ rows) h = (Apart-next a b h.0, Apart-update a rows h.1)

  Exclusive-update : (rows : List Row) → Exclusive rows → Exclusive (update hit change rows)
  unfolding update
  Exclusive-update [] h = tt
  Exclusive-update (a ∷ rows) h = (Apart-update a rows h.0, Exclusive-update rows h.1)

  IsSound-update :
      (all rows : List Row)
      → All (IsSound all) rows
      → All (IsSound (update hit change all)) (update hit change rows)
  unfolding update
  IsSound-update all [] h = tt
  IsSound-update all (r ∷ rows) h = (
    record {
      ready = λ p.
          rw (new_dependencies hit change tame.keeps r) (
            all_done-update hit change tame.keeps all r.dependencies
              (h.0.ready (next_started r p)));
      budget = omega (arith, new_max hit change tame.keeps r, next_attempts r, h.0.budget);
    },
    IsSound-update all rows h.1,
  )

  -- Writes that start nothing keep the invariant.
  pub update-Inv : (rows : List Row) → Inv rows → Inv (update hit change rows)
  update-Inv rows h = record {
    exclusive = Exclusive-update rows h.exclusive;
    sound = IsSound-update rows rows h.sound;
  }
