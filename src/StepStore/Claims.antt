-- ===== src/StepStore/Claims.antt =====
-- A claim keeps the invariant: it starts one step, beside which nothing conflicting is active.
use blueship.Prelude.{
  ℕ, ◌≤◌, ◌<◌, String, Bool, true, false, List, [], ◌∷◌, ◌≡◌, ◌⊎◌, refl, sym, ◌∙◌, inl, inr, All,
  arith, eq_iff, if◌then◌else◌,
}
use blueship.StepStore.{Row, is_read, is_pending, is_done, update}
use blueship.StepStore.Ops.{is_active, conflicts, none_conflicts, all_done, claimable, claim_row}
use blueship.StepStore.Invariant.{
  Apart, Exclusive, IsSound, Inv, Keeps, all_done-update, new_id, new_kind, new_dependencies,
}

module _ (now : ℕ) (id : String) (run lease : ℕ) (all : List Row) where
  abbrev hit : Row → Bool
  hit = claimable now id all

  abbrev start : Row → Row
  start = claim_row now run lease

  abbrev next : Row → Row
  next r = if hit r then start r else r

  claim-Keeps : Keeps hit start
  unfolding claimable claim_row is_pending is_done
  claim-Keeps = record {
    id = λ r. refl;
    kind = λ r. refl;
    dependencies = λ r. refl;
    max_attempts = λ r. refl;
    done = λ r h d. ground arith;
  }

  hit_id : (r : Row) → hit r ≡ true → r.id ≡ id
  unfolding claimable
  hit_id r h = ground (arith, eq_iff r.id id)

  hit_free : (r : Row) → hit r ≡ true → none_conflicts r all ≡ true
  unfolding claimable
  hit_free r h = ground arith

  hit_ready :
      (r : Row)
      → hit r ≡ true
      → (all_done all r.dependencies ≡ true) × (r.attempts < r.max_attempts)
  unfolding claimable
  hit_ready r h = ground arith

  -- The peers of a step that may be claimed, in a part of the table.
  Free : List Row → Type 0
  Free rows = (s : Row) → hit s ≡ true → none_conflicts s rows ≡ true

  conflict_reads :
      (s r : Row)
      → conflicts s r ≡ false
      → is_active r.status ≡ true
      → (is_read s.kind ≡ true) × (is_read r.kind ≡ true)
  unfolding conflicts
  conflict_reads s r h a = ground arith

  Free-head :
      (r : Row) (rows : List Row)
      → Free (r ∷ rows)
      → (s : Row) → hit s ≡ true
      → conflicts s r ≡ false
  unfolding Free none_conflicts
  Free-head r rows h s e = ground (arith, h s e)

  Free-tail : (r : Row) (rows : List Row) → Free (r ∷ rows) → Free rows
  unfolding Free none_conflicts
  Free-tail r rows h s e = ground (arith, h s e)

  active-cases :
      (r : Row) → is_active (next r).status ≡ true → (hit r ≡ true) ⊎ (is_active r.status ≡ true)
  active-cases r h = ground arith

  Apart-claim :
      (a b : Row)
      → ((s : Row) → hit s ≡ true → conflicts s a ≡ false)
      → ((s : Row) → hit s ≡ true → conflicts s b ≡ false)
      → Apart a b
      → Apart (next a) (next b)
  Apart-claim a b fa fb (differ, reads) = (
    λ e. differ (sym (new_id hit start claim-Keeps a) ∙ e ∙ new_id hit start claim-Keeps b),
    λ p q.
        let (x, y) = kinds (active-cases a p) (active-cases b q) in
        (rw (new_kind hit start claim-Keeps a) x, rw (new_kind hit start claim-Keeps b) y),
  )
    where
      kinds :
          ((hit a ≡ true) ⊎ (is_active a.status ≡ true))
          → ((hit b ≡ true) ⊎ (is_active b.status ≡ true))
          → (is_read a.kind ≡ true) × (is_read b.kind ≡ true)
      kinds (inl x) (inl y) = absurd (differ (hit_id a x ∙ sym (hit_id b y)))
      kinds (inl x) (inr y) = conflict_reads a b (fb a x) y
      kinds (inr x) (inl y) = let (k, l) = conflict_reads b a (fa b y) x in (l, k)
      kinds (inr x) (inr y) = reads x y

  Apart-row :
      (a : Row) (rows : List Row)
      → ((s : Row) → hit s ≡ true → conflicts s a ≡ false)
      → Free rows
      → All (Apart a) rows
      → All (Apart (next a)) (update hit start rows)
  unfolding update
  Apart-row a [] fa free h = tt
  Apart-row a (b ∷ rows) fa free h = (
    Apart-claim a b fa (Free-head b rows free) h.0,
    Apart-row a rows fa (Free-tail b rows free) h.1,
  )

  Exclusive-claim :
      (rows : List Row) → Free rows → Exclusive rows → Exclusive (update hit start rows)
  unfolding update
  Exclusive-claim [] free h = tt
  Exclusive-claim (a ∷ rows) free h = (
    Apart-row a rows (Free-head a rows free) (Free-tail a rows free) h.0,
    Exclusive-claim rows (Free-tail a rows free) h.1,
  )

  started-cases :
      (r : Row)
      → is_pending (next r).status ≡ false
      → (hit r ≡ true) ⊎ (is_pending r.status ≡ false)
  unfolding claim_row
  started-cases r h = ground arith

  next_budget : (r : Row) → r.attempts ≤ r.max_attempts → (next r).attempts ≤ (next r).max_attempts
  unfolding claim_row
  next_budget r h = ground (arith, hit_ready r)

  ready_next :
      (r : Row)
      → IsSound all r
      → is_pending (next r).status ≡ false
      → all_done all r.dependencies ≡ true
  ready_next r h p = elim (started-cases r p) [ inl x ↦ (hit_ready r x).0 | inr x ↦ h.ready x ]

  IsSound-claim :
      (rows : List Row)
      → All (IsSound all) rows
      → All (IsSound (update hit start all)) (update hit start rows)
  unfolding update
  IsSound-claim [] h = tt
  IsSound-claim (r ∷ rows) h = (
    record {
      ready = λ p.
          rw (new_dependencies hit start claim-Keeps r)
            (all_done-update hit start claim-Keeps all r.dependencies (ready_next r h.0 p));
      budget = next_budget r h.0.budget;
    },
    IsSound-claim rows h.1,
  )

  pub claim-Inv : Inv all → Inv (update hit start all)
  claim-Inv h = record {
    exclusive = Exclusive-claim all (unfold Free in hit_free) h.exclusive;
    sound = IsSound-claim all h.sound;
  }
