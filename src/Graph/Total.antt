-- ===== src/Graph/Total.antt =====
-- The walk ends: every entered node is a key of the map that was not being visited before, so
-- fuel above the number of keys is never used up.
use blueship.Prelude.{
  ℕ, zero, suc, ◌≤◌, ◌<◌, String, Bool, true, false, ◌&&◌, Option, some, List, [], ◌∷◌, ◌≡◌, ◌≢◌,
  refl, ◌∙◌, inl, inr, if◌then◌else◌, contains, contains-cons, length, arith, Bool-cases,
  Option-cases,
}
use blueship.Graph.{Marks, Outcome, done, fault, out_of_fuel, and_then, enter, each, walk, walk_all}
use blueship.Graph.Order.{walk-Grown}

-- How many keys are not being visited.
abbrev pub idle : List String → List String → ℕ
idle [] visiting = 0
idle (k ∷ keys) visiting =
    if contains visiting k then idle keys visiting else suc (idle keys visiting)

pub idle-le-length : (keys visiting : List String) → idle keys visiting ≤ length keys
idle-le-length [] visiting = omega arith
idle-le-length (k ∷ keys) visiting = ground (arith, idle-le-length keys visiting)

pub idle-cons-le :
    (keys visiting : List String) (id : String) → idle keys (id ∷ visiting) ≤ idle keys visiting
idle-cons-le [] visiting id = omega arith
idle-cons-le (k ∷ keys) visiting id =
    ground (arith, idle-cons-le keys visiting id, contains-cons id k visiting)

pub idle-cons-lt :
    (keys visiting : List String) (id : String)
    → contains keys id ≡ true
    → contains visiting id ≡ false
    → idle keys (id ∷ visiting) < idle keys visiting
idle-cons-lt [] visiting id h free = absurd (unfold contains in cc)
idle-cons-lt (k ∷ keys) visiting id h free = ground (
  arith,
  idle-cons-le keys visiting id,
  idle-cons-lt keys visiting id,
  contains-cons id k visiting,
  contains-cons k id keys,
)

and_then-ne-out_of_fuel :
    (r : Outcome) (f : Marks → Outcome)
    → r ≢ out_of_fuel
    → ((m : Marks) → r ≡ done m → f m ≢ out_of_fuel)
    → and_then r f ≢ out_of_fuel
and_then-ne-out_of_fuel (done m) f ends later = later m refl
and_then-ne-out_of_fuel (fault e) f ends later = λ h. cc
and_then-ne-out_of_fuel out_of_fuel f ends later = λ h. ends refl

module _ (strict : Bool) (deps : String → Option (List String)) (keys : List String)
    (listed : (k : String) (ds : List String) → deps k ≡ some ds → contains keys k ≡ true) where
  Ends : ℕ → Type 0
  Ends fuel =
      (id : String) (m : Marks)
      → idle keys m.visiting < fuel
      → walk strict deps fuel id m ≢ out_of_fuel

  each-Ends :
      (fuel : ℕ) (seen ds : List String) (m : Marks)
      → Ends fuel
      → idle keys m.visiting < fuel
      → each strict (walk strict deps fuel) seen ds m ≢ out_of_fuel
  unfolding each Ends
  each-Ends fuel seen [] m ends room = λ h. cc
  each-Ends fuel seen (d ∷ ds) m ends room = elim (Bool-cases (strict && contains seen d)) [
    | inl bad ↦ rw bad (λ h. cc)
    | inr fine ↦ rw fine (
        and_then-ne-out_of_fuel (walk strict deps fuel d m) _ (ends d m room) (λ m₁ e.
          let (grown, _) = walk-Grown strict deps fuel d m m₁ e in
          each-Ends fuel (d ∷ seen) ds m₁ ends (rw grown.kept room)))
  ]

  walk-Ends : (fuel : ℕ) → Ends fuel
  unfolding Ends walk enter
  walk-Ends zero id m room = absurd (omega arith)
  walk-Ends (suc fuel) id m room = elim (Bool-cases (contains m.visiting id)) [
    | inl busy ↦ rw busy (λ h. cc)
    | inr free ↦ elim (Bool-cases (contains m.visited id)) [
      | inl old ↦ rw (free, old) (λ h. cc)
      | inr new ↦ elim (Option-cases (deps id)) [
        | inl e ↦ rw (free, new, e) (λ h. cc)
        | inr (ds, e) ↦
            let less = idle-cons-lt keys m.visiting id (listed id ds e) free in
            rw (free, new, e)
              (and_then-ne-out_of_fuel _ _
                (each-Ends fuel [] ds (enter id m) (walk-Ends fuel) (omega arith)) (λ m₁ h₁ h. cc))
      ]
    ]
  ]

  -- From unmarked nodes, fuel above the number of keys is enough for the loop over all nodes.
  pub walk_all_ends :
      (fuel : ℕ) (ids : List String) (m : Marks)
      → m.visiting ≡ []
      → length keys < fuel
      → walk_all strict deps fuel ids m ≢ out_of_fuel
  unfolding walk_all
  walk_all_ends fuel [] m clear room = λ h. cc
  walk_all_ends fuel (id ∷ ids) m clear room =
      and_then-ne-out_of_fuel (walk strict deps fuel id m) _
        (unfold Ends in walk-Ends fuel id m (omega (arith, idle-le-length keys m.visiting)))
        (λ m₁ e.
          let (grown, _) = walk-Grown strict deps fuel id m m₁ e in
          walk_all_ends fuel ids m₁ (grown.kept ∙ clear) room)
