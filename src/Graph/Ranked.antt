-- ===== src/Graph/Ranked.antt =====
-- On a closed graph whose dependencies fall along a rank, the walk reports nothing.
use blueship.Prelude.{
  ℕ, zero, suc, ◌≤◌, ◌<◌, String, Bool, true, ◌&&◌, Option, none, some, List, [], ◌∷◌, ◌≡◌, ◌≢◌,
  refl, ◌∙◌, inl, inr, contains, contains-cons, arith, Bool-cases, Option-cases, All,
}
use blueship.Graph.{
  Fault, Marks, Outcome, done, fault, out_of_fuel, and_then, enter, each, walk, walk_all,
}
use blueship.Graph.Order.{Distinct, walk-Grown}

pub record IsRanked (strict : Bool) (deps : String → Option (List String)) (rank : String → ℕ)
    : Type 0 where
  pub falls : (x : String) (ds : List String) → deps x ≡ some ds → All (λ d. rank d < rank x) ds
  pub known : (x : String) (ds : List String) → deps x ≡ some ds → All (λ d. deps d ≢ none) ds
  pub distinct : (x : String) (ds : List String) → deps x ≡ some ds → strict ≡ true → Distinct [] ds

abbrev IsClean : Outcome → Type 0
IsClean r = (f : Fault) → r ≢ fault f

and_then-IsClean :
    (r : Outcome) (f : Marks → Outcome)
    → IsClean r
    → ((m : Marks) → r ≡ done m → IsClean (f m))
    → IsClean (and_then r f)
and_then-IsClean (done m) f clean later = later m refl
and_then-IsClean (fault e) f clean later = λ g h. absurd (clean e refl)
and_then-IsClean out_of_fuel f clean later = λ g h. cc

module _ (strict : Bool) (deps : String → Option (List String)) (rank : String → ℕ)
    (ranked : IsRanked strict deps rank) where
  -- No node at or below rank `n` is being visited.
  Above : ℕ → List String → Type 0
  Above n visiting = (v : String) → contains visiting v ≡ true → n < rank v

  Clean : ℕ → Type 0
  Clean fuel =
      (id : String) (m : Marks)
      → Above (rank id) m.visiting
      → deps id ≢ none
      → IsClean (walk strict deps fuel id m)

  each-Clean :
      (fuel n : ℕ) (seen ds : List String) (m : Marks)
      → Clean fuel
      → All (λ d. rank d < n) ds
      → All (λ d. deps d ≢ none) ds
      → (strict ≡ true → Distinct seen ds)
      → ((v : String) → contains m.visiting v ≡ true → n ≤ rank v)
      → IsClean (each strict (walk strict deps fuel) seen ds m)
  unfolding each Clean Above
  each-Clean fuel n seen [] m clean low known once above = λ f h. cc
  each-Clean fuel n seen (d ∷ ds) m clean low known once above =
      elim (Bool-cases (strict && contains seen d)) [
        | inl bad ↦ absurd (ground (arith, once))
        | inr fine ↦ rw fine (
            and_then-IsClean (walk strict deps fuel d m) _
              (clean d m (λ v h. omega (arith, above v h, low.0)) known.0)
              (λ m₁ e.
                let (grown, _) = walk-Grown strict deps fuel d m m₁ e in
                each-Clean fuel n (d ∷ seen) ds m₁ clean low.1 known.1 (λ on. (once on).1)
                  (rw grown.kept above)))
      ]

  walk-Clean : (fuel : ℕ) → Clean fuel
  unfolding Clean Above walk enter
  walk-Clean zero id m above known = λ f h. cc
  walk-Clean (suc fuel) id m above known = elim (Bool-cases (contains m.visiting id)) [
    | inl busy ↦ absurd (omega (arith, above id busy))
    | inr free ↦ elim (Bool-cases (contains m.visited id)) [
      | inl old ↦ rw (free, old) (λ f h. cc)
      | inr new ↦ elim (Option-cases (deps id)) [
        | inl e ↦ absurd (known e)
        | inr (ds, e) ↦
            rw (free, new, e)
              (and_then-IsClean _ _
                (each-Clean fuel (rank id) [] ds (enter id m) (walk-Clean fuel)
                  (ranked.falls id ds e) (ranked.known id ds e) (ranked.distinct id ds e)
                  (λ v h. elim ((contains-cons id v m.visiting).0 h) [
                    | inl same ↦ rw same (omega arith)
                    | inr old ↦ omega (arith, above v old)
                  ]))
                (λ m₁ h₁ f h. cc))
      ]
    ]
  ]

  -- From unmarked nodes, the loop over nodes of the graph reports nothing.
  pub walk_all-IsClean :
      (fuel : ℕ) (ids : List String) (m : Marks)
      → m.visiting ≡ []
      → All (λ id. deps id ≢ none) ids
      → (f : Fault) → walk_all strict deps fuel ids m ≢ fault f
  unfolding walk_all
  walk_all-IsClean fuel [] m clear known f h = cc
  walk_all-IsClean fuel (id ∷ ids) m clear known f h =
      and_then-IsClean (walk strict deps fuel id m) _
        (unfold Clean Above in
          walk-Clean fuel id m (λ v h. absurd (unfold contains in cc (rw clear at h))) known.0)
        (λ m₁ e.
          let (grown, _) = walk-Grown strict deps fuel id m m₁ e in
          walk_all-IsClean fuel ids m₁ (grown.kept ∙ clear) known.1)
        f h
