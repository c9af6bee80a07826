-- ===== src/Graph/Decide.antt =====
-- The loop over all nodes succeeds exactly on the graphs that have a rank.
use blueship.Prelude.{
  All-map, ℕ, ◌<◌, String, Bool, true, Option, none, some, List, [], ◌∷◌, ◌≡◌, ◌≢◌, refl, ◌↔◌, inl,
  inr, subst, contains, contains-cons, length, All,
}
use blueship.Graph.{Fault, Marks, Outcome, done, fault, out_of_fuel, blank, walk_all}
use blueship.Graph.Order.{walk_all-Grown, height, Sorted-height, Sorted-known}
use blueship.Graph.Total.{walk_all_ends}
use blueship.Graph.Ranked.{IsRanked, walk_all-IsClean}

pub All-contains :
    (P : String → Type 0) (ids : List String) (x : String) → All P ids → contains ids x ≡ true → P x
All-contains P [] x a h = absurd (unfold contains in cc)
All-contains P (j ∷ ids) x a h = elim ((contains-cons j x ids).0 h) [
  | inl same ↦ subst P same a.0
  | inr later ↦ All-contains P ids x a.1 later
]

module _ (strict : Bool) (deps : String → Option (List String)) (ids : List String)
    (listed : (x : String) (ds : List String) → deps x ≡ some ds → contains ids x ≡ true) where
  pub done-IsRanked :
      (fuel : ℕ) (m : Marks)
      → walk_all strict deps fuel ids blank ≡ done m
      → IsRanked strict deps (height m.visited)
  done-IsRanked fuel m h =
      let (grown, all) = walk_all-Grown strict deps fuel ids blank m h in
      let order = grown.sorted tt in
      let reached = λ (x : String) (ds : List String) (e : deps x ≡ some ds).
        Sorted-height strict deps m.visited order x ds (All-contains _ ids x all (listed x ds e))
          e in
      record {
        falls = λ x ds e. All-map ds (λ d p. p.1) (reached x ds e).0;
        known = λ x ds e.
            All-map ds (λ d p. Sorted-known strict deps m.visited order d p.0) (reached x ds e).0;
        distinct = λ x ds e. (reached x ds e).1;
      }

  Outcome-cases :
      (r : Outcome) → r ≢ out_of_fuel → ((f : Fault) → r ≢ fault f) → (m : Marks) × (r ≡ done m)
  Outcome-cases (done m) a b = (m, refl)
  Outcome-cases (fault f) a b = absurd (b f refl)
  Outcome-cases out_of_fuel a b = absurd (a refl)

  -- With fuel above the number of nodes, success is the same as having a rank.
  pub done_iff :
      (fuel : ℕ)
      → length ids < fuel
      → All (λ id. deps id ≢ none) ids
      → ((m : Marks) × (walk_all strict deps fuel ids blank ≡ done m))
        ↔ ((rank : String → ℕ) × IsRanked strict deps rank)
  done_iff fuel room known = (
    λ (m, h). (height m.visited, done-IsRanked fuel m h),
    λ (rank, ranked).
        Outcome-cases (walk_all strict deps fuel ids blank)
          (walk_all_ends strict deps ids listed fuel ids blank refl room)
          (walk_all-IsClean strict deps rank ranked fuel ids blank refl known),
  )
