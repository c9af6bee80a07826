-- ===== src/Graph/Order.antt =====
-- What a finished walk shows: the visited nodes stand in an order in which every node comes after
-- its dependencies, so a rank falls along every dependency.
use blueship.Prelude.{
  ℕ, zero, suc, ◌≤◌, ◌<◌, String, Bool, true, false, ◌&&◌, Option, none, some, List, [], ◌∷◌, ◌≡◌,
  refl, sym, ◌∙◌, ap, subst, ◌≢◌, ◌⊎◌, inl, inr, if◌then◌else◌, contains, contains-cons,
  remove-cons_self, length, All, All-map, arith, Bool-cases, Option-cases, eq_iff, str_eq,
}
use blueship.Graph.{
  Fault, Marks, Outcome, done, fault, and_then, enter, leave, each, walk, walk_all,
}

-- No member of the second list stands twice in it or is in the first.
abbrev pub Distinct : List String → List String → Type 0
Distinct seen [] = Unit
Distinct seen (d ∷ ds) = (contains seen d ≡ false) × Distinct (d ∷ seen) ds

-- The newest node stands first: its dependencies are all among the older ones.
abbrev pub Sorted : Bool → (String → Option (List String)) → List String → Type 0
Sorted strict deps [] = Unit
Sorted strict deps (x ∷ xs) =
    ((ds : List String) × (deps x ≡ some ds)
      × All (λ d. contains xs d ≡ true) ds
      × (strict ≡ true → Distinct [] ds))
    × Sorted strict deps xs

pub record Grown (strict : Bool) (deps : String → Option (List String)) (m m' : Marks)
    : Type 0 where
  pub kept : m'.visiting ≡ m.visiting
  pub more : (k : String) → contains m.visited k ≡ true → contains m'.visited k ≡ true
  pub sorted : Sorted strict deps m.visited → Sorted strict deps m'.visited

pub and_then-eq-done :
    (r : Outcome) (f : Marks → Outcome) {m' : Marks}
    → and_then r f ≡ done m'
    → (m : Marks) × (r ≡ done m) × (f m ≡ done m')
and_then-eq-done (done m) f h = (m, refl, h)
and_then-eq-done (Outcome.fault e) f h = cc
and_then-eq-done Outcome.out_of_fuel f h = cc

fault≢done : {f : Fault} {m : Marks} → fault f ≡ done m → ⊥
fault≢done h = cc

done-injective : {m m' : Marks} → done m ≡ done m' → m ≡ m'
done-injective h = cc

pub each-eq-done :
    (strict : Bool) (visit : String → Marks → Outcome) (seen : List String) (d : String)
    (ds : List String) (m : Marks) {m' : Marks}
    → each strict visit seen (d ∷ ds) m ≡ done m'
    → (strict && contains seen d ≡ false)
      × (m₁ : Marks) × (visit d m ≡ done m₁)
      × (each strict visit (d ∷ seen) ds m₁ ≡ done m')
unfolding each
each-eq-done strict visit seen d ds m h = elim (Bool-cases (strict && contains seen d)) [
  | inl bad ↦ absurd (fault≢done (rw bad at h))
  | inr fine ↦
      let (m₁, first, rest) = and_then-eq-done (visit d m) _ (rw fine at h) in
      (fine, m₁, first, rest)
]

module _ (strict : Bool) (deps : String → Option (List String)) where
  pub walk-eq-done :
      (fuel : ℕ) (id : String) (m : Marks) {m' : Marks}
      → walk strict deps (suc fuel) id m ≡ done m'
      → ((contains m.visiting id ≡ false) × (contains m.visited id ≡ true) × (m' ≡ m))
        ⊎ ((contains m.visiting id ≡ false)
            × (ds : List String) × (m₁ : Marks) × (deps id ≡ some ds)
            × (each strict (walk strict deps fuel) [] ds (enter id m) ≡ done m₁)
            × (m' ≡ leave id m₁))
  unfolding walk
  walk-eq-done fuel id m h = elim (Bool-cases (contains m.visiting id)) [
    | inl busy ↦ absurd (fault≢done (rw busy at h))
    | inr free ↦ elim (Bool-cases (contains m.visited id)) [
      | inl old ↦ inl (free, old, sym (done-injective (rw (free, old) at h)))
      | inr new ↦ elim (Option-cases (deps id)) [
        | inl e ↦ absurd (fault≢done (rw (free, new, e) at h))
        | inr (ds, e) ↦
            let (m₁, inner, last) = and_then-eq-done _ _ (rw (free, new, e) at h) in
            inr (free, ds, m₁, e, inner, sym (done-injective last))
      ]
    ]
  ]

module _ (strict : Bool) (deps : String → Option (List String)) where
  Grown-refl : (m : Marks) → Grown strict deps m m
  Grown-refl m = record { kept = refl; more = λ k h. h; sorted = λ s. s }

  Grown-trans :
      {m₁ m₂ m₃ : Marks}
      → Grown strict deps m₁ m₂
      → Grown strict deps m₂ m₃
      → Grown strict deps m₁ m₃
  Grown-trans a b = record {
    kept = cc (a.kept, b.kept);
    more = λ k h. b.more k (a.more k h);
    sorted = λ s. b.sorted (a.sorted s);
  }

  abbrev Visits : (String → Marks → Outcome) → Type 0
  Visits visit =
      (d : String) (m m' : Marks)
      → visit d m ≡ done m'
      → Grown strict deps m m' × (contains m'.visited d ≡ true)

  each-Grown :
      (visit : String → Marks → Outcome)
      → Visits visit
      → (seen ds : List String) (m m' : Marks) → each strict visit seen ds m ≡ done m'
      → Grown strict deps m m'
        × All (λ d. contains m'.visited d ≡ true) ds
        × (strict ≡ true → Distinct seen ds)
  each-Grown visit v seen [] m m' h =
      let e : m ≡ m' = done-injective (unfold each in h) in
      (subst (Grown strict deps m) e (Grown-refl m), tt, λ _. tt)
  each-Grown visit v seen (d ∷ ds) m m' h =
      let (fine, m₁, first, rest) = each-eq-done strict visit seen d ds m h in
      let (grown, has_d) = v d m m₁ first in
      let (grown', has_ds, once) = each-Grown visit v (d ∷ seen) ds m₁ m' rest in
      (Grown-trans grown grown', (grown'.more d has_d, has_ds), λ on. (ground arith, once on))

  enter-leave-Grown :
      (id : String) (ds : List String) (m m₁ : Marks)
      → contains m.visiting id ≡ false
      → deps id ≡ some ds
      → Grown strict deps (enter id m) m₁
        × All (λ d. contains m₁.visited d ≡ true) ds
        × (strict ≡ true → Distinct [] ds)
      → Grown strict deps m (leave id m₁)
  unfolding enter leave
  enter-leave-Grown id ds m m₁ fresh listed (g, has_ds, once) = record {
    kept = rw g.kept (remove-cons_self m.visiting id fresh);
    more = λ k h. (contains-cons id k m₁.visited).1 (inr (g.more k h));
    sorted = λ s. ((ds, listed, has_ds, once), g.sorted s);
  }

  pub walk-Grown : (fuel : ℕ) → Visits (walk strict deps fuel)
  walk-Grown zero d m m' h = absurd (unfold walk in cc)
  walk-Grown (suc fuel) d m m' h = elim (walk-eq-done strict deps fuel d m h) [
    | inl (_, old, same) ↦ rw same (Grown-refl m, old)
    | inr (fresh, ds, m₁, listed, inner, last) ↦
        let parts = each-Grown (walk strict deps fuel) (walk-Grown fuel) [] ds _ m₁ inner in
        rw last (
          enter-leave-Grown d ds m m₁ fresh listed parts,
          unfold leave in (contains-cons d d m₁.visited).1 (inl refl),
        )
  ]

  pub walk_all-Grown :
      (fuel : ℕ) (ids : List String) (m m' : Marks)
      → walk_all strict deps fuel ids m ≡ done m'
      → Grown strict deps m m' × All (λ d. contains m'.visited d ≡ true) ids
  walk_all-Grown fuel [] m m' h =
      let e : m ≡ m' = done-injective (unfold walk_all in h) in
      (subst (Grown strict deps m) e (Grown-refl m), tt)
  walk_all-Grown fuel (id ∷ ids) m m' h =
      let (m₁, first, rest) =
        and_then-eq-done (walk strict deps fuel id m) (walk_all strict deps fuel ids) {m' = m'}
          (unfold walk_all in h) in
      let (grown, has_id) = walk-Grown fuel id m m₁ first in
      let (grown', has_ids) = walk_all-Grown fuel ids m₁ m' rest in
      (Grown-trans grown grown', (grown'.more id has_id, has_ids))

-- The rank of a node in such an order: how many nodes stand up to its oldest place.
abbrev pub height : List String → String → ℕ
height [] k = 0
height (j ∷ xs) k = if contains xs k then height xs k else if str_eq j k then suc (length xs) else 0

pub height-le-length : (xs : List String) (k : String) → height xs k ≤ length xs
height-le-length [] k = omega arith
height-le-length (j ∷ xs) k = ground (arith, height-le-length xs k)

some-eq : {a b : List String} → some a ≡ some b → a ≡ b
some-eq h = cc

-- In a sorted order the rank of every dependency is below that of its node.
pub Sorted-height :
    (strict : Bool) (deps : String → Option (List String)) (order : List String)
    → Sorted strict deps order
    → (x : String) (ds : List String) → contains order x ≡ true
    → deps x ≡ some ds
    → All (λ d. (contains order d ≡ true) × (height order d < height order x)) ds
      × (strict ≡ true → Distinct [] ds)
Sorted-height strict deps [] s x ds h e = absurd (unfold contains in cc)
Sorted-height strict deps (j ∷ xs) ((js, listed, all, once), s) x ds h e =
    elim (Bool-cases (contains xs x)) [
      | inl old ↦
          let (low, distinct) = Sorted-height strict deps xs s x ds old e in
          rw old (
            All-map ds (λ d (has, below). ((contains-cons j d xs).1 (inr has), rw has below)) low,
            distinct,
          )
      | inr new ↦
          let j_x : j ≡ x = ground (arith, (contains-cons j x xs).0 h) in
          let same : js ≡ ds = some-eq (sym listed ∙ ap deps j_x ∙ e) in
          rw (new, (eq_iff j x).1 j_x)
            (
              All-map ds
                  (λ d has. (
                    (contains-cons j d xs).1 (inr has),
                    rw has (omega (arith, height-le-length xs d)),
                  ))
                  (subst (All (λ d. contains xs d ≡ true)) same all),
              λ on. subst (Distinct []) same (once on),
            )
    ]

-- Every node of a sorted order is in the graph.
pub Sorted-known :
    (strict : Bool) (deps : String → Option (List String)) (order : List String)
    → Sorted strict deps order
    → (x : String) → contains order x ≡ true
    → deps x ≢ none
Sorted-known strict deps [] s x h e = absurd (unfold contains in cc)
Sorted-known strict deps (j ∷ xs) ((js, listed, _, _), s) x h e =
    elim ((contains-cons j x xs).0 h) [
      | inl same ↦ cc
      | inr old ↦ Sorted-known strict deps xs s x old e
    ]
