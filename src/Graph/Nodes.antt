-- ===== src/Graph/Nodes.antt =====
-- A slice of nodes with ids and dependencies, and the map from ids to nodes built from it. The map
-- is the list of the nodes put into it, the oldest first; both programs put in an id only once.
use mathlib.Core.List.{map-append}
use blueship.Prelude.{
  ℕ, ◌<◌, String, Bool, true, false, ◌||◌, Option, none, some, List, [], ◌∷◌, ◌++◌, map, ◌≡◌, ◌≢◌,
  ◌↔◌, inl, inr, refl, sym, ◌∙◌, subst, subst₂, str_eq, arith, All, All-map, contains,
  contains-cons, contains-append, append_assoc, eq_iff, eq_refl, Bool-cases, Option-cases,
  if◌then◌else◌,
}
use blueship.Graph.Order.{Distinct}
use blueship.Graph.Ranked.{IsRanked}

-- A property of all keys of a list.
pub contains-All :
    {P : String → Type 0} (keys : List String)
    → ((k : String) → contains keys k ≡ true → P k)
    → All P keys
contains-All [] h = tt
contains-All (k ∷ keys) h = (
  h k ((contains-cons k k keys).1 (inl refl)),
  contains-All keys (λ j e. h j ((contains-cons k j keys).1 (inr e))),
)

none≢some : {ds : List String} → none ≡ some ds → ⊥
none≢some h = cc

some-eq : {ds es : List String} → some ds ≡ some es → ds ≡ es
some-eq h = cc

module _ {A : Type 0} (id : A → String) where
  -- `byID[k]`
  unfoldable pub find : List A → String → Option A
  find [] k = none
  find (s ∷ ss) k = if str_eq (id s) k then some s else find ss k

  abbrev pub ids : List A → List String
  ids = map id

  pub find-none_iff :
      (ss : List A) (k : String) → (find ss k ≡ none) ↔ (contains (ids ss) k ≡ false)
  unfolding find contains
  find-none_iff [] k = ((λ h. refl), (λ h. refl))
  find-none_iff (s ∷ ss) k = ground (arith, find-none_iff ss k)

  -- `seen` and the map have the same keys.
  abbrev pub SameKeys : List String → List A → Type 0
  SameKeys seen by_id = (k : String) → contains seen k ≡ contains (ids by_id) k

  pub SameKeys-snoc :
      (seen : List String) (by_id : List A) (s : A)
      → SameKeys seen by_id
      → SameKeys (id s ∷ seen) (by_id ++ s ∷ [])
  unfolding contains
  SameKeys-snoc seen by_id s same k =
      let parts : contains (ids (by_id ++ s ∷ [])) k
          ≡ (contains (ids by_id) k || contains (id s ∷ []) k) =
        rw (map-append id by_id (s ∷ [])) (contains-append (ids by_id) (id s ∷ []) k) in
      ground (arith, same k, parts)

  pub find-All :
      (P : A → Type 0) (ss : List A) (k : String) {s : A}
      → All P ss
      → find ss k ≡ some s
      → P s × (id s ≡ k)
  unfolding find
  find-All P [] k a h = cc
  find-All P (t ∷ ss) k {s} a h = elim (Bool-cases (str_eq (id t) k)) [
    | inl same ↦
        let e : t ≡ s = ground arith in
        (subst P e a.0, subst (λ (u : A). id u ≡ k) e ((eq_iff (id t) k).0 same))
    | inr other ↦ find-All P ss k a.1 (rw other at h)
  ]

  find-append_new :
      (pre ss : List A) (k : String) → contains (ids pre) k ≡ false → find (pre ++ ss) k ≡ find ss k
  unfolding find contains
  find-append_new [] ss k h = refl
  find-append_new (s ∷ pre) ss k h = ground (arith, find-append_new pre ss k)

  -- With distinct ids every node is found under its id.
  pub find_self :
      (seen : List String) (pre ss : List A)
      → SameKeys seen pre
      → Distinct seen (ids ss)
      → All (λ s. find (pre ++ ss) (id s) ≡ some s) ss
  find_self seen pre [] same d = tt
  find_self seen pre (s ∷ ss) same d = (
    find-append_new pre (s ∷ ss) (id s) (sym (same (id s)) ∙ d.0)
        ∙ unfold find in rw (eq_refl (id s)),
    subst (λ all. All (λ t. find all (id t) ≡ some t) ss) (append_assoc pre (s ∷ []) ss)
        (find_self (id s ∷ seen) (pre ++ s ∷ []) ss (SameKeys-snoc seen pre s same) d.1),
  )

  module _ (deps : A → List String) where
    unfoldable pub deps_of : List A → String → Option (List String)
    unfolding find
    deps_of by_id k = elim (find by_id k) [ some s ↦ some (deps s) | none ↦ none ]

    pub deps_of-some :
        (ss : List A) (k : String) {ds : List String}
        → deps_of ss k ≡ some ds
        → (s : A) × (find ss k ≡ some s) × (deps s ≡ ds)
    unfolding deps_of
    deps_of-some ss k h = elim (Option-cases (find ss k)) [
      | inl e ↦ absurd (none≢some (rw (e, deps_of) at h))
      | inr (s, e) ↦ (s, e, some-eq (rw (e, deps_of) at h))
    ]

    pub deps_of-find :
        (ss : List A) (k : String) (s : A) → find ss k ≡ some s → deps_of ss k ≡ some (deps s)
    unfolding deps_of
    deps_of-find ss k s e = rw (e, deps_of) refl

    pub deps_of-known :
        (ss : List A) (k : String) → (deps_of ss k ≢ none) ↔ (contains (ids ss) k ≡ true)
    unfolding deps_of find contains
    deps_of-known [] k = (λ h. absurd (h refl), λ h. cc)
    deps_of-known (s ∷ ss) k = ground (arith, deps_of-known ss k)

    -- A node whose dependencies are nodes, of lower ranks, and under `strict` named once each.
    pub record IsPlaced (strict : Bool) (nodes : List A) (rank : String → ℕ) (s : A) : Type 0 where
      pub known : All (λ d. contains (ids nodes) d ≡ true) (deps s)
      pub falls : All (λ d. rank d < rank (id s)) (deps s)
      pub once : strict ≡ true → Distinct [] (deps s)

    module _ (strict : Bool) (nodes : List A) (rank : String → ℕ) where
      IsPlaced-at :
          All (IsPlaced strict nodes rank) nodes
          → (x : String) (ds : List String) → deps_of nodes x ≡ some ds
          → (s : A) × IsPlaced strict nodes rank s × (id s ≡ x) × (deps s ≡ ds)
      IsPlaced-at placed x ds e =
          let (s, found, same) = deps_of-some nodes x e in
          let (p, named) = find-All (IsPlaced strict nodes rank) nodes x placed found in
          (s, p, named, same)

      pub IsPlaced-IsRanked :
          All (IsPlaced strict nodes rank) nodes → IsRanked strict (deps_of nodes) rank
      IsPlaced-IsRanked placed = record {
        falls = λ x ds e.
            let (s, p, named, same) = IsPlaced-at placed x ds e in
            subst₂ (λ i l. All (λ d. rank d < rank i) l) named same p.falls;
        known = λ x ds e.
            let (s, p, named, same) = IsPlaced-at placed x ds e in
            subst (All (λ d. deps_of nodes d ≢ none)) same
              (All-map (deps s) (λ d. (deps_of-known nodes d).1) p.known);
        distinct = λ x ds e on.
            let (s, p, named, same) = IsPlaced-at placed x ds e in
            subst (Distinct []) same (p.once on);
      }

      pub IsRanked-IsPlaced :
          Distinct [] (ids nodes)
          → IsRanked strict (deps_of nodes) rank
          → All (IsPlaced strict nodes rank) nodes
      IsRanked-IsPlaced distinct ranked =
          All-map nodes
            (λ (s : A) (found : find nodes (id s) ≡ some s).
              let e = deps_of-find nodes (id s) s found in
              record {
                known = All-map (deps s) (λ d. (deps_of-known nodes d).0) (ranked.known (id s) _ e);
                falls = ranked.falls (id s) _ e;
                once = ranked.distinct (id s) _ e;
              })
            (find_self [] [] nodes (λ k. refl) distinct)
