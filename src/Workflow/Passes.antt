-- ===== src/Workflow/Passes.antt =====
-- What a pass over the stages adds, and where the passes of `Descendants` end.
use mathlib.Core.List.{Memᴰ}
use blueship.Prelude.{
  true≢false, ℕ, zero, suc, ◌≤◌, ◌<◌, String, Bool, true, false, not, ◌&&◌, none, some, List, [],
  ◌∷◌, ◌≡◌, inl, inr, refl, subst, All, All-map, contains, contains-cons, arith, Bool-cases, eq_iff,
  if◌then◌else◌,
}
use blueship.Workflow.{Node, any_found, pass, closure, key}
use blueship.Graph.Total.{idle, idle-cons-lt}
use blueship.Graph.Nodes.{ids}

-- The root, if it is a stage, and every stage that depends on an invalidated one.
pub data Invalidates (nodes : List Node) (root : String) : String → Type 0 where
  start : (n : Node) → Memᴰ n nodes → n.id ≡ root → Invalidates nodes root root
  along :
      (n : Node) (d : String)
      → Memᴰ n nodes
      → contains n.depends_on d ≡ true
      → Invalidates nodes root d
      → Invalidates nodes root n.id

any_found_iff :
    (found ds : List String)
    → any_found found ds ≡ true
    → (d : String) × (contains ds d ≡ true) × (contains found d ≡ true)
unfolding any_found
any_found_iff found [] h = cc
any_found_iff found (d ∷ ds) h = elim (Bool-cases (contains found d)) [
  | inl e ↦ (d, (contains-cons d d ds).1 (inl refl), e)
  | inr e ↦
      let (k, listed, e') = any_found_iff found ds (rw e at h) in
      (k, (contains-cons d k ds).1 (inr listed), e')
]

pub any_found_of :
    (found ds : List String) (d : String)
    → contains ds d ≡ true
    → contains found d ≡ true
    → any_found found ds ≡ true
unfolding any_found contains
any_found_of found [] d h e = cc
any_found_of found (k ∷ ds) d h e = ground (arith, any_found_of found ds d, eq_iff k d)

pub none≢some : {r : List String} → none ≡ some r → ⊥
none≢some h = cc

pub some-eq : {r s : List String} → some r ≡ some s → r ≡ s
some-eq h = cc

abbrev fresh : Node → List String → Bool
fresh n found = not (contains found n.id) && any_found found n.depends_on

module _ (nodes : List Node) (root : String) where
  unfoldable pub Sound : List String → Type 0
  Sound found = (x : String) → contains found x ≡ true → Invalidates nodes root x

  unfoldable pub Sub : List Node → Type 0
  Sub ns = (n : Node) → Memᴰ n ns → Memᴰ n nodes

  Sound-cons :
      (n : Node) (found : List String)
      → Memᴰ n nodes
      → any_found found n.depends_on ≡ true
      → Sound found
      → Sound (n.id ∷ found)
  unfolding Sound
  Sound-cons n found m h s x c = elim ((contains-cons n.id x found).0 c) [
    | inl e ↦
        let (d, listed, has) = any_found_iff found n.depends_on h in
        subst (Invalidates nodes root) e (along n d m listed (s d has))
    | inr old ↦ s x old
  ]

  Sound-step :
      (n : Node) (found : List String)
      → Memᴰ n nodes
      → Sound found
      → Sound (if fresh n found then n.id ∷ found else found)
  Sound-step n found m s = elim (Bool-cases (fresh n found)) [
    | inl e ↦ rw e (Sound-cons n found m (ground arith) s)
    | inr e ↦ rw e s
  ]

  pub pass-Sound :
      (ns : List Node) (found : List String) → Sub ns → Sound found → Sound (pass ns found).0
  unfolding pass Sub
  pass-Sound [] found sub s = s
  pass-Sound (n ∷ ns) found sub s =
      pass-Sound ns _ (λ k m. sub k (Memᴰ.tail m)) (Sound-step n found (sub n (Memᴰ.head refl)) s)

abbrev pub ClosedAt : List String → Node → Type 0
ClosedAt found n = any_found found n.depends_on ≡ true → contains found n.id ≡ true

pub pass-quiet :
    (ns : List Node) (found : List String)
    → (pass ns found).1 ≡ false
    → ((pass ns found).0 ≡ found) × All (ClosedAt found) ns
unfolding pass
pass-quiet [] found h = (refl, tt)
pass-quiet (n ∷ ns) found h = elim (Bool-cases (fresh n found)) [
  | inl e ↦ absurd (true≢false (rw (e, pass) at h))
  | inr e ↦
      let (same, closed) = pass-quiet ns found (rw (e, pass) at h) in
      (rw (e, pass) same, (λ a. ground (arith, e), closed))
]

pub pass_more :
    (ns : List Node) (found : List String) (x : String)
    → contains found x ≡ true
    → contains (pass ns found).0 x ≡ true
unfolding pass
pass_more [] found x h = h
pass_more (n ∷ ns) found x h = elim (Bool-cases (fresh n found)) [
  | inl e ↦ rw (e, pass) (pass_more ns (n.id ∷ found) x ((contains-cons n.id x found).1 (inr h)))
  | inr e ↦ rw (e, pass) (pass_more ns found x h)
]

pass-idle :
    (keys : List String) (ns : List Node) (found : List String)
    → All (λ n. contains keys n.id ≡ true) ns
    → (idle keys (pass ns found).0 ≤ idle keys found)
      × ((pass ns found).1 ≡ true → idle keys (pass ns found).0 < idle keys found)
unfolding pass
pass-idle keys [] found h = (omega arith, λ e. cc)
pass-idle keys (n ∷ ns) found h = elim (Bool-cases (fresh n found)) [
  | inl e ↦
      let (low, _) = pass-idle keys ns (n.id ∷ found) h.1 in
      let less = idle-cons-lt keys found n.id h.0 (ground arith) in
      rw (e, pass) (omega arith, λ _. omega arith)
  | inr e ↦ rw (e, pass) (pass-idle keys ns found h.1)
]

ids_listed : (ns : List Node) → All (λ n. contains (ids key ns) n.id ≡ true) ns
ids_listed [] = tt
ids_listed (n ∷ ns) = (
  (contains-cons n.id n.id (ids key ns)).1 (inl refl),
  All-map ns (λ m h. (contains-cons n.id m.id (ids key ns)).1 (inr h)) (ids_listed ns),
)

pub closure_ends :
    (nodes : List Node) (fuel : ℕ) (found : List String)
    → idle (ids key nodes) found < fuel
    → (r : List String) × (closure fuel nodes found ≡ some r)
unfolding closure
closure_ends nodes zero found h = absurd (omega arith)
closure_ends nodes (suc fuel) found h = elim (Bool-cases (pass nodes found).1) [
  | inl e ↦
      let (_, less) = pass-idle (ids key nodes) nodes found (ids_listed nodes) in
      let (r, done) = closure_ends nodes fuel (pass nodes found).0 (omega (arith, less e)) in
      (r, rw (e, closure) done)
  | inr e ↦ ((pass nodes found).0, rw (e, closure) refl)
]
