-- ===== src/Workflow/Closure.antt =====
-- `Descendants` finds exactly the stages that rerunning the root invalidates.
use mathlib.Core.List.{Memᴰ}
use blueship.Prelude.{
  ℕ, zero, suc, String, true, some, List, [], ◌∷◌, map, ◌≡◌, ◌↔◌, inl, inr, refl, sym, ◌∙◌, ap,
  subst, All, length, contains, contains-cons, arith, Bool-cases, str_eq, eq_iff,
}
use blueship.Workflow.{Node, pass, closure, roots, descendants, key}
use blueship.Graph.Total.{idle-le-length}
use blueship.Graph.Nodes.{ids}
use blueship.Workflow.Passes.{
  Invalidates, start, along, any_found_of, none≢some, some-eq, Sound, Sub, pass-Sound, ClosedAt,
  pass-quiet, pass_more, closure_ends,
}

record Result (nodes : List Node) (root : String) (found r : List String) : Type 0 where
  sound : (x : String) → contains r x ≡ true → Invalidates nodes root x
  closed : All (ClosedAt r) nodes
  more : (x : String) → contains found x ≡ true → contains r x ≡ true

closure-Result :
    (nodes : List Node) (root : String) (fuel : ℕ) (found : List String) {r : List String}
    → ((x : String) → contains found x ≡ true → Invalidates nodes root x)
    → closure fuel nodes found ≡ some r
    → Result nodes root found r
closure-Result nodes root zero found s h = absurd (unfold closure in none≢some h)
closure-Result nodes root (suc fuel) found {r} s h = elim (Bool-cases (pass nodes found).1) [
  | inl e ↦
      let sound : (x : String) → contains (pass nodes found).0 x ≡ true → Invalidates nodes root x =
        unfold Sound Sub in pass-Sound nodes root nodes found (λ n m. m) s in
      let rest =
        closure-Result nodes root fuel (pass nodes found).0 {r = r} sound
          (unfold closure in rw (e, closure) at h) in
      record {
        sound = rest.sound;
        closed = rest.closed;
        more = λ x c. rest.more x (pass_more nodes found x c);
      }
  | inr e ↦
      let same : (pass nodes found).0 ≡ r = unfold closure in some-eq (rw (e, closure) at h) in
      let (kept, closed) = pass-quiet nodes found e in
      let eq : found ≡ r = sym kept ∙ same in
      record {
        sound = subst (λ l. (x : String) → contains l x ≡ true → Invalidates nodes root x) eq s;
        closed = subst (λ l. All (ClosedAt l) nodes) eq closed;
        more = λ x c. subst (λ l. contains l x ≡ true) eq c;
      }
]

pub length-map : (f : Node → String) (ns : List Node) → length (map f ns) ≡ length ns
length-map f [] = refl
length-map f (n ∷ ns) = ap suc (length-map f ns)

roots-root :
    (ns : List Node) (root x : String)
    → contains (roots ns root) x ≡ true
    → (n : Node) × Memᴰ n ns × (n.id ≡ root) × (root ≡ x)
unfolding roots
roots-root [] root x h = absurd (unfold contains in cc)
roots-root (n ∷ ns) root x h = elim (Bool-cases (str_eq n.id root)) [
  | inl e ↦
      let same = (eq_iff n.id root).0 e in
      elim ((contains-cons root x (roots ns root)).0 (rw (e, roots) at h)) [
        | inl here ↦ (n, Memᴰ.head refl, same, here)
        | inr later ↦ let (m, t, i, j) = roots-root ns root x later in (m, Memᴰ.tail t, i, j)
      ]
  | inr e ↦ let (m, t, i, j) = roots-root ns root x (rw (e, roots) at h) in (m, Memᴰ.tail t, i, j)
]

root-roots :
    (ns : List Node) (root : String) (n : Node)
    → Memᴰ n ns
    → n.id ≡ root
    → contains (roots ns root) root ≡ true
unfolding roots contains
root-roots [] root n h same = elim h [ ]
root-roots (m ∷ ns) root n (Memᴰ.head e) same =
    let at : m.id ≡ root = ap key (sym e) ∙ same in
    rw ((eq_iff m.id root).1 at) (ground (arith, eq_iff root root))
root-roots (m ∷ ns) root n (Memᴰ.tail t) same =
    ground (arith, root-roots ns root n t same, eq_iff root root)

closed_at :
    (r : List String) (ns : List Node) (n : Node) → All (ClosedAt r) ns → Memᴰ n ns → ClosedAt r n
closed_at r [] n a h = elim h [ ]
closed_at r (m ∷ ns) n a (Memᴰ.head e) = subst (ClosedAt r) (sym e) a.0
closed_at r (m ∷ ns) n a (Memᴰ.tail t) = closed_at r ns n a.1 t

complete :
    (nodes : List Node) (root : String) (r : List String)
    → Result nodes root (roots nodes root) r
    → {x : String} → Invalidates nodes root x
    → contains r x ≡ true
complete nodes root r res (start n m e) = res.more root (root-roots nodes root n m e)
complete nodes root r res (along n d m listed inv) =
    closed_at r nodes n res.closed m
      (any_found_of r n.depends_on d listed (complete nodes root r res inv))

-- `Descendants` returns, and its keys are exactly the stages that rerunning the root invalidates.
pub descendants_iff :
    (nodes : List Node) (root : String)
    → (r : List String) × (descendants nodes root ≡ some r)
      × ((x : String) → (contains r x ≡ true) ↔ Invalidates nodes root x)
unfolding descendants
descendants_iff nodes root =
    let (r, done) =
      closure_ends nodes (suc (length nodes)) (roots nodes root)
        (omega (arith, idle-le-length (ids key nodes) (roots nodes root), length-map key nodes)) in
    let res =
      closure-Result nodes root (suc (length nodes)) (roots nodes root)
        (λ x c.
          let (n, m, e, same) = roots-root nodes root x c in
          subst (Invalidates nodes root) same (start n m e))
        done in
    (r, done, λ x. (res.sound x, complete nodes root r res))
