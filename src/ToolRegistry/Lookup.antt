-- ===== src/ToolRegistry/Lookup.antt =====
-- Which definitions the registry returns (internal/core/registry.go).
use mathlib.Core.List.{map-append}
use blueship.Prelude.{
  String, true, false, ◌||◌, none, some, List, [], ◌∷◌, ◌++◌, map, ◌≡◌, inl, inr, refl, sym, ◌∙◌,
  ap, arith, contains, str_eq, eq_iff, Bool-cases, Option-cases,
}
use blueship.Graph.Order.{Distinct}
use blueship.Graph.Nodes.{find}
use blueship.ToolRegistry.{
  ToolDefinition, RegisteredTool, ToolRegistry, name_of, has, insert, sort, definitions,
  tools_for_peer, visit_peer, visit_name, visit_names, definitions_for_names, is_wildcard,
  wildcard_peer,
}

abbrev pub names : List ToolDefinition → List String
names ds = map (λ d. d.name) ds

-- `s` holds every key of `t`.
abbrev Covers : List String → List String → Type 0
Covers s t = (k : String) → contains t k ≡ true → contains s k ≡ true

cons-Covers : (x : String) (s t : List String) → Covers s t → Covers (x ∷ s) (x ∷ t)
unfolding contains
cons-Covers x s t c k h = ground (arith, c k)

Distinct-Covers : (s t xs : List String) → Covers s t → Distinct s xs → Distinct t xs
Distinct-Covers s t [] c d = tt
Distinct-Covers s t (x ∷ xs) c (new, d) =
    (ground (arith, c x), Distinct-Covers (x ∷ s) (x ∷ t) xs (cons-Covers x s t c) d)

Distinct-append :
    (s s' xs ys : List String)
    → ((k : String) → (contains s k || contains xs k) ≡ true → contains s' k ≡ true)
    → Distinct s xs
    → Distinct s' ys
    → Distinct s (xs ++ ys)
unfolding contains
Distinct-append s s' [] ys c d e = Distinct-Covers s' s ys (λ k h. c k (ground (arith, h))) e
Distinct-append s s' (x ∷ xs) ys c (new, d) e =
    (new, Distinct-append (x ∷ s) s' xs ys (λ k h. c k (ground (arith, h))) d e)

-- What a visit returns: new definitions only, and a `seen` that holds them.
abbrev Visited : List String → List ToolDefinition × List String → Type 0
Visited seen (ds, seen') =
    Distinct seen (names ds)
    × ((k : String) → (contains seen k || contains (names ds) k) ≡ true → contains seen' k ≡ true)

module _ {H : Type 0} where
  visit_peer-Visited :
      (ts : List (RegisteredTool H)) (seen : List String) → Visited seen (visit_peer ts seen)
  unfolding visit_peer
  visit_peer-Visited [] seen = (tt, λ k h. unfold contains in ground (arith, h))
  visit_peer-Visited (t ∷ ts) seen = elim (Bool-cases (contains seen (name_of t))) [
    | inl old ↦ rw (old, visit_peer) (visit_peer-Visited ts seen)
    | inr new ↦
        let (d, c) = visit_peer-Visited ts (name_of t ∷ seen) in
        rw (new, visit_peer) ((new, d), λ k h. c k (unfold contains in ground (arith, h)))
  ]

  pub find-name :
      (ts : List (RegisteredTool H)) (k : String) {t : RegisteredTool H}
      → find name_of ts k ≡ some t
      → name_of t ≡ k
  unfolding find
  find-name [] k h = cc
  find-name (u ∷ ts) k {t} h = ground (arith, find-name ts k {t = t}, eq_iff (name_of u) k)

  visit_name-Visited :
      (r : ToolRegistry H) (n : String) (seen : List String) → Visited seen (visit_name r n seen)
  unfolding visit_name
  visit_name-Visited r n seen = elim (Bool-cases (is_wildcard n)) [
    | inl w ↦ rw (w, visit_name) (visit_peer-Visited (tools_for_peer r (wildcard_peer n)) seen)
    | inr w ↦ elim (Bool-cases (contains seen n)) [
      | inl old ↦ rw (w, old, visit_name) (tt, λ k h. unfold contains in ground (arith, h))
      | inr new ↦ elim (Option-cases (find name_of r.tools n)) [
        | inl e ↦ rw (w, new, e, visit_name) (tt, λ k h. unfold contains in ground (arith, h))
        | inr (t, e) ↦
            rw (w, new, e, visit_name)
              (
                (ground (arith, find-name r.tools n e), tt),
                λ k h. unfold contains in ground (arith, h, find-name r.tools n e),
              )
      ]
    ]
  ]

  visit_names-Distinct :
      (r : ToolRegistry H) (ns seen : List String) → Distinct seen (names (visit_names r ns seen))
  unfolding visit_names
  visit_names-Distinct r [] seen = tt
  visit_names-Distinct r (n ∷ ns) seen =
      let (d, c) = visit_name-Visited r n seen in
      rw
        (map-append (λ d. d.name) (visit_name r n seen).0
          (visit_names r ns (visit_name r n seen).1))
        (Distinct-append seen (visit_name r n seen).1 (names (visit_name r n seen).0)
          (names (visit_names r ns (visit_name r n seen).1)) c d
          (visit_names-Distinct r ns (visit_name r n seen).1))

  -- No two definitions that `DefinitionsForNames` returns have the same name, whatever names and
  -- wildcards are asked for.
  definitions_for_names-Distinct :
      (r : ToolRegistry H) (ns : List String) → Distinct [] (names (definitions_for_names r ns))
  unfolding definitions_for_names
  definitions_for_names-Distinct r ns = visit_names-Distinct r ns []

  abbrev registered : List (RegisteredTool H) → List String
  registered ts = map name_of ts

  insert-keys :
      (t : RegisteredTool H) (ts : List (RegisteredTool H)) (k : String)
      → contains (registered (insert t ts)) k ≡ (str_eq (name_of t) k || contains (registered ts) k)
  unfolding insert contains
  insert-keys t [] k = refl
  insert-keys t (u ∷ ts) k = ground (arith, insert-keys t ts k)

  sort-keys :
      (ts : List (RegisteredTool H)) (k : String)
      → contains (registered (sort ts)) k ≡ contains (registered ts) k
  unfolding sort contains
  sort-keys [] k = refl
  sort-keys (t ∷ ts) k = insert-keys t (sort ts) k ∙ ground (arith, sort-keys ts k)

  found_keys :
      (ts : List (RegisteredTool H)) (k : String)
      → (elim (find name_of ts k) [ none ↦ false | some t ↦ true ]) ≡ contains (registered ts) k
  unfolding find contains
  found_keys [] k = refl
  found_keys (t ∷ ts) k = ground (arith, found_keys ts k)

  pub has-keys : (r : ToolRegistry H) (k : String) → has r k ≡ contains (registered r.tools) k
  unfolding has
  has-keys r k = found_keys r.tools k

  names-registered :
      (ts : List (RegisteredTool H)) → names (map (λ t. t.definition) ts) ≡ registered ts
  names-registered [] = refl
  names-registered (t ∷ ts) = ap (λ l. name_of t ∷ l) (names-registered ts)

  -- `Definitions` lists exactly the registered names.
  pub definitions-has :
      (r : ToolRegistry H) (k : String) → contains (names (definitions r)) k ≡ has r k
  unfolding definitions
  definitions-has r k =
      ap (λ l. contains l k) (names-registered (sort r.tools))
      ∙ sort-keys r.tools k
      ∙ sym (has-keys r k)
