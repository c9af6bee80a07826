-- ===== src/Outbox/Normalized.antt =====
-- What `normalizeTaskDeliveryRefs` (internal/core/agent_store.go) keeps of the refs.
use mathlib.Core.List.{Memᴰ}
use blueship.Outbox.{Ref, same_ref, has_ref, trimmed_ref, normalize_loop}
use blueship.Outbox.Owners.{same_ref_eq}
use blueship.Prelude.{
  Bool, true, false, not, ◌||◌, some, List, [], ◌∷◌, ◌≡◌, ◌⊎◌, refl, sym, ap, arith, subst, inl,
  inr, Bool-cases, Option-cases, str_eq,
}

-- Both names of the ref are more than space.
abbrev pub is_named : Ref → Bool
is_named r = not (str_eq (trimmed_ref r).input_id "" || str_eq (trimmed_ref r).item_key "")

-- One turn of the loop: the ref is skipped or kept, and the rest is a run of the loop.
data Turn (seen : List Ref) (r : Ref) (refs out : List Ref) : Type 0 where
  unnamed : is_named r ≡ false → normalize_loop seen refs ≡ some out → Turn seen r refs out
  seen_before :
      has_ref (trimmed_ref r) seen ≡ true
      → normalize_loop seen refs ≡ some out
      → Turn seen r refs out
  kept :
      (rest : List Ref)
      → is_named r ≡ true
      → normalize_loop (trimmed_ref r ∷ seen) refs ≡ some rest
      → out ≡ trimmed_ref r ∷ rest
      → Turn seen r refs out

turn :
    (seen : List Ref) (r : Ref) (refs out : List Ref)
    → normalize_loop seen (r ∷ refs) ≡ some out
    → Turn seen r refs out
unfolding normalize_loop
turn seen r refs out h = elim (Bool-cases (is_named r)) [
  | inr blank ↦ unnamed blank (ground arith)
  | inl named ↦ elim (Bool-cases (has_ref (trimmed_ref r) seen)) [
    | inl old ↦ seen_before old (ground arith)
    | inr fresh ↦ elim (Option-cases (normalize_loop (trimmed_ref r ∷ seen) refs)) [
      | inl e ↦ absurd (ground (arith, e))
      | inr (rest, e) ↦ kept rest named e (ground (arith, e))
    ]
  ]
]

abbrev pub Covered : List Ref → List Ref → Ref → Type 0
Covered seen out x = (has_ref x seen ≡ true) ⊎ Memᴰ x out

grown : (s x : Ref) (seen rest : List Ref) → Covered (s ∷ seen) rest x → Covered seen (s ∷ rest) x
unfolding has_ref
grown s x seen rest (inr m) = inr (Memᴰ.tail m)
grown s x seen rest (inl h) = elim (Bool-cases (same_ref s x)) [
  | inl e ↦ inr (Memᴰ.head (sym (same_ref_eq s x e)))
  | inr e ↦ inl (ground arith)
]

pub normalize_loop-covers :
    (refs seen out : List Ref)
    → normalize_loop seen refs ≡ some out
    → (r : Ref) → Memᴰ r refs
    → is_named r ≡ true
    → Covered seen out (trimmed_ref r)
normalize_loop-covers [] seen out h r m named = elim m [ ]
normalize_loop-covers (s ∷ refs) seen out h r (Memᴰ.head e) named = elim (turn seen s refs out h) [
  | unnamed blank rest ↦ absurd (ground (arith, e))
  | seen_before old rest ↦ inl (subst (λ x. has_ref (trimmed_ref x) seen ≡ true) (sym e) old)
  | kept rest n run is ↦ inr (subst (Memᴰ (trimmed_ref r)) (sym is) (Memᴰ.head (ap trimmed_ref e)))
]
normalize_loop-covers (s ∷ refs) seen out h r (Memᴰ.tail m) named = elim (turn seen s refs out h) [
  | unnamed blank run ↦ normalize_loop-covers refs seen out run r m named
  | seen_before old run ↦ normalize_loop-covers refs seen out run r m named
  | kept rest n run is ↦
      subst (λ o. Covered seen o (trimmed_ref r)) (sym is)
        (grown (trimmed_ref s) (trimmed_ref r) seen rest
          (normalize_loop-covers refs (trimmed_ref s ∷ seen) rest run r m named))
]

-- Where a ref of the result comes from.
abbrev pub Origin : List Ref → Ref → Type 0
Origin refs x = (r : Ref) × Memᴰ r refs × (is_named r ≡ true) × (x ≡ trimmed_ref r)

further : (s x : Ref) (refs : List Ref) → Origin refs x → Origin (s ∷ refs) x
further s x refs (r, m, named, is) = (r, Memᴰ.tail m, named, is)

Origin-cons :
    (s x : Ref) (refs rest : List Ref)
    → is_named s ≡ true
    → ((y : Ref) → Memᴰ y rest → Origin refs y)
    → Memᴰ x (trimmed_ref s ∷ rest)
    → Origin (s ∷ refs) x
Origin-cons s x refs rest named from (Memᴰ.head e) = (s, Memᴰ.head refl, named, e)
Origin-cons s x refs rest named from (Memᴰ.tail m) = further s x refs (from x m)

no_member : (x : Ref) → Memᴰ x [] → ⊥
no_member x m = elim m [ ]

pub normalize_loop-Origin :
    (refs seen out : List Ref)
    → normalize_loop seen refs ≡ some out
    → (x : Ref) → Memᴰ x out
    → Origin refs x
normalize_loop-Origin [] seen out h x m =
    let none_left : out ≡ [] = unfold normalize_loop in ground arith in
    absurd (no_member x (subst (Memᴰ x) none_left m))
normalize_loop-Origin (s ∷ refs) seen out h x m = elim (turn seen s refs out h) [
  | unnamed blank run ↦ further s x refs (normalize_loop-Origin refs seen out run x m)
  | seen_before old run ↦ further s x refs (normalize_loop-Origin refs seen out run x m)
  | kept rest n run is ↦
      Origin-cons s x refs rest n (normalize_loop-Origin refs (trimmed_ref s ∷ seen) rest run)
        (subst (Memᴰ x) is m)
]
