-- ===== src/Outbox/Owners.antt =====
-- Every occurrence of a task is reserved by at most one attempt, forever.
use blueship.Outbox.{
  Ref, Item, Journal, same_ref, normalize_task_delivery_refs, sort_task_delivery_refs,
}
use blueship.Outbox.Ops.{
  is_reserved, reserve_items, find_occurrence, existing_attempt, insert_attempt, admit,
  begin_normalized, begin_notification_attempt, queue_items, queue_attempt,
}
use blueship.Prelude.{
  ℕ, String, Bool, true, false, ◌&&◌, ◌||◌, inl, inr, Option, none, some, List, [], ◌∷◌, ◌==◌, ◌≡◌,
  sym, ◌∙◌, ap, Bool-cases, eq_iff, arith, subst, length, Option-cases, is_blank,
}

-- The attempt has a row for this occurrence.
unfoldable pub owns : ℕ → Ref → List Item → ℕ → Bool
owns task r [] id = false
owns task r (i ∷ items) id =
    (i.attempt_id == id && (i.task_id == task && same_ref i.ref r)) || owns task r items id

abbrev pub IsUnique : List Item → Type 0
IsUnique [] = Unit
IsUnique (i ∷ items) = (is_reserved i.task_id i.ref items ≡ false) × IsUnique items

pub same_ref_eq : (a b : Ref) → same_ref a b ≡ true → a ≡ b
unfolding same_ref
same_ref_eq a b h = ground (arith, eq_iff a.input_id b.input_id, eq_iff a.item_key b.item_key)

owns-is_reserved :
    (task : ℕ) (r : Ref) (items : List Item) (id : ℕ)
    → owns task r items id ≡ true
    → is_reserved task r items ≡ true
unfolding owns is_reserved
owns-is_reserved task r [] id h = cc
owns-is_reserved task r (i ∷ items) id h = ground (arith, owns-is_reserved task r items id)

-- The first row of an occurrence is the only one.
first-owns :
    (task : ℕ) (r : Ref) (i : Item) (items : List Item) (id : ℕ)
    → is_reserved i.task_id i.ref items ≡ false
    → (i.task_id == task && same_ref i.ref r) ≡ true
    → owns task r (i ∷ items) id ≡ true
    → i.attempt_id ≡ id
unfolding owns
first-owns task r i items id free hit h = elim (Bool-cases (i.attempt_id == id)) [
  | inl same ↦ ground (arith, same)
  | inr apart ↦
      let e : i.task_id ≡ task = ground (arith, hit) in
      let f : i.ref ≡ r = same_ref_eq i.ref r (ground (arith, hit)) in
      let later : owns task r items id ≡ true = ground (arith, apart, h) in
      absurd (
        cc (
          free,
          owns-is_reserved task r items id later,
          ap (λ t. is_reserved t i.ref items) e,
          ap (λ r. is_reserved task r items) f,
        ))
]

pub owns_unique :
    (task : ℕ) (r : Ref) (items : List Item) (a b : ℕ)
    → IsUnique items
    → owns task r items a ≡ true
    → owns task r items b ≡ true
    → a ≡ b
unfolding owns
owns_unique task r [] a b u ha hb = cc
owns_unique task r (i ∷ items) a b u ha hb =
    elim (Bool-cases (i.task_id == task && same_ref i.ref r)) [
      | inl hit ↦
          sym (first-owns task r i items a u.0 hit ha) ∙ first-owns task r i items b u.0 hit hb
      | inr miss ↦ owns_unique task r items a b u.1 (later a miss ha) (later b miss hb)
    ]
  where
    later :
        (id : ℕ)
        → (i.task_id == task && same_ref i.ref r) ≡ false
        → owns task r (i ∷ items) id ≡ true
        → owns task r items id ≡ true
    later id miss h = ground (arith, miss, h)

reserve_items-IsUnique :
    (id task : ℕ) (refs : List Ref) (items : List Item)
    → IsUnique items
    → IsUnique (reserve_items id task refs items).0
unfolding reserve_items
reserve_items-IsUnique id task [] items u = u
reserve_items-IsUnique id task (r ∷ refs) items u = elim (Bool-cases (is_reserved task r items)) [
  | inl taken ↦ rw taken (reserve_items-IsUnique id task refs items u)
  | inr free ↦ rw free (
      reserve_items-IsUnique id task refs
        (record { attempt_id = id; task_id = task; ref = r } ∷ items) (free, u))
]

module _ (key : List Ref → String) (now fresh task user : ℕ) (text : String) (j : Journal) where
  existing_attempt-items :
      (refs : List Ref) → (existing_attempt key task user refs j).0.items ≡ j.items
  unfolding existing_attempt
  existing_attempt-items refs = ground arith

  insert_attempt-IsUnique :
      (refs : List Ref)
      → IsUnique j.items
      → IsUnique (insert_attempt key now fresh task user text refs j).0.items
  unfolding insert_attempt
  insert_attempt-IsUnique refs u =
      elim (Bool-cases ((reserve_items fresh task refs j.items).1 == length refs)) [
        | inl all ↦ rw all (reserve_items-IsUnique fresh task refs j.items u)
        | inr some_taken ↦ rw some_taken u
      ]

  admit-IsUnique :
      (owned : Bool) (refs : List Ref)
      → IsUnique j.items
      → IsUnique (admit key now fresh owned task user text refs j).0.items
  unfolding admit
  admit-IsUnique false refs u = subst IsUnique (sym (existing_attempt-items refs)) u
  admit-IsUnique true refs u = elim (Option-cases (find_occurrence task (key refs) j.attempts)) [
    | inl missing ↦ rw (missing, admit) (insert_attempt-IsUnique refs u)
    | inr (a, found) ↦ rw (found, admit) (subst IsUnique (sym (existing_attempt-items refs)) u)
  ]

  normalized-IsUnique :
      (owned : Bool) (o : Option (List Ref))
      → IsUnique j.items
      → IsUnique (begin_normalized key now fresh owned task user text o j).0.items
  unfolding begin_normalized
  normalized-IsUnique owned none u = u
  normalized-IsUnique owned (some []) u = u
  normalized-IsUnique owned (some (r ∷ rs)) u =
      admit-IsUnique owned (sort_task_delivery_refs (r ∷ rs)) u

  pub begin-IsUnique :
      (owned : Bool) (refs : List Ref)
      → IsUnique j.items
      → IsUnique (begin_notification_attempt key now fresh owned task user text refs j).0.items
  unfolding begin_notification_attempt
  begin-IsUnique owned refs u = elim (Bool-cases (task == 0 || user == 0)) [
    | inl ids ↦ rw ids u
    | inr ids ↦ elim (Bool-cases (is_blank text)) [
      | inl blank ↦ rw (ids, blank) u
      | inr words ↦
          rw (ids, words) (normalized-IsUnique owned (normalize_task_delivery_refs refs) u)
    ]
  ]

  pub queue-IsUnique :
      (refs : List Ref) (k : Journal)
      → queue_attempt key now fresh task user text refs j ≡ some k
      → IsUnique j.items
      → IsUnique k.items
  unfolding queue_attempt queue_items
  queue-IsUnique refs k h u =
      let e : k.items ≡ (reserve_items fresh task refs j.items).0 = ground (arith, h) in
      subst IsUnique (sym e) (reserve_items-IsUnique fresh task refs j.items u)
