-- ===== src/Outbox/Lookups.antt =====
-- `LookupDelivered` after `MarkDelivered`, and later in any history of the journal.
use mathlib.Core.List.{Memᴰ}
use blueship.Outbox.{
  Ref, Delivery, Journal, ok, same_ref, has_ref, trimmed_ref, normalize_loop,
  normalize_task_delivery_refs,
}
use blueship.Outbox.Normalized.{
  is_named, Covered, Origin, normalize_loop-covers, normalize_loop-Origin,
}
use blueship.Outbox.Resolution.{Parsed, is_delivered}
use blueship.Outbox.Steps.{Deployment, Reach}
use blueship.Outbox.Ledger.{is_known, taken_refs, lookup_delivered, mark_refs, mark_delivered}
use blueship.Outbox.Kept.{Reach-Keeps}
use blueship.Prelude.{
  ℕ, String, Bool, true, false, some, List, [], ◌∷◌, ◌≡◌, refl, ap, arith, Option-cases, inl, inr,
  eq_iff, if◌then◌else◌, subst, sym, true≢false,
}

same_ref_refl : (r : Ref) → same_ref r r ≡ true
unfolding same_ref
same_ref_refl r = ground (arith, eq_iff r.input_id r.input_id, eq_iff r.item_key r.item_key)

choice-sub :
    (b c : Bool) (s r : Ref) (xs ys : List Ref)
    → (b ≡ true → c ≡ true)
    → (Memᴰ r xs → Memᴰ r ys)
    → Memᴰ r (if b then s ∷ xs else xs)
    → Memᴰ r (if c then s ∷ ys else ys)
choice-sub true true s r xs ys imp sub (Memᴰ.head e) = Memᴰ.head e
choice-sub true true s r xs ys imp sub (Memᴰ.tail m) = Memᴰ.tail (sub m)
choice-sub true false s r xs ys imp sub m = absurd (true≢false (sym (imp refl)))
choice-sub false true s r xs ys imp sub m = Memᴰ.tail (sub m)
choice-sub false false s r xs ys imp sub m = sub m

unseen : (x : Ref) (out : List Ref) → Covered [] out x → Memᴰ x out
unfolding has_ref
unseen x out (inl h) = absurd (ground arith)
unseen x out (inr m) = m

module _ (task : ℕ) where
  -- A lookup in a journal where no ref is free that was taken reports no less.
  taken_refs-sub :
      (j k : Journal)
      → ((r : Ref) → is_known task j r ≡ true → is_known task k r ≡ true)
      → (refs : List Ref) (r : Ref) → Memᴰ r (taken_refs task j refs)
      → Memᴰ r (taken_refs task k refs)
  unfolding taken_refs
  taken_refs-sub j k keeps [] r m = m
  taken_refs-sub j k keeps (s ∷ refs) r m =
      choice-sub (is_known task j s) (is_known task k s) s r (taken_refs task j refs)
        (taken_refs task k refs) (keeps s) (taken_refs-sub j k keeps refs r) m

  mark_refs-delivered :
      (refs : List Ref) (r : Ref) (ds : List Delivery)
      → Memᴰ r refs
      → is_delivered task r (mark_refs task refs ds) ≡ true
  unfolding mark_refs is_delivered
  mark_refs-delivered [] r ds m = elim m [ ]
  mark_refs-delivered (s ∷ refs) r ds (Memᴰ.head e) =
      subst (λ x. is_delivered task x (mark_refs task (s ∷ refs) ds) ≡ true) (sym e)
        (ground (arith, same_ref_refl s))
  mark_refs-delivered (s ∷ refs) r ds (Memᴰ.tail m) =
      ground (arith, mark_refs-delivered refs r ds m)

  taken_refs-all :
      (j : Journal) (refs : List Ref)
      → ((r : Ref) → Memᴰ r refs → is_known task j r ≡ true)
      → taken_refs task j refs ≡ refs
  unfolding taken_refs
  taken_refs-all j [] all = refl
  taken_refs-all j (s ∷ refs) all =
      rw (all s (Memᴰ.head refl))
        (ap (λ rest. s ∷ rest) (taken_refs-all j refs (λ r m. all r (Memᴰ.tail m))))

  -- After MarkDelivered has returned, LookupDelivered of the same refs returns, and reports every one
  -- of them that has two names which are more than space, trimmed, and nothing else.
  pub lookup-mark_delivered :
      (refs : List Ref) (j k : Journal)
      → mark_delivered task refs j ≡ (k, ok tt)
      → (found : List Ref) × (lookup_delivered task refs k ≡ ok found)
        × ((r : Ref) → Memᴰ r refs → is_named r ≡ true → Memᴰ (trimmed_ref r) found)
        × ((x : Ref) → Memᴰ x found → Origin refs x)
  lookup-mark_delivered refs j k h = elim (Option-cases (normalize_task_delivery_refs refs)) [
    | inl n ↦ absurd (unfold mark_delivered in ground arith)
    | inr (wanted, n) ↦
        let marked : k.deliveries ≡ mark_refs task wanted j.deliveries =
          unfold mark_delivered in ground arith in
        let all : taken_refs task k wanted ≡ wanted = taken_refs-all k wanted (λ r m.
          unfold is_known in ground (arith, marked, mark_refs-delivered wanted r j.deliveries m)) in
        let run : normalize_loop [] refs ≡ some wanted = unfold normalize_task_delivery_refs in n in
        (
          wanted,
          unfold lookup_delivered in ground (arith, all),
          λ r m named.
              unseen (trimmed_ref r) wanted (normalize_loop-covers refs [] wanted run r m named),
          normalize_loop-Origin refs [] wanted run,
        )
  ]

  module _ (key : List Ref → String) (parse : String → Parsed) where
    -- What LookupDelivered reports of a task it reports ever after, whatever senders, finalizations,
    -- the gateway and crashes do in between: no ref that was taken is free again, so a program does
    -- not generate its notification a second time.
    pub lookup_delivered-lasts :
        (refs found : List Ref) (w v : Deployment)
        → lookup_delivered task refs w.journal ≡ ok found
        → Reach key parse w v
        → (later : List Ref) × (lookup_delivered task refs v.journal ≡ ok later)
          × ((r : Ref) → Memᴰ r found → Memᴰ r later)
    lookup_delivered-lasts refs found w v h reach =
        elim (Option-cases (normalize_task_delivery_refs refs)) [
          | inl n ↦ absurd (unfold lookup_delivered in ground arith)
          | inr (wanted, n) ↦
              let was : taken_refs task w.journal wanted ≡ found =
                unfold lookup_delivered in ground arith in
              (
                taken_refs task v.journal wanted,
                unfold lookup_delivered in ground arith,
                λ r m.
                    taken_refs-sub w.journal v.journal (λ x. Reach-Keeps task x key parse reach)
                      wanted r (subst (Memᴰ r) (sym was) m),
              )
        ]
