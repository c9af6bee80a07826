-- ===== src/TaskSteps/Fields.antt =====
-- The first loop of `ValidateTaskSteps`: it accepts exactly the filled steps with distinct ids.
use Prim.Native.String.{len}
use blueship.Prelude.Int.{ℤ, pos, negsuc, lt_nat, nat_lt}
use blueship.Prelude.{
  ℕ, zero, suc, ◌≤◌, String, true, false, ◌||◌, Option, none, some, List, [], ◌∷◌, ◌++◌, ◌≡◌, ◌≢◌,
  ◌↔◌, ◌⊎◌, inl, inr, refl, sym, ◌∙◌, ap, is_blank, arith, All, contains, append_assoc, append-nil,
  eq_iff, Option-cases,
}
use blueship.Graph.Order.{Distinct}
use blueship.Graph.Nodes.{find, ids, find-none_iff, SameKeys, SameKeys-snoc}
use blueship.TaskSteps.{
  key, TaskStep, PlanError, ok, err, admit, collect, is_kind, has_bad_estimate, lacks_field,
}

-- What the comment on `TaskStep` asks of one step, apart from its dependencies.
pub record IsFilled (s : TaskStep) : Type 0 where
  pub named : s.id ≢ ""
  pub short : len s.id ≤ 80
  pub goal : is_blank s.goal ≡ false
  pub acceptance : is_blank s.acceptance ≡ false
  pub kind : (s.kind ≡ "read") ⊎ (s.kind ≡ "action") ⊎ (s.kind ≡ "finalize")
  pub attempts : (n : ℕ) × (s.max_attempts ≡ pos n) × (n ≤ 10)
  pub estimate : (s.estimated_ms ≡ none) ⊎ ((n : ℕ) × (s.estimated_ms ≡ some (pos (suc n))))

none≢some : {e : PlanError} → none ≡ some e → ⊥
none≢some h = cc

lacks_field-false :
    (s : TaskStep)
    → (lacks_field s ≡ false) ↔ (
        (s.id ≢ "") × (len s.id ≤ 80) × (is_blank s.goal ≡ false) × (is_blank s.acceptance ≡ false))
unfolding lacks_field
lacks_field-false s = (
  λ h. (
    ground (arith, eq_iff s.id ""),
    ground (arith, eq_iff s.id ""),
    ground (arith, eq_iff s.id ""),
    ground (arith, eq_iff s.id ""),
  ),
  λ (a, b, c, d). ground (arith, eq_iff s.id ""),
)

is_kind_iff : (k : String) → (is_kind k ≡ true) ↔ ((k ≡ "read") ⊎ (k ≡ "action") ⊎ (k ≡ "finalize"))
unfolding is_kind
is_kind_iff k = ground (arith, eq_iff k "read", eq_iff k "action", eq_iff k "finalize")

attempts_iff : (z : ℤ) → ((lt_nat z 0 || nat_lt 10 z) ≡ false) ↔ ((n : ℕ) × (z ≡ pos n) × (n ≤ 10))
attempts_iff (pos n) = (λ h. (n, refl, ground arith), λ (m, e, h). ground arith)
attempts_iff (negsuc n) = (λ h. cc, λ (m, e, h). cc)

estimate_iff :
    (o : Option ℤ)
    → (has_bad_estimate o ≡ false) ↔ ((o ≡ none) ⊎ ((n : ℕ) × (o ≡ some (pos (suc n)))))
unfolding has_bad_estimate
estimate_iff none = (λ h. inl refl, λ h. refl)
estimate_iff (some (pos zero)) = (λ h. cc, λ h. ground arith)
estimate_iff (some (pos (suc n))) = (λ h. inr (n, refl), λ h. ground arith)
estimate_iff (some (negsuc n)) = (λ h. cc, λ h. ground arith)

admit_iff :
    (by_id : List TaskStep) (s : TaskStep)
    → (admit by_id s ≡ none) ↔ (
        (lacks_field s ≡ false)
        × (find key by_id s.id ≡ none)
        × (is_kind s.kind ≡ true)
        × ((lt_nat s.max_attempts 0 || nat_lt 10 s.max_attempts) ≡ false)
        × (has_bad_estimate s.estimated_ms ≡ false))
unfolding admit
admit_iff by_id s = (
  λ h. (ground arith, ground arith, ground arith, ground arith, ground arith),
  λ (a, b, c, d, e). ground arith,
)

-- One step is let into the map exactly if it is filled and its id is new.
pub admit-none :
    (by_id : List TaskStep) (s : TaskStep)
    → (admit by_id s ≡ none) ↔ (IsFilled s × (contains (ids key by_id) s.id ≡ false))
admit-none by_id s = (
  λ h.
      let (a, b, c, d, e) = (admit_iff by_id s).0 h in
      let (named, short, goal, acceptance) = (lacks_field-false s).0 a in
      (
        record {
          named = named;
          short = short;
          goal = goal;
          acceptance = acceptance;
          kind = (is_kind_iff s.kind).0 c;
          attempts = (attempts_iff s.max_attempts).0 d;
          estimate = (estimate_iff s.estimated_ms).0 e;
        },
        (find-none_iff key by_id s.id).0 b,
      ),
  λ (f, new). (admit_iff by_id s).1 (
    (lacks_field-false s).1 (f.named, f.short, f.goal, f.acceptance),
    (find-none_iff key by_id s.id).1 new,
    (is_kind_iff s.kind).1 f.kind,
    (attempts_iff s.max_attempts).1 f.attempts,
    (estimate_iff s.estimated_ms).1 f.estimate,
  ),
)

abbrev pub Admitted : List String → List TaskStep → Type 0
Admitted seen ss = All IsFilled ss × Distinct seen (ids key ss)

-- The loop ends without an error exactly on filled steps with ids key that are all new.
pub collect-cases :
    (seen : List String) (by_id ss : List TaskStep)
    → SameKeys key seen by_id
    → (Admitted seen ss × (collect by_id ss ≡ ok (by_id ++ ss)))
      ⊎ ((¬ Admitted seen ss) × (e : PlanError) × (collect by_id ss ≡ err e))
unfolding collect
collect-cases seen by_id [] same = inl ((tt, tt), rw append-nil)
collect-cases seen by_id (s ∷ ss) same = elim (Option-cases (admit by_id s)) [
  | inl fine ↦
      let (filled, new) = (admit-none by_id s).0 fine in
      elim (collect-cases (s.id ∷ seen) (by_id ++ s ∷ []) ss
        (SameKeys-snoc key seen by_id s same)) [
          | inl ((all, distinct), e) ↦ inl (
            ((filled, all), (same s.id ∙ new, distinct)),
            rw (fine, collect) (e ∙ ap ok (append_assoc by_id (s ∷ []) ss)),
          )
          | inr (fails, e, h) ↦
              inr (λ (all, distinct). fails (all.1, distinct.1), e, rw (fine, collect) h)
        ]
  | inr (e, bad) ↦ inr (
    λ (all, distinct).
        none≢some (sym ((admit-none by_id s).1 (all.0, sym (same s.id) ∙ distinct.0)) ∙ bad),
    e,
    rw (bad, collect) refl,
  )
]
