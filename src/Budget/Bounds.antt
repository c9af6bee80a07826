-- ===== src/Budget/Bounds.antt =====
-- Bounds on the estimate of tokens and on the budget.
use Prim.Native.Char.{Char, code, len_utf8, len_utf8_def, width}
use Prim.Native.Nat.{compare}
use Prim.Native.String.len.{cons}
use Prim.Native.String.{len}
use blueship.Prelude.Int.{ℤ, pos, negsuc, nat_lt}
use blueship.Prelude.{
  ℕ, zero, suc, ◌+◌, ◌*◌, ◌≤◌, ◌<◌, String, true, Option, some, ◌≡◌, ◌≢◌, ◌⊎◌, inl, inr, refl,
  arith, eq_iff, Bool-cases,
}
use blueship.Budget.{
  Limits, configured, MessageBudgetRequest, runes, estimate_text_tokens, calculated_message_budget,
  resolve_message_budget,
}

char_min : (c : Char) → 1 ≤ len_utf8 c
char_min c =
    let at : len_utf8 c
        ≡ width (compare (code c) 128) (compare (code c) 2048) (compare (code c) 65536) =
      len_utf8_def c in
    ground (arith, at)

runes-le-len : (s : String) → runes s ≤ len s
unfolding runes
runes-le-len String.[] = omega arith
runes-le-len (String.◌∷◌ c s) =
    let at : len (String.◌∷◌ c s) ≡ len_utf8 c + len s = cons c s in
    omega (arith, at, char_min c, runes-le-len s)

runes_min : (s : String) → s ≢ "" → 1 ≤ runes s
unfolding runes
runes_min String.[] n = absurd (n refl)
runes_min (String.◌∷◌ c s) n = omega arith

-- A text that is not empty is taken for at least one token, for at least a third of its
-- characters, and for at most as many tokens as it has bytes.
estimate_text_tokens-bounds :
    (s : String)
    → s ≢ ""
    → (1 ≤ estimate_text_tokens s)
      × (runes s ≤ 3 * estimate_text_tokens s)
      × (estimate_text_tokens s ≤ len s)
unfolding estimate_text_tokens
estimate_text_tokens-bounds s n = ground (arith, runes-le-len s, runes_min s n, eq_iff s "")

positive_of : (z : ℤ) → nat_lt 0 z ≡ true → (k : ℕ) × (z ≡ pos (suc k))
positive_of (pos zero) h = cc
positive_of (pos (suc k)) h = (k, refl)
positive_of (negsuc k) h = cc

-- The budget is positive, whatever the request.
pub resolve_message_budget-positive :
    (r : MessageBudgetRequest) → (k : ℕ) × ((resolve_message_budget r).budget ≡ pos (suc k))
unfolding resolve_message_budget
resolve_message_budget-positive r = elim (Bool-cases (nat_lt 0 r.explicit_budget)) [
  | inl a ↦ rw (a, resolve_message_budget) (positive_of r.explicit_budget a)
  | inr a ↦ elim (Bool-cases (nat_lt 0 r.model_budget)) [
    | inl b ↦ rw (a, b, resolve_message_budget) (positive_of r.model_budget b)
    | inr b ↦ elim (Bool-cases (nat_lt 0 (configured r.limits))) [
      | inl c ↦ rw (a, b, c, resolve_message_budget) (positive_of (configured r.limits) c)
      | inr c ↦ elim (Bool-cases (nat_lt 0 (calculated_message_budget r))) [
        | inl d ↦
            rw (a, b, c, d, resolve_message_budget) (positive_of (calculated_message_budget r) d)
        | inr d ↦ rw (a, b, c, d, resolve_message_budget) (5999, refl)
      ]
    ]
  ]
]

-- No configured minimum is above `b`.
abbrev pub IsEnough : Option Limits → ℕ → Type 0
IsEnough limits b = (l : Limits) (m : ℕ) → limits ≡ some l → l.min_message_budget ≡ pos m → m ≤ b

abbrev pub Fits : ℤ → ℕ → Option Limits → ℕ → Type 0
Fits context used limits b =
    (c : ℕ) × (context ≡ pos c)
    × (((b + used ≡ c) × IsEnough limits b)
        ⊎ ((l : Limits) × (limits ≡ some l) × (l.min_message_budget ≡ pos b) × (c < b + used)))
