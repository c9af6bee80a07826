-- ===== src/SplitMessage/Limits.antt =====
-- The place at which `splitMessage` cuts: inside the window, and after a line break if it is early.
use blueship.SplitMessage.{newline_at, paragraph_at, cut_loop, cut_of, cut}
use blueship.Prelude.{
  ℕ, zero, suc, ◌-◌, ◌/◌, ◌≤◌, ◌<◌, true, ◌≡◌, refl, ◌⊎◌, inl, inr, List, leb, ◌==◌, ◌&&◌,
  if◌then◌else◌, arith, Bool-cases,
}

-- A cut in the window, right after a newline.
unfoldable pub IsBreak : List ℕ → ℕ → ℕ → Type 0
IsBreak runes max_len n = (max_len / 4 < n) × (n ≤ max_len) × (newline_at runes (n - 1) ≡ true)

-- What the loop may remember of line breaks.
IsNoted : List ℕ → ℕ → ℕ → Type 0
IsNoted runes max_len single = (single ≡ 0) ⊎ IsBreak runes max_len single

-- Where the loop may end.
unfoldable pub IsEnd : List ℕ → ℕ → ℕ → Type 0
IsEnd runes max_len n = (n ≡ max_len) ⊎ IsBreak runes max_len n

cut_loop-IsEnd :
    (runes : List ℕ) (max_len single i : ℕ)
    → i ≤ max_len
    → IsEnd runes max_len (cut_loop runes max_len single i).cut_at
unfolding cut_loop paragraph_at IsBreak IsEnd
cut_loop-IsEnd runes max_len single zero h = inl refl
cut_loop-IsEnd runes max_len single (suc j) h =
    let single' = if newline_at runes j && single == 0 then suc j else single in
    ground (arith, cut_loop-IsEnd runes max_len single' j (omega arith))

IsNoted-step :
    (runes : List ℕ) (max_len single j : ℕ)
    → suc j ≤ max_len
    → max_len / 4 < suc j
    → IsNoted runes max_len single
    → IsNoted runes max_len (if newline_at runes j && single == 0 then suc j else single)
unfolding IsBreak IsNoted
IsNoted-step runes max_len single j h low s = ground arith

cut_loop-IsNoted :
    (runes : List ℕ) (max_len single i : ℕ)
    → i ≤ max_len
    → IsNoted runes max_len single
    → IsNoted runes max_len (cut_loop runes max_len single i).single_newline
unfolding cut_loop
cut_loop-IsNoted runes max_len single zero h s = s
cut_loop-IsNoted runes max_len single (suc j) h s = elim (Bool-cases (leb (suc j) (max_len / 4))) [
  | inl t ↦ ground arith
  | inr f ↦ ground (
    arith,
    cut_loop-IsNoted runes max_len (if newline_at runes j && single == 0 then suc j else single) j
        (omega arith) (IsNoted-step runes max_len single j h (ground arith) s),
  )
]

-- The cut lies in the window, and right after a newline if it is early.
pub cut-IsEnd : (runes : List ℕ) (max_len : ℕ) → IsEnd runes max_len (cut runes max_len)
unfolding cut cut_of IsEnd IsNoted
cut-IsEnd runes max_len = ground (
  arith,
  cut_loop-IsEnd runes max_len 0 max_len (omega arith),
  cut_loop-IsNoted runes max_len 0 max_len (omega arith) (inl refl),
)

-- A paragraph break that the loop has before it is not passed over.
cut_loop-paragraph_at :
    (runes : List ℕ) (max_len single i k : ℕ)
    → k ≤ i
    → max_len / 4 < k
    → paragraph_at runes k ≡ true
    → (k ≤ (cut_loop runes max_len single i).cut_at)
      × ((cut_loop runes max_len single i).cut_at ≤ i)
      × (paragraph_at runes (cut_loop runes max_len single i).cut_at ≡ true)
unfolding cut_loop
cut_loop-paragraph_at runes max_len single zero k h low p = absurd (omega (arith, h, low))
cut_loop-paragraph_at runes max_len single (suc j) k h low p =
    elim (Bool-cases (paragraph_at runes (suc j))) [
      | inl t ↦ ground arith
      | inr f ↦
          let low' : k ≤ j = ground arith in
          ground (
            arith,
            cut_loop-paragraph_at runes max_len
                (if newline_at runes j && single == 0 then suc j else single) j k low' low p,
          )
    ]

-- With a paragraph break in the window, the cut is at a paragraph break, and not before that one.
pub cut-paragraph_at :
    (runes : List ℕ) (max_len k : ℕ)
    → k ≤ max_len
    → max_len / 4 < k
    → paragraph_at runes k ≡ true
    → (k ≤ cut runes max_len) × (paragraph_at runes (cut runes max_len) ≡ true)
unfolding cut cut_of cut_loop
cut-paragraph_at runes zero k h low p = absurd (omega (arith, h, low))
cut-paragraph_at runes (suc m) k h low p = elim (Bool-cases (paragraph_at runes (suc m))) [
  | inl t ↦ ground arith
  | inr f ↦
      let low' : k ≤ m = ground arith in
      ground (
        arith,
        cut_loop-paragraph_at runes (suc m) (if newline_at runes m then suc m else 0) m k low' low
            p,
      )
]
