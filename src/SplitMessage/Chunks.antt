-- ===== src/SplitMessage/Chunks.antt =====
-- What the chunks of `splitMessage` are together: the text, in pieces that fit.
use blueship.SplitMessage.{cut, split_loop, split_message}
use blueship.SplitMessage.Limits.{IsBreak, IsEnd, cut-IsEnd}
use blueship.Prelude.Int.{pos}
use blueship.Prelude.{
  ℕ, zero, suc, ◌-◌, ◌≤◌, ◌<◌, false, ◌≡◌, refl, ap, List, [], ◌∷◌, ◌++◌, length, take, drop, All,
  leb, arith, append-nil,
}

unfoldable pub concat : List (List ℕ) → List ℕ
concat [] = []
concat (x ∷ xs) = x ++ concat xs

take-drop : (n : ℕ) (xs : List ℕ) → take n xs ++ drop n xs ≡ xs
take-drop zero xs = refl
take-drop (suc n) [] = refl
take-drop (suc n) (x ∷ xs) = ap (λ r. x ∷ r) (take-drop n xs)

length-drop : (n : ℕ) (xs : List ℕ) → length (drop n xs) ≡ length xs - n
length-drop zero xs = omega arith
length-drop (suc n) [] = omega arith
length-drop (suc n) (x ∷ xs) = omega (arith, length-drop n xs)

length-take : (n : ℕ) (xs : List ℕ) → n ≤ length xs → length (take n xs) ≡ n
length-take zero xs h = refl
length-take (suc n) [] h = absurd (omega (arith, h))
length-take (suc n) (x ∷ xs) h = omega (arith, length-take n xs (omega (arith, h)))

-- The cut is never at 0 and never past the limit.
cut-bounds : (runes : List ℕ) (m : ℕ) → (0 < cut runes (suc m)) × (cut runes (suc m) ≤ suc m)
unfolding IsEnd IsBreak
cut-bounds runes m = ground (arith, cut-IsEnd runes (suc m))

fuel_left : (fuel n : ℕ) (xs : List ℕ) → length xs ≤ suc fuel → 0 < n → length (drop n xs) ≤ fuel
fuel_left fuel n xs h low = omega (arith, length-drop n xs, h, low)

concat-split_loop :
    (fuel m : ℕ) (text : List ℕ) → length text ≤ fuel → concat (split_loop fuel (suc m) text) ≡ text
unfolding split_loop concat
concat-split_loop fuel m [] h = refl
concat-split_loop zero m (r ∷ rs) h = absurd (omega (arith, h))
concat-split_loop (suc fuel) m (r ∷ rs) h =
    let n = cut (r ∷ rs) (suc m) in
    ground (
      arith,
      concat-split_loop fuel m (drop n (r ∷ rs))
          (fuel_left fuel n (r ∷ rs) h (cut-bounds (r ∷ rs) m).0),
      take-drop n (r ∷ rs),
      append-nil rs,
    )

-- A chunk that fits the limit and is not empty.
unfoldable pub Fits : ℕ → List ℕ → Type 0
Fits max_len chunk = (0 < length chunk) × (length chunk ≤ max_len)

taken-Fits :
    (m : ℕ) (text : List ℕ) → suc m < length text → Fits (suc m) (take (cut text (suc m)) text)
unfolding Fits
taken-Fits m text h = omega (
  arith,
  cut-bounds text m,
  length-take (cut text (suc m)) text (omega (arith, cut-bounds text m, h)),
)

split_loop-Fits : (fuel m : ℕ) (text : List ℕ) → All (Fits (suc m)) (split_loop fuel (suc m) text)
unfolding split_loop Fits
split_loop-Fits fuel m [] = tt
split_loop-Fits zero m (r ∷ rs) = tt
split_loop-Fits (suc fuel) m (r ∷ rs) =
    let n = cut (r ∷ rs) (suc m) in
    let fits : leb (length (r ∷ rs)) (suc m) ≡ false → Fits (suc m) (take n (r ∷ rs)) =
      λ big. taken-Fits m (r ∷ rs) (ground arith) in
    ground (arith, split_loop-Fits fuel m (drop n (r ∷ rs)), fits)

-- With a positive limit, the chunks of any text one after the other are the text, and each of them
-- has at least one rune and at most as many as the limit.
pub concat-split_message :
    (text : List ℕ) (m : ℕ)
    → (concat (split_message text (pos (suc m))) ≡ text)
      × All (Fits (suc m)) (split_message text (pos (suc m)))
unfolding split_message
concat-split_message text m =
    (concat-split_loop (length text) m text (omega arith), split_loop-Fits (length text) m text)
