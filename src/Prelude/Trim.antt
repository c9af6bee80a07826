-- ===== src/Prelude/Trim.antt =====
-- What is trimmed has nothing left to trim (`strings.TrimSpace`).
use Prim.Native.String.{String}
use Prim.Native.Char.{Char, code}
use blueship.Prelude.{false, ◌&&◌, ◌≡◌, refl, ap, ◌∙◌, Bool-cases, inl, inr, arith, str_eq}
use blueship.Prelude.Text.{is_space, trim_left, trim_right, trim_space, is_blank}

trim_right-twice : (s : String) → trim_right (trim_right s) ≡ trim_right s
unfolding trim_right
trim_right-twice String.[] = refl
trim_right-twice (String.◌∷◌ c s) =
    elim (Bool-cases (str_eq (trim_right s) "" && is_space (code c))) [
      | inl e ↦ rw (e, trim_right) refl
      | inr e ↦ rw (e, trim_right, trim_right-twice s, e) refl
    ]

trim_right-solid :
    (c : Char) (s : String)
    → is_space (code c) ≡ false
    → trim_right (String.◌∷◌ c s) ≡ String.◌∷◌ c (trim_right s)
unfolding trim_right
trim_right-solid c s e = elim (Bool-cases (str_eq (trim_right s) "" && is_space (code c))) [
  | inl k ↦ absurd (ground arith)
  | inr k ↦ rw (k, trim_right) refl
]

trim_left-kept : (s : String) → trim_left (trim_right (trim_left s)) ≡ trim_right (trim_left s)
unfolding trim_left trim_right
trim_left-kept String.[] = refl
trim_left-kept (String.◌∷◌ c s) = elim (Bool-cases (is_space (code c))) [
  | inl e ↦ rw (e, trim_left) (trim_left-kept s)
  | inr e ↦ rw (e, trim_right-solid c s e, trim_left, e) refl
]

pub trim_space-twice : (s : String) → trim_space (trim_space s) ≡ trim_space s
unfolding trim_space
trim_space-twice s = ap trim_right (trim_left-kept s) ∙ trim_right-twice (trim_left s)

pub is_blank-trimmed :
    (s : String) → str_eq (trim_space s) "" ≡ false → is_blank (trim_space s) ≡ false
unfolding is_blank
is_blank-trimmed s h = rw (trim_space-twice s) h
