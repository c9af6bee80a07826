-- ===== src/Prelude/Keys.antt =====
-- Finite sets of text keys, as lists. A Go `map[string]bool` is the list of its true keys.
use Prim.Native.String.{String}
use mathlib.Core.Path.{◌≡◌, refl}
use mathlib.Core.Logic.{◌↔◌, ◌⊎◌}
use mathlib.Core.Bool.{Bool, true, false, ◌||◌}
use mathlib.Core.List.{List, [], ◌∷◌, ◌++◌}
use native.Mathlib.Omega.{arith}
use text.Mathlib.Text.{◌==◌ as str_eq}
use text.Mathlib.TextEquality.{eq_iff}
use blueship.Prelude.Tests.{if◌then◌else◌}

unfoldable pub contains : List String → String → Bool
contains [] k = false
contains (j ∷ xs) k = str_eq j k || contains xs k

-- `m[k] = false`: no key `k` is left.
unfoldable pub remove : List String → String → List String
remove [] k = []
remove (j ∷ xs) k = if str_eq j k then remove xs k else j ∷ remove xs k

pub contains-cons :
    (j k : String) (xs : List String)
    → (contains (j ∷ xs) k ≡ true) ↔ ((j ≡ k) ⊎ (contains xs k ≡ true))
unfolding contains
contains-cons j k xs = ground (arith, eq_iff j k)

pub contains-append :
    (xs ys : List String) (k : String) → contains (xs ++ ys) k ≡ (contains xs k || contains ys k)
unfolding contains
contains-append [] ys k = refl
contains-append (j ∷ xs) ys k = ground (arith, contains-append xs ys k)

pub remove_absent : (xs : List String) (k : String) → contains xs k ≡ false → remove xs k ≡ xs
unfolding contains remove
remove_absent [] k h = refl
remove_absent (j ∷ xs) k h = ground (arith, remove_absent xs k)

pub remove-cons_self :
    (xs : List String) (k : String) → contains xs k ≡ false → remove (k ∷ xs) k ≡ xs
unfolding remove
remove-cons_self xs k h = ground (arith, eq_iff k k, remove_absent xs k h)
