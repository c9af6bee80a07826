-- ===== src/Prelude/Checks.antt =====
-- Checks made in turn, where the first error is the result.
use mathlib.Core.Path.{◌≡◌, refl}
use mathlib.Core.Bool.{Bool, true, false}
use mathlib.Core.Option.{Option, none, some}

module _ {ℓ} {E : Type ℓ} where
  -- The first error of two checks.
  unfoldable pub and_then : Option E → Option E → Option E
  and_then none r = r
  and_then (some e) r = some e

  unfoldable pub reject : Bool → E → Option E
  reject true e = some e
  reject false e = none

  pub and_then-none : (a b : Option E) → and_then a b ≡ none → (a ≡ none) × (b ≡ none)
  unfolding and_then
  and_then-none none b h = (refl, h)
  and_then-none (some e) b h = cc

  pub none-and_then : {a b : Option E} → a ≡ none → b ≡ none → and_then a b ≡ none
  unfolding and_then
  none-and_then {a = none} ha hb = hb
  none-and_then {a = some e} ha hb = cc

  pub reject-none : (b : Bool) (e : E) → reject b e ≡ none → b ≡ false
  unfolding reject
  reject-none true e h = cc
  reject-none false e h = refl
