-- ===== src/FinalValidation/Triples.antt =====
-- What holds when a part of the validation goes on, and what when it returns.
use blueship.FinalValidation.{Store, Outcome, Flow, running, returned, M, ◌>>=◌}
use blueship.Prelude.{Bool, true, false, ◌≡◌, refl, if◌then◌else◌}

module _ (E : Outcome → Store → Type 0) where
  abbrev pub Ensures : {A : Type 0} → (A → Store → Type 0) → Flow A → Type 0
  Ensures q (running a st) = q a st
  Ensures q (returned o st) = E o st

  pub Ensures-map :
      {A : Type 0} (q r : A → Store → Type 0) (x : Flow A)
      → ((a : A) (st : Store) → q a st → r a st)
      → Ensures q x
      → Ensures r x
  Ensures-map q r (running a st) f h = f a st h
  Ensures-map q r (returned o st) f h = h

  pub >>=-Ensures :
      {A B : Type 0} (q : A → Store → Type 0) (r : B → Store → Type 0) (m : M A) (f : A → M B)
      (st : Store)
      → Ensures q (m st)
      → ((a : A) (st' : Store) → q a st' → Ensures r (f a st'))
      → Ensures r ((m >>= f) st)
  unfolding ◌>>=◌
  >>=-Ensures {A = A} q r m f st h k = go (m st) h
    where
      go :
          (x : Flow A)
          → Ensures q x
          → Ensures r (elim x [ running a st' ↦ f a st' | returned o st' ↦ returned o st' ])
      go (running a st') h' = k a st' h'
      go (returned o st') h' = h'

  pub if-Ensures :
      {A : Type 0} (q : A → Store → Type 0) (b : Bool) (x y : M A) (st : Store)
      → (b ≡ true → Ensures q (x st))
      → (b ≡ false → Ensures q (y st))
      → Ensures q ((if b then x else y) st)
  if-Ensures q true x y st hx hy = hx refl
  if-Ensures q false x y st hx hy = hy refl
