-- ===== src/Outbox/States.antt =====
-- What each write of the journal does to the states of its attempts.
use blueship.Outbox.{AttemptState, Attempt, Journal, find_attempt, update_attempt}
use blueship.Prelude.{ℕ, false, ◌⊎◌, Option, none, some, List, [], ◌∷◌, ◌==◌, ◌≡◌, refl, arith}

unfoldable pub state_of : ℕ → List Attempt → Option AttemptState
state_of id xs = elim (find_attempt id xs) [ none ↦ none | some a ↦ some a.state ]

abbrev pub IsKeyed : List Attempt → Type 0
IsKeyed [] = Unit
IsKeyed (a ∷ xs) = (find_attempt a.id xs ≡ none) × IsKeyed xs

update-find_attempt-none :
    (i id : ℕ) (f : Attempt → Attempt) (xs : List Attempt)
    → ((a : Attempt) → (f a).id ≡ a.id)
    → find_attempt i xs ≡ none
    → find_attempt i (update_attempt id f xs) ≡ none
unfolding find_attempt update_attempt
update-find_attempt-none i id f [] h e = refl
update-find_attempt-none i id f (a ∷ xs) h e =
    ground (arith, h a, update-find_attempt-none i id f xs h)

pub update_attempt-IsKeyed :
    (id : ℕ) (f : Attempt → Attempt) (xs : List Attempt)
    → ((a : Attempt) → (f a).id ≡ a.id)
    → IsKeyed xs
    → IsKeyed (update_attempt id f xs)
unfolding update_attempt
update_attempt-IsKeyed id f [] h k = tt
update_attempt-IsKeyed id f (a ∷ xs) h k = (
  ground (arith, h a, update-find_attempt-none a.id id f xs h k.0),
  update_attempt-IsKeyed id f xs h k.1,
)

-- An attempt moves from one state to another, and all others stay.
abbrev pub Moves : ℕ → AttemptState → AttemptState → List Attempt → List Attempt → Type 0
Moves id from to xs ys =
    (state_of id xs ≡ some from)
    × (state_of id ys ≡ some to)
    × ((i : ℕ) → (i == id) ≡ false → state_of i ys ≡ state_of i xs)
    × (IsKeyed xs → IsKeyed ys)

pub find_attempt-state_of :
    (id : ℕ) (xs : List Attempt) (a : Attempt)
    → find_attempt id xs ≡ some a
    → state_of id xs ≡ some a.state
unfolding state_of
find_attempt-state_of id xs a h = rw (h, state_of)

module _ (id : ℕ) (f : Attempt → Attempt) (to : AttemptState) where
  update_attempt-state_of :
      (xs : List Attempt) (from : AttemptState)
      → ((a : Attempt) → ((f a).id ≡ a.id) × ((f a).state ≡ to))
      → state_of id xs ≡ some from
      → state_of id (update_attempt id f xs) ≡ some to
  unfolding state_of find_attempt update_attempt
  update_attempt-state_of [] from h e = cc
  update_attempt-state_of (a ∷ xs) from h e = ground (arith, h a, update_attempt-state_of xs from h)

  update_attempt-others :
      (xs : List Attempt) (i : ℕ)
      → ((a : Attempt) → ((f a).id ≡ a.id) × ((f a).state ≡ to))
      → (i == id) ≡ false
      → state_of i (update_attempt id f xs) ≡ state_of i xs
  unfolding state_of find_attempt update_attempt
  update_attempt-others [] i h e = refl
  update_attempt-others (a ∷ xs) i h e = ground (arith, h a, update_attempt-others xs i h e)

  pub update_attempt-Moves :
      (xs : List Attempt) (from : AttemptState)
      → ((a : Attempt) → ((f a).id ≡ a.id) × ((f a).state ≡ to))
      → state_of id xs ≡ some from
      → Moves id from to xs (update_attempt id f xs)
  update_attempt-Moves xs from h e = (
    e,
    update_attempt-state_of xs from h e,
    λ i other. update_attempt-others xs i h other,
    update_attempt-IsKeyed id f xs (λ a. (h a).0),
  )

-- What a write on one attempt does: nothing, or a move to a state.
abbrev pub MayMove : ℕ → AttemptState → AttemptState → Journal → Journal → Type 0
MayMove id from to j k = (k ≡ j) ⊎ ((k.items ≡ j.items) × (Moves id from to j.attempts k.attempts))
