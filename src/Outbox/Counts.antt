-- ===== src/Outbox/Counts.antt =====
-- No attempt is sent twice: what the senders of an attempt and its sends are in each of its states.
use blueship.Outbox.{AttemptState, dispatching, retryable, sent, uncertain, rejected, Attempt}
use blueship.Outbox.Steps.{Sender, holding, resolving, Deployment, may_reach}
use blueship.Outbox.States.{IsKeyed, state_of}
use blueship.Prelude.{
  ℕ, ◌+◌, ◌≤◌, Option, none, some, List, [], ◌∷◌, ◌++◌, ◌==◌, ◌≡◌, refl, if◌then◌else◌, arith,
}

abbrev pub held : ℕ → Sender → ℕ
held i (holding id) = if i == id then 1 else 0
held i (resolving id o) = 0

abbrev pub unsent : ℕ → Sender → ℕ
unsent i (holding id) = 0
unsent i (resolving id o) = if i == id then if may_reach o then 0 else 1 else 0

abbrev pub reached : ℕ → Sender → ℕ
reached i (holding id) = 0
reached i (resolving id o) = if i == id then if may_reach o then 1 else 0 else 0

abbrev pub total : (Sender → ℕ) → List Sender → ℕ
total f [] = 0
total f (w ∷ ws) = f w + total f ws

abbrev pub times : ℕ → List ℕ → ℕ
times i [] = 0
times i (id ∷ ids) = (if i == id then 1 else 0) + times i ids

pub total-middle :
    (f : Sender → ℕ) (before : List Sender) (x : Sender) (after : List Sender)
    → total f (before ++ x ∷ after) ≡ f x + total f (before ++ after)
total-middle f [] x after = refl
total-middle f (w ∷ before) x after = omega (arith, total-middle f before x after)

-- Senders that hold an attempt, that know that it was not sent, and that sent it; and its sends.
unfoldable pub Fine : Option AttemptState → ℕ → ℕ → ℕ → ℕ → Type 0
Fine none h n r s = h + n + r + s ≡ 0
Fine (some dispatching) h n r s = (h + n + s ≤ 1) × (r ≤ s)
Fine (some retryable) h n r s = h + n + r + s ≡ 0
Fine (some sent) h n r s = (h + n ≡ 0) × (r ≤ s) × (s ≤ 1)
Fine (some uncertain) h n r s = (h + n ≡ 0) × (r ≤ s) × (s ≤ 1)
Fine (some rejected) h n r s = h + n + r + s ≡ 0

pub Fine-eq :
    (o : Option AttemptState) (h n r s h' n' r' s' : ℕ)
    → h ≡ h'
    → n ≡ n'
    → r ≡ r'
    → s ≡ s'
    → Fine o h n r s
    → Fine o h' n' r' s'
Fine-eq o h n r s h' n' r' s' a b c d f = rw (← a, ← b, ← c, ← d) f

pub Fine-fewer :
    (o : Option AttemptState) (h n r s h' n' r' : ℕ)
    → h' ≤ h
    → n' ≤ n
    → r' ≤ r
    → Fine o h n r s
    → Fine o h' n' r' s
unfolding Fine
Fine-fewer none h n r s h' n' r' a b c f = omega (arith, f)
Fine-fewer (some dispatching) h n r s h' n' r' a b c f = omega (arith, f)
Fine-fewer (some retryable) h n r s h' n' r' a b c f = omega (arith, f)
Fine-fewer (some sent) h n r s h' n' r' a b c f = omega (arith, f)
Fine-fewer (some uncertain) h n r s h' n' r' a b c f = omega (arith, f)
Fine-fewer (some rejected) h n r s h' n' r' a b c f = omega (arith, f)

pub Fine-once : (o : Option AttemptState) (h n r s : ℕ) → Fine o h n r s → s ≤ 1
unfolding Fine
Fine-once none h n r s f = omega (arith, f)
Fine-once (some dispatching) h n r s f = omega (arith, f)
Fine-once (some retryable) h n r s f = omega (arith, f)
Fine-once (some sent) h n r s f = omega (arith, f)
Fine-once (some uncertain) h n r s f = omega (arith, f)
Fine-once (some rejected) h n r s f = omega (arith, f)

-- What a sender that holds the attempt knows of it.
pub Fine-held :
    (o : Option AttemptState) (h n r s : ℕ)
    → Fine o (1 + h) n r s
    → (o ≡ some dispatching) × (h + n + r + s ≡ 0)
unfolding Fine
Fine-held none h n r s f = absurd (omega (arith, f))
Fine-held (some dispatching) h n r s f = (refl, omega (arith, f))
Fine-held (some retryable) h n r s f = absurd (omega (arith, f))
Fine-held (some sent) h n r s f = absurd (omega (arith, f))
Fine-held (some uncertain) h n r s f = absurd (omega (arith, f))
Fine-held (some rejected) h n r s f = absurd (omega (arith, f))

abbrev pub FineAt : ℕ → List Attempt → List Sender → List ℕ → Type 0
FineAt i xs ws sends =
    Fine (state_of i xs) (total (held i) ws) (total (unsent i) ws) (total (reached i) ws)
      (times i sends)

pub record IsOnce (w : Deployment) : Type 0 where
  pub keyed : IsKeyed w.journal.attempts
  pub fine : (i : ℕ) → FineAt i w.journal.attempts w.workers w.sends

-- A sender more or less in the list, at a place.
pub FineAt-middle :
    (i : ℕ) (xs : List Attempt) (before : List Sender) (x : Sender) (after : List Sender)
    (sends : List ℕ) {ws : List Sender}
    → ws ≡ before ++ x ∷ after
    → FineAt i xs ws sends
    → Fine
        (state_of i xs)
        (held i x + total (held i) (before ++ after))
        (unsent i x + total (unsent i) (before ++ after))
        (reached i x + total (reached i) (before ++ after))
        (times i sends)
FineAt-middle i xs before x after sends {ws} e f =
    rw
      (
        ← total-middle (held i) before x after,
        ← total-middle (unsent i) before x after,
        ← total-middle (reached i) before x after,
        ← e,
      )
      f

pub FineAt-leave :
    (i : ℕ) (xs : List Attempt) (before : List Sender) (x : Sender) (after : List Sender)
    (sends : List ℕ) {ws : List Sender}
    → ws ≡ before ++ x ∷ after
    → FineAt i xs ws sends
    → FineAt i xs (before ++ after) sends
FineAt-leave i xs before x after sends e f =
    Fine-fewer (state_of i xs) _ _ _ (times i sends) _ _ _ (omega arith) (omega arith) (omega arith)
      (FineAt-middle i xs before x after sends e f)
