-- ===== src/Outbox/Senders.antt =====
-- Every change keeps the counts of the senders and the sends of an attempt within what its state
-- allows.
use blueship.Outbox.{AttemptState, dispatching, retryable, sent, Attempt, Journal, find_attempt}
use blueship.Outbox.Deliver.{
  CallOutcome, acknowledged, permanently_not_sent, definitely_not_sent, ambiguous,
}
use blueship.Outbox.Steps.{Sender, holding, resolving, may_reach}
use blueship.Outbox.States.{state_of, Moves, MayMove}
use blueship.Outbox.Moves.{target}
use blueship.Outbox.Admission.{Adds, fresh-state_of, Adds-state_of, Adds-others}
use blueship.Outbox.Counts.{
  held, unsent, reached, total, times, total-middle, Fine, Fine-eq, Fine-fewer, Fine-held, FineAt,
  FineAt-middle, FineAt-leave,
}
use blueship.Prelude.{
  ℕ, ◌+◌, ◌≤◌, true, false, inl, inr, Option, none, some, List, ◌∷◌, ◌++◌, ◌==◌, ◌≡◌, refl, sym,
  ◌∙◌, ap, subst, if◌then◌else◌, Bool-cases, arith,
}

-- What stands at an attempt after it has moved, given what stands at it before.
pub Fine-Moves :
    (i id : ℕ) (from to : AttemptState) (xs ys : List Attempt) (h n r s h' n' r' s' : ℕ)
    → Moves id from to xs ys
    → ((i == id) ≡ true → Fine (some from) h n r s → Fine (some to) h' n' r' s')
    → ((i == id) ≡ false → Fine (state_of i xs) h n r s → Fine (state_of i xs) h' n' r' s')
    → Fine (state_of i xs) h n r s
    → Fine (state_of i ys) h' n' r' s'
Fine-Moves i id from to xs ys h n r s h' n' r' s' (old, new, others, _) here_moved stays f =
    elim (Bool-cases (i == id)) [
      | inr apart ↦ subst (λ o. Fine o h' n' r' s') (sym (others i apart)) (stays apart f)
      | inl same ↦
          let e : i ≡ id = ground (arith, same) in
          let f' : Fine (some from) h n r s =
            subst (λ o. Fine o h n r s) (ap (λ k. state_of k xs) e ∙ old) f in
          subst (λ o. Fine o h' n' r' s') (sym (ap (λ k. state_of k ys) e ∙ new))
            (here_moved same f')
    ]

-- The state that an outcome leads to allows what is left when its sender has resolved.
pub resolved-Fine :
    (i id : ℕ) (o : CallOutcome) (h n r s : ℕ)
    → (i == id) ≡ true
    → Fine
        (some dispatching)
        (held i (resolving id o) + h)
        (unsent i (resolving id o) + n)
        (reached i (resolving id o) + r)
        s
    → Fine (some (target o)) h n r s
unfolding Fine may_reach
resolved-Fine i id (acknowledged receipt) h n r s e f = ground (arith, e, f)
resolved-Fine i id (permanently_not_sent reason) h n r s e f = ground (arith, e, f)
resolved-Fine i id (definitely_not_sent delay reason) h n r s e f = ground (arith, e, f)
resolved-Fine i id (ambiguous reason) h n r s e f = ground (arith, e, f)

-- A change of the journal that moves one attempt, while a sender leaves.
pub resolve-FineAt :
    (i id : ℕ) (o : CallOutcome) (j k : Journal) (before after : List Sender) (sends : List ℕ)
    {ws : List Sender}
    → MayMove id dispatching (target o) j k
    → ws ≡ before ++ resolving id o ∷ after
    → FineAt i j.attempts ws sends
    → FineAt i k.attempts (before ++ after) sends
resolve-FineAt i id o j k before after sends (inl same) e f =
    subst (λ m. FineAt i m.attempts (before ++ after) sends) (sym same)
      (FineAt-leave i j.attempts before (resolving id o) after sends e f)
resolve-FineAt i id o j k before after sends (inr (_, moved)) e f =
    Fine-Moves i id dispatching (target o) j.attempts k.attempts _ _ _ _ _ _ _ _ moved
      (λ same. resolved-Fine i id o _ _ _ _ same)
      (λ apart.
        Fine-fewer (state_of i j.attempts) _ _ _ _ _ _ _ (omega arith) (omega arith) (omega arith))
      (FineAt-middle i j.attempts before (resolving id o) after sends e f)

confirmed-Fine : (h n r s : ℕ) → 1 ≤ r → Fine (some dispatching) h n r s → Fine (some sent) h n r s
unfolding Fine
confirmed-Fine h n r s one f = omega (arith, f)

held-Fine :
    (i id h n r s : ℕ)
    → (i == id) ≡ true
    → Fine (some retryable) h n r s
    → Fine (some dispatching) (held i (holding id) + h) (0 + n) (0 + r) s
unfolding Fine
held-Fine i id h n r s same f = ground (arith, same, f)

first_send :
    (i id : ℕ) (o : CallOutcome) (h n r : ℕ) (sends : List ℕ)
    → (i == id) ≡ true
    → h + (0 + n) + (0 + r) + times i sends ≡ 0
    → Fine
        (some dispatching)
        (0 + h)
        (unsent i (resolving id o) + n)
        (reached i (resolving id o) + r)
        (times i (if may_reach o then id ∷ sends else sends))
unfolding Fine
first_send i id o h n r sends same none_else = ground (arith, same, none_else)

-- The confirmation before the send has returned.
pub confirm-FineAt :
    (i id : ℕ) (o : CallOutcome) (j k : Journal) (before after : List Sender) (sends : List ℕ)
    {ws : List Sender}
    → may_reach o ≡ true
    → MayMove id dispatching sent j k
    → ws ≡ before ++ resolving id o ∷ after
    → FineAt i j.attempts ws sends
    → FineAt i k.attempts ws sends
confirm-FineAt i id o j k before after sends {ws} may (inl same) e f =
    subst (λ m. FineAt i m.attempts ws sends) (sym same) f
confirm-FineAt i id o j k before after sends {ws} may (inr (_, moved)) e f =
    Fine-Moves i id dispatching sent j.attempts k.attempts _ _ _ _ _ _ _ _ moved
      (λ same.
        confirmed-Fine (total (held i) ws) (total (unsent i) ws) (total (reached i) ws)
          (times i sends) (one_reached same))
      (λ apart f. f) f
  where
    one_reached : (i == id) ≡ true → 1 ≤ total (reached i) ws
    one_reached same =
        let here : reached i (resolving id o) ≡ 1 = ground (arith, same, may) in
        omega (
          arith,
          ap (total (reached i)) e,
          total-middle (reached i) before (resolving id o) after,
          here,
        )

sent-Fine :
    (st : Option AttemptState) (i id : ℕ) (o : CallOutcome) (h n r : ℕ) (sends : List ℕ)
    → Fine st (held i (holding id) + h) (0 + n) (0 + r) (times i sends)
    → Fine st
        (0 + h)
        (unsent i (resolving id o) + n)
        (reached i (resolving id o) + r)
        (times i (if may_reach o then id ∷ sends else sends))
sent-Fine st i id o h n r sends f = elim (Bool-cases (i == id)) [
  | inr apart ↦
      Fine-eq st _ _ _ _ _ _ _ _ (ground (arith, apart)) (ground (arith, apart))
        (ground (arith, apart)) (ground (arith, apart)) f
  | inl same ↦
      let (running, none_else) =
        Fine-held st h (0 + n) (0 + r) (times i sends)
          (Fine-eq st _ _ _ _ _ _ _ _ (ground (arith, same)) refl refl refl f) in
      subst
        (λ st.
          Fine st (0 + h) (unsent i (resolving id o) + n) (reached i (resolving id o) + r)
            (times i (if may_reach o then id ∷ sends else sends)))
        (sym running) (first_send i id o h n r sends same none_else)
]

pub send-FineAt :
    (i id : ℕ) (o : CallOutcome) (xs : List Attempt) (before after : List Sender) (sends : List ℕ)
    {ws : List Sender}
    → ws ≡ before ++ holding id ∷ after
    → FineAt i xs ws sends
    → FineAt i xs (before ++ resolving id o ∷ after) (if may_reach o then id ∷ sends else sends)
send-FineAt i id o xs before after sends e f =
    Fine-eq (state_of i xs) _ _ _ _ _ _ _ _
      (sym (total-middle (held i) before (resolving id o) after))
      (sym (total-middle (unsent i) before (resolving id o) after))
      (sym (total-middle (reached i) before (resolving id o) after)) refl
      (sent-Fine (state_of i xs) i id o _ _ _ sends
        (FineAt-middle i xs before (holding id) after sends e f))

-- A new sender for an attempt that moves to dispatching, or is new.
pub hold-FineAt :
    (i id : ℕ) (xs ys : List Attempt) (ws : List Sender) (sends : List ℕ)
    → Moves id retryable dispatching xs ys
    → FineAt i xs ws sends
    → FineAt i ys (holding id ∷ ws) sends
hold-FineAt i id xs ys ws sends moved f =
    Fine-Moves i id retryable dispatching xs ys _ _ _ _ _ _ _ _ moved
      (λ same. held-Fine i id _ _ _ _ same)
      (λ apart.
        Fine-fewer (state_of i xs) _ _ _ _ _ _ _ (ground (arith, apart)) (omega arith)
          (omega arith))
      f

-- A new attempt, in a state that allows what its senders are.
pub added-FineAt :
    (i id : ℕ) (to : AttemptState) (xs ys : List Attempt) (h n r s h' n' r' : ℕ)
    → find_attempt id xs ≡ none
    → Adds id to xs ys
    → ((i == id) ≡ true → Fine none h n r s → Fine (some to) h' n' r' s)
    → ((i == id) ≡ false → h' ≤ h)
    → n' ≤ n
    → r' ≤ r
    → Fine (state_of i xs) h n r s
    → Fine (state_of i ys) h' n' r' s
added-FineAt i id to xs ys h n r s h' n' r' fresh adds first others le_n le_r f =
    elim (Bool-cases (i == id)) [
      | inl same ↦
          let e : i ≡ id = ground (arith, same) in
          let unknown : state_of i xs ≡ none =
            ap (λ k. state_of k xs) e ∙ fresh-state_of id xs fresh in
          let known : state_of i ys ≡ some to =
            ap (λ k. state_of k ys) e ∙ Adds-state_of id to xs ys adds in
          subst (λ o. Fine o h' n' r' s) (sym known)
            (first same (subst (λ o. Fine o h n r s) unknown f))
      | inr apart ↦
          subst (λ o. Fine o h' n' r' s) (sym (Adds-others i id to xs ys apart adds))
            (Fine-fewer (state_of i xs) h n r s h' n' r' (others apart) le_n le_r f)
    ]

pub begun-Fine :
    (i id h n r s : ℕ)
    → (i == id) ≡ true
    → Fine none h n r s
    → Fine (some dispatching) (held i (holding id) + h) (0 + n) (0 + r) s
unfolding Fine
begun-Fine i id h n r s same f = ground (arith, same, f)

pub queued-Fine : (h n r s : ℕ) → Fine none h n r s → Fine (some retryable) h n r s
unfolding Fine
queued-Fine h n r s f = f
