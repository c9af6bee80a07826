-- ===== src/Outbox/Session.antt =====
-- What one sender does from beginning to end, with nobody in between: it begins attempts or claims
-- them, calls the transport once for every attempt that it gets hold of, and resolves the attempt with
-- the outcome of that call.
use blueship.Outbox.{Ref, Journal, JournalResult, ok, err, find_attempt}
use blueship.Outbox.Ops.{begin_notification_attempt}
use blueship.Outbox.Resolution.{Parsed}
use blueship.Outbox.Claim.{Intent, claim_retryable_notification}
use blueship.Outbox.Deliver.{CallOutcome, resolve_task_notification_attempt}
use blueship.Outbox.Steps.{
  Deployment, Sender, holding, may_reach, after_begin, after_claim, begin, claim, send, resolve,
  Reach, here, next,
}
use blueship.Prelude.{
  ℕ, String, Bool, true, false, Option, none, some, List, [], ◌∷◌, ◌≡◌, ◌∙◌, refl, ap, subst,
  if◌then◌else◌,
}

-- A call of the transport.
pub record Sent : Type 0 where
  pub intent : Intent
  pub outcome : CallOutcome

-- The attempts whose calls may have reached the user, after those of `before`.
unfoldable pub reached : List Sent → List ℕ → List ℕ
reached [] before = before
reached (c ∷ calls) before =
    reached calls (if may_reach c.outcome then c.intent.id ∷ before else before)

-- The attempt that a begin has created, or that a claim has returned.
unfoldable pub begun_intent : ℕ → ℕ → String → List Ref → JournalResult (ℕ × Bool) → Option Intent
begun_intent task user text refs (ok (id, true)) =
    some (record { id = id; task_id = task; user_id = user; text = text; refs = refs })
begun_intent task user text refs (ok (id, false)) = none
begun_intent task user text refs (err e) = none

unfoldable pub claimed_intent : JournalResult (Option Intent) → Option Intent
claimed_intent (ok i) = i
claimed_intent (err e) = none

abbrev with_hold : Option Intent → List Sender → List Sender
with_hold none ws = ws
with_hold (some i) ws = holding i.id ∷ ws

after_begin-intent :
    (task user : ℕ) (text : String) (refs : List Ref) (r : JournalResult (ℕ × Bool))
    (ws : List Sender)
    → after_begin r ws ≡ with_hold (begun_intent task user text refs r) ws
unfolding after_begin begun_intent
after_begin-intent task user text refs (ok (id, true)) ws = refl
after_begin-intent task user text refs (ok (id, false)) ws = refl
after_begin-intent task user text refs (err e) ws = refl

after_claim-intent :
    (r : JournalResult (Option Intent)) (ws : List Sender)
    → after_claim r ws ≡ with_hold (claimed_intent r) ws
unfolding after_claim claimed_intent
after_claim-intent (ok (some i)) ws = refl
after_claim-intent (ok none) ws = refl
after_claim-intent (err e) ws = refl

module _ (key : List Ref → String) (parse : String → Parsed) where
  -- A begin or a claim, and the attempt that it gets hold of, if any.
  pub data Opening (j : Journal) (i : Option Intent) (k : Journal) : Type 0 where
    begun :
        (now fresh : ℕ) (owned : Bool) (task user : ℕ) (text : String) (refs : List Ref)
        → find_attempt fresh j.attempts ≡ none
        → (begin_notification_attempt key now fresh owned task user text refs j).0 ≡ k
        → begun_intent task user text refs
            (begin_notification_attempt key now fresh owned task user text refs j).1
          ≡ i
        → Opening j i k
    claimed :
        (now : ℕ) (locked : ℕ → Bool)
        → (claim_retryable_notification now locked j).0 ≡ k
        → claimed_intent (claim_retryable_notification now locked j).1 ≡ i
        → Opening j i k

  -- The calls stand in the order of time.
  pub data Session : Journal → List Sent → Journal → Type 0 where
    over : {j : Journal} → Session j [] j
    nothing :
        {j k l : Journal} {calls : List Sent}
        → Opening j none k
        → Session k calls l
        → Session j calls l
    turn :
        {j k l : Journal} {calls : List Sent} (now : ℕ) (i : Intent) (o : CallOutcome)
        → Opening j (some i) k
        → Session (resolve_task_notification_attempt parse now i.id o k).0 calls l
        → Session j (record { intent = i; outcome = o } ∷ calls) l

  pub Reach-trans :
      {u v w : Deployment} → Reach key parse u v → Reach key parse v w → Reach key parse u w
  Reach-trans r here = r
  Reach-trans r (next s step) = next (Reach-trans r s) step

  opened :
      (w : Deployment) (i : Option Intent) (k : Journal)
      → Opening w.journal i k
      → Reach key parse w (record w { journal = k; workers = with_hold i w.workers })
  opened w i k (begun now fresh owned task user text refs unused is_k is_i) =
      let r = begin_notification_attempt key now fresh owned task user text refs w.journal in
      let ws : after_begin r.1 w.workers ≡ with_hold i w.workers =
        after_begin-intent task user text refs r.1 w.workers
        ∙ ap (λ x. with_hold x w.workers) is_i in
      subst (λ x. Reach key parse w (record w { journal = x; workers = with_hold i w.workers }))
        is_k
        (subst (λ x. Reach key parse w (record w { journal = r.0; workers = x })) ws
          (next here (begin now fresh owned task user text refs unused)))
  opened w i k (claimed now locked is_k is_i) =
      let r = claim_retryable_notification now locked w.journal in
      let ws : after_claim r.1 w.workers ≡ with_hold i w.workers =
        after_claim-intent r.1 w.workers ∙ ap (λ x. with_hold x w.workers) is_i in
      subst (λ x. Reach key parse w (record w { journal = x; workers = with_hold i w.workers }))
        is_k
        (subst (λ x. Reach key parse w (record w { journal = r.0; workers = x })) ws
          (next here (claim now locked)))

  -- A session is a history of steps in which its sender comes and goes.
  pub Session-Reach :
      {calls : List Sent} {k : Journal} (w : Deployment)
      → Session w.journal calls k
      → Reach key parse w (record w { journal = k; sends = reached calls w.sends })
  unfolding reached
  Session-Reach w over = here
  Session-Reach w (nothing {k = j} got rest) =
      Reach-trans (opened w none j got) (Session-Reach (record w { journal = j }) rest)
  Session-Reach w (turn {k = j} now i o got rest) =
      let sent = (if may_reach o then i.id ∷ w.sends else w.sends) in
      let v : Deployment = record w {
        journal = (resolve_task_notification_attempt parse now i.id o j).0;
        sends = sent;
      } in
      Reach-trans
        (next (next (opened w (some i) j got) (send i.id o [] w.workers refl))
          (resolve now i.id o [] w.workers refl))
        (Session-Reach v rest)
