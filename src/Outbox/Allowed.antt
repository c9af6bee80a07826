-- ===== src/Outbox/Allowed.antt =====
-- When `retryTaskNotification` (internal/agenttask/scheduler.go) may call the transport.
use blueship.Outbox.{Ref}
use blueship.Outbox.Claim.{Intent}
use blueship.Outbox.Deliver.{CallOutcome}
use blueship.Outbox.Steps.{may_reach}
use blueship.Outbox.Session.{Sent}
use blueship.Outbox.Retry.{
  FoundTask, Outside, is_none_left, validated, validated_call, is_open_status, has_progress,
  found_outcome, retry_outcome,
}
use blueship.Prelude.{
  ℕ, String, Bool, true, false, Option, none, some, List, ◌≡◌, refl, arith, Bool-cases,
  Option-cases, inl, inr,
}

-- The task is found, it is the user's, its origin can be read, it is open if the progress of it is
-- told, the host's validator has nothing against refs, and there is a transport.
pub record Allowed (o : Outside) (i : Intent) (send : ℕ → String → CallOutcome) : Type 0 where
  pub lookup : ℕ → Option FoundTask
  pub looks : o.lookup ≡ some lookup
  pub task : FoundTask
  pub found : lookup i.task_id ≡ some task
  pub owner : task.user_id ≡ i.user_id
  pub origin : task.bad_origin ≡ false
  pub timely : has_progress i.refs ≡ true → is_open_status task.status ≡ true
  pub sender : o.notify ≡ some send
  pub valid :
      (validate : FoundTask → List Ref → Option Bool)
      → o.validator ≡ some validate
      → is_none_left i.refs ≡ false
      → validate task i.refs ≡ some true

-- Whoever is allowed gets the answer of the transport, and a call that may have reached the user was
-- allowed.
abbrev pub IsRetry : Outside → Sent → Type 0
IsRetry o c =
    ((send : ℕ → String → CallOutcome)
      → Allowed o c.intent send
      → c.outcome ≡ send c.intent.id c.intent.text)
    × (may_reach c.outcome ≡ true → (send : ℕ → String → CallOutcome) × Allowed o c.intent send)

validated_call-allowed :
    (v : Option (FoundTask → List Ref → Option Bool)) (t : FoundTask) (refs : List Ref) (user : ℕ)
    (sent : CallOutcome)
    → t.user_id ≡ user
    → t.bad_origin ≡ false
    → ((validate : FoundTask → List Ref → Option Bool)
        → v ≡ some validate
        → is_none_left refs ≡ false
        → validate t refs ≡ some true)
    → validated_call v t refs user sent ≡ sent
unfolding validated_call validated
validated_call-allowed none t refs user sent owner origin valid = ground arith
validated_call-allowed (some validate) t refs user sent owner origin valid =
    elim (Bool-cases (is_none_left refs)) [
      | inl e ↦ ground arith
      | inr e ↦ ground (arith, valid validate refl e)
    ]

-- Why a call that may have reached the user has passed.
record Passed (v : Option (FoundTask → List Ref → Option Bool)) (t : FoundTask) (refs : List Ref)
    (user : ℕ) : Type 0 where
  owner : t.user_id ≡ user
  origin : t.bad_origin ≡ false
  valid :
      (validate : FoundTask → List Ref → Option Bool)
      → v ≡ some validate
      → is_none_left refs ≡ false
      → validate t refs ≡ some true

validated-true :
    (r : Option Bool) (sent : CallOutcome) → may_reach (validated r sent) ≡ true → r ≡ some true
unfolding validated may_reach
validated-true none sent h = absurd (ground arith)
validated-true (some false) sent h = absurd (ground arith)
validated-true (some true) sent h = refl

validated_call-Passed :
    (v : Option (FoundTask → List Ref → Option Bool)) (t : FoundTask) (refs : List Ref) (user : ℕ)
    (sent : CallOutcome)
    → may_reach (validated_call v t refs user sent) ≡ true
    → Passed v t refs user
unfolding validated_call may_reach
validated_call-Passed none t refs user sent h = record {
  owner = ground arith;
  origin = ground arith;
  valid = λ validate e r. absurd (ground arith);
}
validated_call-Passed (some f) t refs user sent h = record {
  owner = ground arith;
  origin = ground arith;
  valid = λ validate e r. ground (arith, validated-true (f t refs) sent);
}

pub retry_outcome-IsRetry :
    (o : Outside) (i : Intent) → IsRetry o (record { intent = i; outcome = retry_outcome o i })
retry_outcome-IsRetry o i = (allowed, reached)
  where
    allowed :
        (send : ℕ → String → CallOutcome) → Allowed o i send → retry_outcome o i ≡ send i.id i.text
    allowed send a =
        let passed : validated_call o.validator a.task i.refs i.user_id (send i.id i.text)
            ≡ send i.id i.text =
          validated_call-allowed o.validator a.task i.refs i.user_id (send i.id i.text) a.owner
            a.origin a.valid in
        unfold retry_outcome found_outcome in
        ground (arith, a.looks, a.found, a.owner, a.timely, a.sender, passed)

    reached :
        may_reach (retry_outcome o i) ≡ true → (send : ℕ → String → CallOutcome) × Allowed o i send
    reached h = elim (Option-cases o.lookup) [
      | inl e ↦ absurd (unfold retry_outcome may_reach in ground (arith, e))
      | inr (lookup, e) ↦ elim (Option-cases (lookup i.task_id)) [
        | inl f ↦ absurd (unfold retry_outcome may_reach in ground (arith, e, f))
        | inr (t, f) ↦ elim (Option-cases o.notify) [
          | inl g ↦ absurd (unfold retry_outcome found_outcome may_reach in ground (arith, e, f, g))
          | inr (send, g) ↦
              let call : may_reach
                    (validated_call o.validator t i.refs i.user_id (send i.id i.text))
                  ≡ true =
                unfold retry_outcome found_outcome may_reach in ground (arith, e, f, g) in
              let p =
                validated_call-Passed o.validator t i.refs i.user_id (send i.id i.text) call in
              (
                send,
                record {
                  lookup = lookup;
                  looks = e;
                  task = t;
                  found = f;
                  owner = p.owner;
                  origin = p.origin;
                  timely = λ told.
                      unfold retry_outcome found_outcome may_reach in ground (arith, e, f, g);
                  sender = g;
                  valid = p.valid;
                },
              )
        ]
      ]
    ]
