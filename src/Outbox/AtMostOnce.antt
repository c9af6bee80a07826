-- ===== src/Outbox/AtMostOnce.antt =====
-- At most one message about an occurrence of a task may have reached the user.
use blueship.Outbox.{Ref, dispatching, sent, Journal, JournalResult, find_attempt}
use blueship.Outbox.Resolution.{Parsed}
use blueship.Outbox.Claim.{Intent}
use blueship.Outbox.Steps.{
  Sender, Deployment, Step, begin, queue, claim, send, confirm, resolve, crash, Reach, here, next,
}
use blueship.Outbox.States.{state_of}
use blueship.Outbox.Moves.{MayMove-items, target, confirm-MayMove, resolve-MayMove}
use blueship.Outbox.Admission.{Claimed, claim-Claimed}
use blueship.Outbox.Counts.{times, Fine, Fine-once, IsOnce}
use blueship.Outbox.Once.{Step-IsOnce}
use blueship.Outbox.Owners.{owns, owns_unique, IsUnique, begin-IsUnique, queue-IsUnique}
use blueship.Prelude.{
  ℕ, ◌+◌, ◌≤◌, String, Bool, true, inl, inr, Option, none, List, [], ◌∷◌, ◌≡◌, refl, sym, ap, subst,
  if◌then◌else◌, Bool-cases, arith,
}

-- The sends of attempts that own an occurrence.
abbrev pub how_many : (ℕ → Bool) → List ℕ → ℕ
how_many p [] = 0
how_many p (id ∷ ids) = (if p id then 1 else 0) + how_many p ids

abbrev pub sends_for : ℕ → Ref → Deployment → ℕ
sends_for task r w = how_many (owns task r w.journal.items) w.sends

abbrev pub empty_world : Deployment
empty_world = record {
  journal = record { attempts = []; items = []; deliveries = [] };
  workers = [];
  sends = [];
}

count_others :
    (p : ℕ → Bool) (id : ℕ) (ids : List ℕ)
    → ((k : ℕ) → p k ≡ true → id ≡ k)
    → times id ids ≡ 0
    → how_many p ids ≡ 0
count_others p id [] alone h = refl
count_others p id (k ∷ ids) alone h = elim (Bool-cases (p k)) [
  | inl hit ↦ absurd (ground (arith, alone k hit, h))
  | inr miss ↦ ground (arith, miss, count_others p id ids alone, h)
]

count_once :
    (p : ℕ → Bool) (ids : List ℕ)
    → ((a b : ℕ) → p a ≡ true → p b ≡ true → a ≡ b)
    → ((i : ℕ) → times i ids ≤ 1)
    → how_many p ids ≤ 1
count_once p [] alone once = omega arith
count_once p (k ∷ ids) alone once = elim (Bool-cases (p k)) [
  | inl hit ↦
      let none_left : times k ids ≡ 0 = ground (arith, once k) in
      ground (arith, hit, count_others p k ids (λ i h. alone k i hit h) none_left)
  | inr miss ↦ ground (arith, miss, count_once p ids alone (λ i. ground (arith, once i)))
]

Fine-new : Fine none 0 0 0 0
unfolding Fine
Fine-new = refl

record IsSound (w : Deployment) : Type 0 where
  once : IsOnce w
  unique : IsUnique w.journal.items

Claimed-items :
    (ws : List Sender) (j k : Journal) (r : JournalResult (Option Intent))
    → Claimed ws j (k, r)
    → k.items ≡ j.items
Claimed-items ws j k r (inl (same, _)) = ap (λ m. m.items) same
Claimed-items ws j k r (inr (_, _, items, _)) = items

module _ (key : List Ref → String) (parse : String → Parsed) where
  Step-IsUnique :
      {w v : Deployment}
      → Step key parse w v
      → IsOnce w
      → IsUnique w.journal.items
      → IsUnique v.journal.items
  Step-IsUnique {w} (begin now fresh owned task user text refs unused) once u =
      begin-IsUnique key now fresh task user text w.journal owned refs u
  Step-IsUnique {w} (queue now fresh task user text refs j unused queued) once u =
      queue-IsUnique key now fresh task user text w.journal refs j queued u
  Step-IsUnique {w} (claim now locked) once u =
      subst IsUnique
        (sym (
          Claimed-items w.workers w.journal _ _
            (claim-Claimed w.workers now locked w.journal once.keyed)))
        u
  Step-IsUnique {w} (send id o before after here_held) once u = u
  Step-IsUnique {w} (confirm now id o receipt before after here_held may) once u =
      subst IsUnique
        (sym (
          MayMove-items id dispatching sent w.journal _
            (confirm-MayMove parse now id receipt w.journal)))
        u
  Step-IsUnique {w} (resolve now id o before after here_held) once u =
      subst IsUnique
        (sym (
          MayMove-items id dispatching (target o) w.journal _
            (resolve-MayMove parse now id o w.journal)))
        u
  Step-IsUnique {w} (crash x before after here_held) once u = u

  Reach-IsSound : {v : Deployment} → Reach key parse empty_world v → IsSound v
  unfolding state_of find_attempt
  Reach-IsSound here = record { once = record { keyed = tt; fine = λ i. Fine-new }; unique = tt }
  Reach-IsSound (next before step) =
      let sound = Reach-IsSound before in
      record {
        once = Step-IsOnce key parse step sound.once;
        unique = Step-IsUnique step sound.once sound.unique;
      }

  -- Whatever senders, finalizations, the gateway and crashes do to an empty journal, at most one
  -- call of the transport for an attempt that has reserved an occurrence of a task was acknowledged
  -- or ended ambiguously.
  pub at_most_once :
      (v : Deployment)
      → Reach key parse empty_world v
      → (task : ℕ) (r : Ref) → sends_for task r v ≤ 1
  at_most_once v reach task r =
      let sound = Reach-IsSound reach in
      count_once (owns task r v.journal.items) v.sends
        (λ a b ha hb. owns_unique task r v.journal.items a b sound.unique ha hb)
        (λ i. Fine-once _ _ _ _ _ (sound.once.fine i))
