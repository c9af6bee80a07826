-- ===== src/TurnManager/Steps.antt =====
-- The select of `run` and the goroutines as a step relation, and what every reachable state keeps:
-- turns of one connection never overlap, and an utterance that waits is not forgotten.
use blueship.Prelude.{
  ℕ, String, Bool, true, false, Option, none, some, List, [], ◌∷◌, ◌++◌, ◌≡◌, ◌⊎◌, inl, inr, refl,
  arith, Bool-cases, Option-cases, ◌||◌, str_eq,
}
use blueship.TurnManager.{
  InterjectionClass, InMsg, InboundMessage, InterjectResult, Turn, TurnManager, new_turn_manager,
  write, start_turn, cancel_active, start_or_queue, is_active, on_interjection, on_turn_done,
  classify, to_inbound, dispatch_utterance, dispatch, finish, drop_turn, is_running,
}

abbrev posted : Option InterjectResult → List InterjectResult
posted none = []
posted (some ir) = ir ∷ []

module _ (decode : String → Option String) where
  pub data Step (tm : TurnManager) : TurnManager → Type 0 where
    -- a frame arrives
    inbound : (m : InMsg) → tm.stopped ≡ false → Step tm (dispatch decode m tm)
    -- the connection ends
    hang_up : tm.stopped ≡ false → Step tm (record (cancel_active tm) { stopped = true })
    -- the loop receives from `turnDone`
    done :
        (h : ℕ) (rest : List ℕ)
        → tm.stopped ≡ false
        → tm.turn_done ≡ h ∷ rest
        → Step tm (on_turn_done h (record tm { turn_done = rest }))
    -- the loop receives from `interject`
    interjection :
        (ir : InterjectResult) (rest : List InterjectResult)
        → tm.stopped ≡ false
        → tm.interject ≡ ir ∷ rest
        → Step tm (on_interjection ir (record tm { interject = rest }))
    -- the goroutine of a turn returns
    returns :
        (h : ℕ) (failure : Option String)
        → is_running h tm.turns ≡ true
        → Step tm (finish h failure tm)
    -- a classification goroutine returns
    classified :
        (before after : List Turn) (t : Turn) (transcript : Option String)
        (class : Option InterjectionClass)
        → tm.classifying ≡ before ++ t ∷ after
        → Step tm (record tm {
          classifying = before ++ after;
          interject = tm.interject ++ posted (classify t transcript class);
        })

  pub data Reachable : TurnManager → Type 0 where
    start : Reachable new_turn_manager
    then : {tm tm' : TurnManager} → Reachable tm → Step tm tm' → Reachable tm'

abbrev is_control : InMsg → Bool
is_control m = str_eq m.kind "speech_start" || str_eq m.kind "cancel"

abbrev is_utterance : InMsg → Bool
is_utterance m = str_eq m.kind "text" || str_eq m.kind "audio"

-- The goroutine of a turn and its report on `turnDone` are the active turn's, and there is one.
pub data Phase (tm : TurnManager) : Type 0 where
  idle : tm.active ≡ none → tm.turns ≡ [] → tm.turn_done ≡ [] → tm.pending ≡ none → Phase tm
  running :
      (t : Turn) → tm.active ≡ some t.handle → tm.turns ≡ t ∷ [] → tm.turn_done ≡ [] → Phase tm
  returned : (h : ℕ) → tm.active ≡ some h → tm.turns ≡ [] → tm.turn_done ≡ h ∷ [] → Phase tm

-- Two states that agree on what `Phase` reads.
pub Phase-subst :
    (tm tm' : TurnManager)
    → tm'.active ≡ tm.active
    → tm'.turns ≡ tm.turns
    → tm'.turn_done ≡ tm.turn_done
    → ((tm'.pending ≡ tm.pending) ⊎ ((h : ℕ) × (tm.active ≡ some h)))
    → Phase tm
    → Phase tm'
Phase-subst tm tm' a t d p (idle a' t' d' p') =
    idle (cc) (cc) (cc) (elim p [ inl e ↦ cc | inr (h, e) ↦ absurd (ground arith) ])
Phase-subst tm tm' a t d p (running u a' t' d') = running u (cc) (cc) (cc)
Phase-subst tm tm' a t d p (returned h a' t' d') = returned h (cc) (cc) (cc)

-- What a handler does: it leaves the fields of `Phase` alone, up to a new utterance that waits for
-- the active turn, or it starts a turn when there is none.
abbrev Same : TurnManager → TurnManager → Type 0
Same tm tm' =
    (tm'.active ≡ tm.active)
    × (tm'.turns ≡ tm.turns)
    × (tm'.turn_done ≡ tm.turn_done)
    × ((tm'.pending ≡ tm.pending) ⊎ ((h : ℕ) × (tm.active ≡ some h)))

abbrev Starts : Turn → TurnManager → TurnManager → Type 0
Starts t tm tm' =
    (tm.active ≡ none)
    × (tm'.active ≡ some t.handle)
    × (tm'.turns ≡ t ∷ tm.turns)
    × (tm'.turn_done ≡ tm.turn_done)

abbrev Effect : TurnManager → TurnManager → Type 0
Effect tm tm' = Same tm tm' ⊎ ((t : Turn) × Starts t tm tm')

pub Effect-Phase : (tm tm' : TurnManager) → Effect tm tm' → Phase tm → Phase tm'
Effect-Phase tm tm' (inl (a, t, d, p)) h = Phase-subst tm tm' a t d p h
Effect-Phase tm tm' (inr (t, (none_yet, a, ts, d))) (idle _ ts' d' _) =
    running t a (rw ts' at ts) (rw d' at d)
Effect-Phase tm tm' (inr (_, (none_yet, _, _, _))) (running t a _ _) = absurd (ground arith)
Effect-Phase tm tm' (inr (_, (none_yet, _, _, _))) (returned h a _ _) = absurd (ground arith)

abbrev next_turn : TurnManager → InboundMessage → Turn
next_turn tm inb = record { handle = tm.next; message = inb }

pub cancel_active-Same : (tm : TurnManager) → Same tm (cancel_active tm)
unfolding cancel_active
cancel_active-Same tm = ground arith

start_or_queue-Effect :
    (inb : InboundMessage) (tm : TurnManager) → Effect tm (start_or_queue inb tm)
unfolding start_or_queue start_turn
start_or_queue-Effect inb tm = elim (Option-cases tm.active) [
  | inl e ↦ inr (next_turn tm inb, (e, ground arith, ground arith, ground arith))
  | inr (h, e) ↦ inl (ground arith, ground arith, ground arith, inr (h, e))
]

pub on_interjection-Effect :
    (ir : InterjectResult) (tm : TurnManager) → Effect tm (on_interjection ir tm)
unfolding on_interjection is_active write cancel_active
on_interjection-Effect ir tm = elim (Bool-cases (is_active tm ir.handle)) [
  | inr other ↦ rw (other, on_interjection) (start_or_queue-Effect _ tm)
  | inl own ↦ inl (ground arith, ground arith, ground arith, ground arith)
]

dispatch_utterance-Effect :
    (decode : String → Option String) (m : InMsg) (tm : TurnManager)
    → Effect tm (dispatch_utterance decode m tm)
unfolding dispatch_utterance start_turn write
dispatch_utterance-Effect decode m tm = of_inbound (to_inbound decode m) refl
  where
    of_inbound :
        (r : InboundMessage ⊎ String)
        → to_inbound decode m ≡ r
        → Effect tm (dispatch_utterance decode m tm)
    of_inbound (inr e) h = inl (ground arith, ground arith, ground arith, inl (ground arith))
    of_inbound (inl inb) h = elim (Option-cases tm.active) [
      | inl e ↦ inr (next_turn tm inb, (e, ground arith, ground arith, ground arith))
      | inr (k, e) ↦ inl (ground arith, ground arith, ground arith, inr (k, e))
    ]

pub dispatch-Effect :
    (decode : String → Option String) (m : InMsg) (tm : TurnManager)
    → Effect tm (dispatch decode m tm)
unfolding dispatch write cancel_active
dispatch-Effect decode m tm = elim (Bool-cases (is_control m)) [
  | inl c ↦ inl (ground arith, ground arith, ground arith, inl (ground arith))
  | inr c ↦ elim (Bool-cases (is_utterance m)) [
    | inl u ↦
        let at : dispatch decode m tm ≡ dispatch_utterance decode m tm = ground arith in
        rw at (dispatch_utterance-Effect decode m tm)
    | inr u ↦ inl (ground arith, ground arith, ground arith, inl (ground arith))
  ]
]

pub on_turn_done-Phase :
    (h : ℕ) (rest : List ℕ) (tm : TurnManager)
    → tm.turn_done ≡ h ∷ rest
    → Phase tm
    → Phase (on_turn_done h (record tm { turn_done = rest }))
unfolding on_turn_done start_turn is_active
on_turn_done-Phase h rest tm e (idle a t d p) = absurd (ground arith)
on_turn_done-Phase h rest tm e (running u a t d) = absurd (ground arith)
on_turn_done-Phase h rest tm e (returned k a t d) = elim (Option-cases tm.pending) [
  | inl quiet ↦ idle (ground arith) (ground arith) (ground arith) (ground arith)
  | inr (inb, waits) ↦ running (next_turn tm inb) (ground arith) (ground arith) (ground arith)
]

pub finish-Phase :
    (h : ℕ) (failure : Option String) (tm : TurnManager)
    → is_running h tm.turns ≡ true
    → Phase tm
    → Phase (finish h failure tm)
unfolding finish is_running drop_turn write
finish-Phase h failure tm e (idle a t d p) = absurd (ground arith)
finish-Phase h failure tm e (returned k a t d) = absurd (ground arith)
finish-Phase h failure tm e (running u a t d) =
    returned h (ground arith) (ground arith) (ground arith)
