-- ===== src/TurnManager/Turns.antt =====
-- What every reachable state of a connection keeps: turns never overlap, an utterance that waits
-- gets its turn, and the turn of a closed connection is cancelled.
use blueship.Prelude.{
  ℕ, String, true, false, Option, none, some, [], ◌∷◌, ◌≡◌, inl, refl, sym, ◌∙◌, arith,
}
use blueship.TurnManager.{
  InMsg, InboundMessage, InterjectResult, Turn, TurnManager, write, start_turn, cancel_active,
  start_or_queue, is_active, on_interjection, on_turn_done, dispatch_utterance, dispatch, finish,
  is_running, is_member, drop_turn,
}
use blueship.TurnManager.Steps.{
  Step, inbound, hang_up, done, interjection, returns, classified, Reachable, start, then, Phase,
  idle, running, returned, Phase-subst, Effect-Phase, on_interjection-Effect, dispatch-Effect,
  on_turn_done-Phase, finish-Phase, cancel_active-Same,
}

dispatch-stopped :
    (decode : String → Option String) (m : InMsg) (tm : TurnManager)
    → (dispatch decode m tm).stopped ≡ tm.stopped
unfolding dispatch dispatch_utterance start_turn write cancel_active
dispatch-stopped decode m tm = ground arith

on_interjection-stopped :
    (ir : InterjectResult) (tm : TurnManager) → (on_interjection ir tm).stopped ≡ tm.stopped
unfolding on_interjection start_or_queue start_turn write cancel_active
on_interjection-stopped ir tm = ground arith

on_turn_done-stopped : (h : ℕ) (tm : TurnManager) → (on_turn_done h tm).stopped ≡ tm.stopped
unfolding on_turn_done start_turn
on_turn_done-stopped h tm = ground arith

hang_up-canceled :
    (tm : TurnManager) (h : ℕ)
    → (cancel_active tm).active ≡ some h
    → is_member h (cancel_active tm).canceled ≡ true
unfolding cancel_active is_member
hang_up-canceled tm h a = ground arith

finish-keeps :
    (k : ℕ) (failure : Option String) (tm : TurnManager)
    → ((finish k failure tm).stopped ≡ tm.stopped)
      × ((finish k failure tm).active ≡ tm.active)
      × ((finish k failure tm).canceled ≡ tm.canceled)
unfolding finish write
finish-keeps k failure tm = ground arith

module _ (decode : String → Option String) where
  Step-Phase : {tm tm' : TurnManager} → Step decode tm tm' → Phase tm → Phase tm'
  Step-Phase {tm} {tm'} (inbound m on) p = Effect-Phase tm _ (dispatch-Effect decode m tm) p
  Step-Phase {tm} {tm'} (hang_up on) p =
      let (a, t, d, w) = cancel_active-Same tm in
      Phase-subst tm (record (cancel_active tm) { stopped = true }) a t d w p
  Step-Phase {tm} {tm'} (done h rest on e) p = on_turn_done-Phase h rest tm e p
  Step-Phase {tm} {tm'} (interjection ir rest on e) p =
      Effect-Phase (record tm { interject = rest }) _
        (on_interjection-Effect ir (record tm { interject = rest }))
        (Phase-subst tm (record tm { interject = rest }) refl refl refl (inl refl) p)
  Step-Phase {tm} {tm'} (returns h failure e) p = finish-Phase h failure tm e p
  Step-Phase {tm} {tm'} (classified before after t transcript class e) p =
      Phase-subst tm _ refl refl refl (inl refl) p

  -- In every reachable state at most one turn of the connection runs or has just returned, it is the
  -- active one, and while no turn is active no utterance waits.
  pub Reachable-Phase : (tm : TurnManager) → Reachable decode tm → Phase tm
  Reachable-Phase tm start = idle refl refl refl refl
  Reachable-Phase tm (then r s) = Step-Phase s (Reachable-Phase _ r)

  -- Nothing happens but that the turn that runs returns, with the result that `failure` gives it, and
  -- that the loop receives its report.
  pub data Unwinds (failure : ℕ → Option String) : TurnManager → TurnManager → Type 0 where
    settled : {tm : TurnManager} → Unwinds failure tm tm
    back :
        {tm tm' : TurnManager} (h : ℕ)
        → Step decode tm (finish h (failure h) tm)
        → is_running h tm.turns ≡ true
        → Unwinds failure (finish h (failure h) tm) tm'
        → Unwinds failure tm tm'
    received :
        {tm tm' : TurnManager} (h : ℕ)
        → Step decode tm (on_turn_done h (record tm { turn_done = [] }))
        → tm.turn_done ≡ h ∷ []
        → Unwinds failure (on_turn_done h (record tm { turn_done = [] })) tm'
        → Unwinds failure tm tm'

  -- The state in which the waiting utterance has its turn.
  abbrev pub IsServed : InboundMessage → TurnManager → Type 0
  IsServed inb tm =
      (t : Turn) × (t.message ≡ inb)
      × (tm.active ≡ some t.handle)
      × (tm.turns ≡ t ∷ [])
      × (tm.pending ≡ none)

  after_return :
      (tm : TurnManager) (h : ℕ) (inb : InboundMessage)
      → tm.active ≡ some h
      → tm.turns ≡ []
      → tm.pending ≡ some inb
      → IsServed inb (on_turn_done h (record tm { turn_done = [] }))
  unfolding on_turn_done start_turn is_active
  after_return tm h inb a t w =
      (record { handle = tm.next; message = inb }, refl, ground arith, ground arith, ground arith)

  -- In every reachable state of an open connection an utterance that waits gets its turn if nothing
  -- comes in between: whatever the turn that runs returns with, once it has returned and the loop has
  -- received its report, the turn of the utterance is the one that runs, and nothing waits.
  pub pending-IsServed :
      (tm : TurnManager) (inb : InboundMessage)
      → Reachable decode tm
      → tm.stopped ≡ false
      → tm.pending ≡ some inb
      → (failure : ℕ → Option String)
      → (tm' : TurnManager) × Unwinds failure tm tm' × IsServed inb tm'
  pending-IsServed tm inb r on w failure = of_phase (Reachable-Phase tm r)
    where
      of_phase : Phase tm → (tm' : TurnManager) × Unwinds failure tm tm' × IsServed inb tm'
      of_phase (idle a t d p) = absurd (ground arith)
      of_phase (returned h a t d) =
          (_, received h (done h [] on d) d settled, after_return tm h inb a t w)
      of_phase (running u a t d) =
          let back_to = finish u.handle (failure u.handle) tm in
          let on' : back_to.stopped ≡ false = unfold finish write in ground arith in
          let a' : back_to.active ≡ some u.handle = unfold finish write in ground arith in
          let t' : back_to.turns ≡ [] = unfold finish write drop_turn in ground arith in
          let d' : back_to.turn_done ≡ u.handle ∷ [] = unfold finish write in ground arith in
          let w' : back_to.pending ≡ some inb = unfold finish write in ground arith in
          let runs : is_running u.handle tm.turns ≡ true = unfold is_running in ground arith in
          (
            _,
            back u.handle (returns u.handle (failure u.handle) runs) runs
                (received u.handle (done u.handle [] on' d') d' settled),
            after_return back_to u.handle inb a' t' w',
          )

  abbrev Canceled : TurnManager → Type 0
  Canceled tm = (h : ℕ) → tm.stopped ≡ true → tm.active ≡ some h → is_member h tm.canceled ≡ true

  Step-Canceled : {tm tm' : TurnManager} → Step decode tm tm' → Canceled tm → Canceled tm'
  Step-Canceled {tm} {tm'} (inbound m on) c h off a =
      absurd (ground (arith, dispatch-stopped decode m tm))
  Step-Canceled {tm} {tm'} (hang_up on) c h off a = hang_up-canceled tm h a
  Step-Canceled {tm} {tm'} (done k rest on e) c h off a =
      absurd (ground (arith, on_turn_done-stopped k (record tm { turn_done = rest })))
  Step-Canceled {tm} {tm'} (interjection ir rest on e) c h off a =
      absurd (ground (arith, on_interjection-stopped ir (record tm { interject = rest })))
  Step-Canceled {tm} {tm'} (returns k failure e) c h off a =
      let (s, act, can) = finish-keeps k failure tm in rw can (c h (sym s ∙ off) (sym act ∙ a))
  Step-Canceled {tm} {tm'} (classified before after t transcript class e) c h off a = c h off a

  Reachable-Canceled : (tm : TurnManager) → Reachable decode tm → Canceled tm
  Reachable-Canceled tm start = λ h off a. cc
  Reachable-Canceled tm (then r s) = Step-Canceled s (Reachable-Canceled _ r)

  -- Once the connection has ended, the turn that is still active is cancelled.
  pub stopped-canceled :
      (tm : TurnManager)
      → Reachable decode tm
      → (h : ℕ) → tm.stopped ≡ true
      → tm.active ≡ some h
      → is_member h tm.canceled ≡ true
  stopped-canceled tm r = Reachable-Canceled tm r
