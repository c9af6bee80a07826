-- ===== src/TurnManager/Examples.antt =====
-- A user who asks, and then says "stop, wrong city" while the answer is spoken.
use blueship.Prelude.{String, true, false, Option, none, some, [], ◌∷◌, ◌≡◌, refl, trim_space}
use blueship.TurnManager.{
  InterjectionClass, InMsg, InboundMessage, InterjectResult, Turn, TurnManager, new_turn_manager,
  start_turn, cancel_active, on_interjection, is_active, write, classify, to_inbound,
  dispatch_utterance, dispatch, is_member,
}
use blueship.TurnManager.Steps.{
  inbound, hang_up, interjection, classified, Reachable, start, then, Phase,
}
use blueship.TurnManager.Turns.{
  Unwinds, IsServed, Reachable-Phase, pending-IsServed, stopped-canceled,
}

abbrev plain : String → Option String
plain s = some s

abbrev says : String → InMsg
says s = record { kind = "text"; data_ = s }

abbrev message : String → InboundMessage
message s = record { text = s; audio = "" }

abbrev asked : TurnManager
asked = dispatch plain (says "weather in Rome?") new_turn_manager

abbrev interrupted : TurnManager
interrupted = dispatch plain (says "stop, wrong city") asked

abbrev correction : Turn
correction = record { handle = 0; message = message "stop, wrong city" }

abbrev verdict : InterjectResult
verdict = record { handle = 0; class = InterjectionClass.interrupt; text = "stop, wrong city" }

abbrev heard : TurnManager
heard = record interrupted { classifying = []; interject = verdict ∷ [] }

abbrev waiting : TurnManager
waiting = on_interjection verdict (record heard { interject = [] })

interrupted-Reachable : Reachable plain interrupted
unfolding dispatch dispatch_utterance to_inbound start_turn
interrupted-Reachable =
    then (then start (inbound (says "weather in Rome?") refl))
      (inbound (says "stop, wrong city") refl)

heard-Reachable : Reachable plain heard
unfolding dispatch dispatch_utterance to_inbound start_turn classify trim_space
heard-Reachable =
    then interrupted-Reachable
      (classified [] [] correction none (some InterjectionClass.interrupt) refl)

waiting-Reachable : Reachable plain waiting
unfolding dispatch dispatch_utterance to_inbound start_turn
waiting-Reachable = then heard-Reachable (interjection verdict [] refl refl)

waiting_utterance : waiting.pending ≡ some (message "stop, wrong city")
unfolding on_interjection is_active cancel_active write dispatch dispatch_utterance to_inbound
    start_turn
waiting_utterance = refl

waiting_open : waiting.stopped ≡ false
unfolding on_interjection is_active cancel_active write dispatch dispatch_utterance to_inbound
    start_turn
waiting_open = refl

Reachable-Phase_example : Phase waiting
Reachable-Phase_example = Reachable-Phase plain waiting waiting-Reachable

pending-IsServed_example :
    (tm' : TurnManager) × Unwinds plain (λ h. some "no route") waiting tm'
    × IsServed plain (message "stop, wrong city") tm'
pending-IsServed_example =
    pending-IsServed plain waiting (message "stop, wrong city") waiting-Reachable waiting_open
      waiting_utterance (λ h. some "no route")

abbrev closed : TurnManager
closed = record (cancel_active asked) { stopped = true }

closed-Reachable : Reachable plain closed
unfolding dispatch dispatch_utterance to_inbound start_turn
closed-Reachable = then (then start (inbound (says "weather in Rome?") refl)) (hang_up refl)

closed_active : closed.active ≡ some 0
unfolding cancel_active dispatch dispatch_utterance to_inbound start_turn
closed_active = refl

closed_stopped : closed.stopped ≡ true
closed_stopped = refl

stopped-canceled_example : is_member 0 closed.canceled ≡ true
stopped-canceled_example =
    stopped-canceled plain closed closed-Reachable 0 closed_stopped closed_active
