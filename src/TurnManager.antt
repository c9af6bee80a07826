-- ===== src/TurnManager.antt =====
-- The barge-in voice loop (internal/transport/ws/turn_manager.go): the actor `turnManager`, the
-- goroutines it starts and the channels they report on. A turn handle is the number of the turn, in
-- the order of their start; `canceled` are the handles whose context was cancelled. The answers of
-- the transcription, of the classifier and of the turn itself come with the step that receives
-- them. Base64 decoding belongs to Go's library: `decode`, where `none` is its error.
pub mod Steps
pub mod Turns
mod Examples
use blueship.Prelude.{
  ℕ, suc, String, Bool, true, false, not, ◌||◌, ◌⊎◌, inl, inr, Option, none, some, List, [], ◌∷◌,
  ◌++◌, ◌==◌, if◌then◌else◌, str_eq, trim_space,
}

pub data InterjectionClass : Type 0 where
  backchannel interrupt unclear : InterjectionClass

pub record InMsg : Type 0 where
  pub kind : String
  pub data_ : String

pub record InboundMessage : Type 0 where
  pub text : String
  pub audio : String

pub data OutMsg : Type 0 where
  duck canceled resume : OutMsg
  error : String → OutMsg

pub record InterjectResult : Type 0 where
  pub handle : ℕ
  pub class : InterjectionClass
  pub text : String

-- A turn's goroutine, and one of `classifyAsync`.
pub record Turn : Type 0 where
  pub handle : ℕ
  pub message : InboundMessage

pub record TurnManager : Type 0 where
  pub active : Option ℕ
  pub pending : Option InboundMessage
  pub turn_done : List ℕ
  pub interject : List InterjectResult
  pub turns : List Turn
  pub classifying : List Turn
  pub canceled : List ℕ
  pub next : ℕ
  pub written : List OutMsg
  pub stopped : Bool

abbrev pub new_turn_manager : TurnManager
new_turn_manager = record {
  active = none;
  pending = none;
  turn_done = [];
  interject = [];
  turns = [];
  classifying = [];
  canceled = [];
  next = 0;
  written = [];
  stopped = false;
}

unfoldable pub write : OutMsg → TurnManager → TurnManager
write m tm = record tm { written = tm.written ++ m ∷ [] }

-- `startTurn`
unfoldable pub start_turn : InboundMessage → TurnManager → TurnManager
start_turn inb tm = record tm {
  active = some tm.next;
  turns = record { handle = tm.next; message = inb } ∷ tm.turns;
  next = suc tm.next;
}

-- `cancelActive`: it does not clear the active turn.
unfoldable pub cancel_active : TurnManager → TurnManager
cancel_active tm = elim tm.active [ none ↦ tm | some h ↦ record tm { canceled = h ∷ tm.canceled } ]

-- `startOrQueue`
unfoldable pub start_or_queue : InboundMessage → TurnManager → TurnManager
start_or_queue inb tm = elim tm.active [
  | none ↦ start_turn inb tm
  | some h ↦ record tm { pending = some inb }
]

unfoldable pub is_active : TurnManager → ℕ → Bool
is_active tm h = elim tm.active [ none ↦ false | some a ↦ a == h ]

abbrev spoken : String → InboundMessage
spoken s = record { text = s; audio = "" }

-- `onInterjection`
unfoldable pub on_interjection : InterjectResult → TurnManager → TurnManager
on_interjection ir tm =
    if not (is_active tm ir.handle) then start_or_queue (spoken ir.text) tm else elim ir.class [
      | interrupt ↦
          let tm' = write canceled (cancel_active tm) in
          record tm' { pending = some (spoken ir.text) }
      | backchannel ↦ write resume tm
      | unclear ↦ write resume tm
    ]

abbrev clear : ℕ → TurnManager → TurnManager
clear h tm = if is_active tm h then record tm { active = none } else tm

abbrev start_pending : TurnManager → TurnManager
start_pending tm = elim tm.active [
  | some a ↦ tm
  | none ↦ elim tm.pending [ none ↦ tm | some p ↦ start_turn p (record tm { pending = none }) ]
]

-- `onTurnDone`
unfoldable pub on_turn_done : ℕ → TurnManager → TurnManager
on_turn_done h tm = start_pending (clear h tm)

-- The goroutine of `classifyAsync`: nothing, or the result that it posts.
unfoldable pub classify :
    Turn
    → (transcript : Option String) → (class : Option InterjectionClass) → Option InterjectResult
classify t transcript class =
    let heard : Option String =
      if str_eq t.message.audio ""
      then some (trim_space t.message.text)
      else elim transcript [ none ↦ none | some s ↦ some (trim_space s) ] in
    elim heard [
      | none ↦ none
      | some s ↦
          if str_eq s ""
          then none
          else some (record {
            handle = t.handle;
            class = elim class [ none ↦ InterjectionClass.unclear | some c ↦ c ];
            text = s;
          })
    ]

module _ (decode : String → Option String) where
  -- `toInbound`; the error is its text.
  unfoldable pub to_inbound : InMsg → InboundMessage ⊎ String
  to_inbound m =
      if str_eq m.kind "text"
      then inl (record { text = m.data_; audio = "" })
      else if str_eq m.kind "audio"
      then elim (decode m.data_) [
        | none ↦ inr "invalid base64 audio"
        | some a ↦ inl (record { text = ""; audio = a })
      ]
      else inr "unknown message type"

  -- The case "text", "audio" of `dispatch`.
  unfoldable pub dispatch_utterance : InMsg → TurnManager → TurnManager
  dispatch_utterance m tm = elim (to_inbound m) [
    | inr e ↦ write (error e) tm
    | inl inb ↦ elim tm.active [
      | none ↦ start_turn inb tm
      | some h ↦ record tm { classifying = record { handle = h; message = inb } ∷ tm.classifying }
    ]
  ]

  -- `dispatch`
  unfoldable pub dispatch : InMsg → TurnManager → TurnManager
  dispatch m tm =
      if str_eq m.kind "speech_start"
      then elim tm.active [ none ↦ tm | some h ↦ write duck tm ]
      else if str_eq m.kind "cancel"
      then elim tm.active [ none ↦ tm | some h ↦ write canceled (cancel_active tm) ]
      else if str_eq m.kind "text" || str_eq m.kind "audio"
      then dispatch_utterance m tm
      else write (error "unknown message type") tm

unfoldable pub is_member : ℕ → List ℕ → Bool
is_member h [] = false
is_member h (c ∷ cs) = c == h || is_member h cs

unfoldable pub drop_turn : ℕ → List Turn → List Turn
drop_turn h [] = []
drop_turn h (t ∷ ts) = let rest = drop_turn h ts in if t.handle == h then rest else t ∷ rest

unfoldable pub is_running : ℕ → List Turn → Bool
is_running h [] = false
is_running h (t ∷ ts) = t.handle == h || is_running h ts

-- The goroutine of a turn returns; an error of a turn that was not cancelled is written.
unfoldable pub finish : ℕ → (failure : Option String) → TurnManager → TurnManager
finish h failure tm =
    let tm' : TurnManager = elim failure [
      | none ↦ tm
      | some e ↦ if is_member h tm.canceled then tm else write (error e) tm
    ] in
    record tm' { turns = drop_turn h tm'.turns; turn_done = tm'.turn_done ++ h ∷ [] }
