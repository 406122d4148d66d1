-- ===== src/Terminal.antt =====
-- internal/transport/websocket/handler.go: the handler of `GET /sessions/{id}/attach`, and the two
-- pumps between the client and the terminal of the sandbox. encoding/json is the parameter
-- `unmarshal`, and gorilla/websocket enters by the frames that are read and written.
pub mod Pumps
pub mod Sessions
pub mod Console
pub mod Interleaving
pub mod Keeping
pub mod Goroutines
mod Tests
use docpine.Base.{
  ℕ, Bool, true, false, ◌&&◌, Option, none, some, List, [], ◌∷◌, ◌++◌, Bytes, codes, is_empty,
  str_eq, ◌==◌, if◌then◌else◌,
}
use docpine.Runtime.{Error, is_session_not_found, is_session_expired, ok, err, Runtime}
use docpine.Session.{Process, get, attach, destroy}

pub record ControlMessage : Type 0 where
  pub kind : Bytes
  pub cols : ℕ
  pub rows : ℕ

pub data MessageType : Type 0 where
  text_message binary_message close_message : MessageType

abbrev is_text : MessageType → Bool
is_text text_message = true
is_text _ = false

pub data Frame : Type 0 where
  message : MessageType → Bytes → Frame
  -- A close frame with its code and its reason.
  closing : ℕ → Bytes → Frame

abbrev pub pong : Bytes
pong = codes "{\"type\":\"pong\"}"

-- What the pump of the client's input has done so far.
pub record Input : Type 0 where
  pub to_terminal : List Bytes
  pub to_client : List Frame
  pub logged : List Bytes

-- handleControlMessage: only a ping has an effect.
unfoldable pub handle_control_message : ControlMessage → Input → Input
handle_control_message ctrl s =
    if str_eq ctrl.kind (codes "ping")
    then record s { to_client = s.to_client ++ message text_message pong ∷ [] }
    else s

-- What `conn.ReadMessage` returns: an error, or a message, with the result of the write to the
-- terminal, should the pump make one.
pub data ClientEvent : Type 0 where
  read_error : Error → ClientEvent
  received : MessageType → Bytes → Option Error → ClientEvent

abbrev starts_with_brace : Bytes → Bool
starts_with_brace [] = false
starts_with_brace (c ∷ s) = c == b'{'

module _ (unmarshal : Bytes → Option ControlMessage) where
  -- The control message that a frame is, if it is one.
  unfoldable pub control_of : MessageType → Bytes → Option ControlMessage
  control_of t m =
      if is_text t && starts_with_brace m
      then elim (unmarshal m) [
        | none ↦ none
        | some ctrl ↦ if is_empty ctrl.kind then none else some ctrl
      ]
      else none

  -- One message: a control message is handled, an empty one dropped, and any other one logged and
  -- written to the terminal. The second result is the error of that write.
  unfoldable pub on_message :
      Bool → MessageType → Bytes → Option Error → Input → Input × Option Error
  on_message logs t m written s =
      let s' = record s { logged = if logs then s.logged ++ m ∷ [] else s.logged } in
      elim (control_of t m) [
        | some ctrl ↦ (handle_control_message ctrl s, none)
        | none ↦ if is_empty m then (s, none) else elim written [
          | none ↦ (record s' { to_terminal = s'.to_terminal ++ m ∷ [] }, none)
          | some e ↦ (s', some e)
        ]
      ]

  -- The input pump over the events in their order. The second result is what it sends on `errChan`,
  -- or `none` while it still runs.
  unfoldable pub pump_input : Bool → List ClientEvent → Input → Input × Option Error
  pump_input logs [] s = (s, none)
  pump_input logs (read_error e ∷ es) s = (s, some e)
  pump_input logs (received t m written ∷ es) s =
      let (s', stop) = on_message logs t m written s in
      let rest = pump_input logs es s' in elim stop [ none ↦ rest | some e ↦ (s', some e) ]

-- What `ptyStream.Read` returns: bytes, perhaps an error beside them, and the result of the write
-- to the client, should the pump make one.
pub data ReadError : Type 0 where
  eof : ReadError
  failed : Error → ReadError

pub record TerminalRead : Type 0 where
  pub bytes : Bytes
  pub error : Option ReadError
  pub written : Option Error

pub record Output : Type 0 where
  pub to_client : List Frame
  pub logged : List Bytes

-- What the output pump sends on `errChan` for an error: nil for the end of the stream.
abbrev pub reported : ReadError → Option Error
reported eof = none
reported (failed e) = some e

-- One chunk, if there is one: it is logged and written to the client. The second result is the
-- error of that write.
unfoldable pub on_read : Bool → TerminalRead → Output → Output × Option Error
on_read logs r s =
    let sent : List Frame = elim r.written [
      | none ↦ s.to_client ++ message text_message r.bytes ∷ []
      | some e ↦ s.to_client
    ] in
    let s' : Output = record {
      to_client = sent;
      logged = if logs then s.logged ++ r.bytes ∷ [] else s.logged;
    } in
    if is_empty r.bytes then (s, none) else (s', r.written)

-- The output pump; the outer option of its second result is `none` while it still runs.
unfoldable pub pump_output : Bool → List TerminalRead → Output → Output × Option (Option Error)
pump_output logs [] s = (s, none)
pump_output logs (r ∷ rs) s =
    let (s', refused) = on_read logs r s in
    let rest = pump_output logs rs s' in
    elim refused [
      | some e ↦ (s', some (some e))
      | none ↦ elim r.error [ some e ↦ (s', some (reported e)) | none ↦ rest ]
    ]

-- How the handler answers before the pumps run: with a status, by the upgrader's own answer, by a
-- close frame, or with an open terminal.
pub data Opening (P : Type 0) : Type 0 where
  status : ℕ → Opening P
  upgrade_failed : Opening P
  closed : ℕ → Bytes → Opening P
  terminal : P → Opening P

module _ {W S P : Type 0} (rt : Runtime W S P) where
  -- Attach, up to the pumps. `now` and `now'` are the readings of Get and of Manager.Attach.
  unfoldable pub open_terminal : Bytes → Bool → ℕ → ℕ → Process W S → Process W S × Opening P
  open_terminal session_id upgraded now now' p =
      if is_empty session_id then (p, status 400) else elim (get session_id now p.mngr) [
        | err e ↦
            if is_session_not_found e
            then (p, status 404)
            else if is_session_expired e
            then (p, status 410)
            else (p, status 500)
        | ok sess ↦
            let (q, stream) = attach rt session_id now' p in
            let opened : Process W S × Opening P = elim stream [
              | err e ↦ (q, closed 1011 (codes "sandbox attach failed"))
              | ok pty ↦ (q, terminal pty)
            ] in
            if upgraded then opened else (p, upgrade_failed)
      ]

-- What ends the wait of the handler: a value on `errChan`, or the timer.
pub data Ending : Type 0 where
  pump_ended : Option Error → Ending
  timed_out : Ending

-- The close frame that the client is sent.
unfoldable pub farewell : Ending → Frame
farewell (pump_ended e) = closing 1000 (codes "session closed")
farewell timed_out = closing 1000 (codes "session duration limit reached")

module _ {W S P : Type 0} (rt : Runtime W S P) where
  -- Attach, after the pumps.
  unfoldable pub close_terminal : Bytes → Ending → Process W S → Process W S × Frame
  close_terminal session_id ending p = ((destroy rt session_id p).0, farewell ending)
