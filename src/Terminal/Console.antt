-- ===== src/Terminal/Console.antt =====
-- Attach of handler.go as a whole: both pumps at once, each event in the order in which it happens,
-- then the end.
use docpine.Base.{Bool, Option, none, some, List, [], ◌∷◌, ◌++◌, Bytes, ℕ}
use docpine.Runtime.{Error, Runtime}
use docpine.Session.{Process}
use docpine.Terminal.{
  ControlMessage, Frame, Input, ClientEvent, read_error, received, on_message, ReadError,
  TerminalRead, Output, on_read, reported, Opening, terminal, open_terminal, Ending, pump_ended,
  timed_out, close_terminal,
}

-- What the pump of the client's input meets, what the pump of the terminal's output meets, or the
-- timer.
pub data Event : Type 0 where
  typed : ClientEvent → Event
  printed : TerminalRead → Event
  timer : Event

-- What both pumps have done so far.
pub record Console : Type 0 where
  pub to_terminal : List Bytes
  pub to_client : List Frame
  pub in_log : List Bytes
  pub out_log : List Bytes

abbrev pub silent_console : Console
silent_console = record { to_terminal = []; to_client = []; in_log = []; out_log = [] }

abbrev pub with_input : Console → Input → Console
with_input c s = record c {
  to_terminal = s.to_terminal;
  to_client = s.to_client;
  in_log = s.logged;
}

abbrev pub as_input : Console → Input
as_input c = record { to_terminal = c.to_terminal; to_client = c.to_client; logged = c.in_log }

abbrev pub with_output : Console → Output → Console
with_output c s = record c { to_client = s.to_client; out_log = s.logged }

abbrev pub as_output : Console → Output
as_output c = record { to_client = c.to_client; logged = c.out_log }

-- A pump that stops sends its error on `errChan`, which ends the wait of the handler.
abbrev pub stopped : Option Error → Option Ending
stopped none = none
stopped (some e) = some (pump_ended (some e))

abbrev pub read_stopped : Option ReadError → Option Ending
read_stopped none = none
read_stopped (some e) = some (pump_ended (reported e))

module _ (unmarshal : Bytes → Option ControlMessage) (in_logs out_logs : Bool) where
  unfoldable pub console_step : Event → Console → Console × Option Ending
  console_step (typed (read_error e)) c = (c, some (pump_ended (some e)))
  console_step (typed (received t m written)) c =
      let (s, stop) = on_message unmarshal in_logs t m written (as_input c) in
      (with_input c s, stopped stop)
  console_step (printed r) c =
      let (s, refused) = on_read out_logs r (as_output c) in
      (with_output c s, elim refused [ some e ↦ stopped (some e) | none ↦ read_stopped r.error ])
  console_step timer c = (c, some timed_out)

  -- Up to the first end of a pump, or the timer, at which the handler leaves its select; `none`
  -- while it still waits. What the other goroutine does until the connection is closed is in
  -- Goroutines.
  unfoldable pub run_console : List Event → Console → Console × Option Ending
  run_console [] c = (c, none)
  run_console (e ∷ es) c =
      let (c', stop) = console_step e c in
      let rest = run_console es c' in elim stop [ none ↦ rest | some end ↦ (c', some end) ]

  module _ {W S P : Type 0} (rt : Runtime W S P) where
    -- The close frame, which is the last one, and mngr.Destroy.
    unfoldable pub finish_console :
        Bytes → Console × Option Ending → Process W S → Process W S × Console
    finish_console session_id (c, none) p = (p, c)
    finish_console session_id (c, some end) p =
        let (q, frame) = close_terminal rt session_id end p in
        (q, record c { to_client = c.to_client ++ frame ∷ [] })

    -- `meanwhile` is what the rest of the server does while the terminal is open, to the manager and
    -- to whatever else it keeps.
    unfoldable pub converse :
        {A : Type 0}
        → Bytes
        → List Event
        → (Process W S × A → Process W S × A)
        → A
        → Process W S × Opening P
        → (Process W S × A) × Opening P × Console
    converse session_id events meanwhile a (q, terminal pty) =
        let (q', a') = meanwhile (q, a) in
        let (r, c) = finish_console session_id (run_console events silent_console) q' in
        ((r, a'), terminal pty, c)
    converse session_id events meanwhile a (q, refused) = ((q, a), refused, silent_console)

    -- Handler.Attach
    unfoldable pub attach_terminal :
        {A : Type 0}
        → Bytes
        → Bool
        → ℕ
        → ℕ
        → List Event
        → (Process W S × A → Process W S × A)
        → Process W S × A
        → (Process W S × A) × Opening P × Console
    attach_terminal session_id upgraded now now' events meanwhile (p, a) =
        converse session_id events meanwhile a (open_terminal rt session_id upgraded now now' p)
