-- ===== src/Terminal/Goroutines.antt =====
-- Attach of handler.go, from the start of its two goroutines on: the goroutines, the channel on
-- which they report, and the handler, up to the last of its deferred calls. The manager's part of
-- the end is in Console.
pub mod Ends
pub mod Frames
pub mod Consoles
use docpine.Base.{
  ℕ, suc, ◌<◌, ◌≡◌, ◌⊎◌, ◌≢◌, Bool, true, false, ◌&&◌, leb, Option, none, some, List, [], ◌∷◌, ◌++◌,
  Bytes, length, if◌then◌else◌,
}
use docpine.Runtime.{Error}
use docpine.Terminal.{
  ControlMessage, MessageType, on_message, ReadError, TerminalRead, on_read, reported, Ending,
  pump_ended, timed_out, farewell,
}
use docpine.Terminal.Console.{Console, silent_console, with_input, as_input, with_output, as_output}

-- A goroutine in its loop, at the send on `errChan`, or at its end.
pub data Pump : Type 0 where
  pumping : Pump
  reporting : Option Error → Pump
  gone : Pump

-- The handler: at the select, at the close frame, at mngr.Destroy, at each of the deferred closes,
-- and at its end.
pub data Stage : Type 0 where
  waiting : Stage
  parting : Ending → Stage
  destroying closing_out_log closing_in_log closing_stream closing_conn returned : Stage

-- How far the handler is.
abbrev pub rank : Stage → ℕ
rank waiting = 0
rank (parting end) = 1
rank destroying = 2
rank closing_out_log = 3
rank closing_in_log = 4
rank closing_stream = 5
rank closing_conn = 6
rank returned = 7

-- Before the close frame. The connection takes no frame after it.
abbrev pub takes_frames : Stage → Bool
takes_frames s = leb (rank s) 1

abbrev pub out_log_open : Stage → Bool
out_log_open s = leb (rank s) 3

abbrev pub in_log_open : Stage → Bool
in_log_open s = leb (rank s) 4

abbrev pub stream_open : Stage → Bool
stream_open s = leb (rank s) 5

abbrev pub conn_open : Stage → Bool
conn_open s = leb (rank s) 6

-- The next stage after mngr.Destroy and after each deferred call.
unfoldable pub leave : Stage → Option Stage
leave destroying = some closing_out_log
leave closing_out_log = some closing_in_log
leave closing_in_log = some closing_stream
leave closing_stream = some closing_conn
leave closing_conn = some returned
leave _ = none

pub record Room : Type 0 where
  pub console : Console
  pub input : Pump
  pub output : Pump
  -- `errChan`, which has room for two.
  pub err_chan : List (Option Error)
  pub stage : Stage
  -- The messages that the connection has received and that are not read yet.
  pub unread : ℕ

abbrev pub opened : Room
opened = record {
  console = silent_console;
  input = pumping;
  output = pumping;
  err_chan = [];
  stage = waiting;
  unread = 0;
}

-- What the client gets, as long as frames can be written.
abbrev frames_while : Stage → Console → Console → Console
frames_while s c c' = record c' { to_client = if takes_frames s then c'.to_client else c.to_client }

abbrev pub after_write : Option Error → Pump
after_write none = pumping
after_write (some e) = reporting (some e)

abbrev pub after_read : Option Error → Option ReadError → Pump
after_read (some e) end = reporting (some e)
after_read none (some end) = reporting (reported end)
after_read none none = pumping

-- What a read of the terminal can give: bytes or an error, once the stream is closed; and a write to
-- the client fails after the close frame.
abbrev pub Readable : Stage → TerminalRead → Type 0
Readable s x =
    (stream_open s ≡ false → (x.bytes ≢ []) ⊎ (x.error ≢ none))
    × (takes_frames s ≡ false → x.written ≢ none)

module _ (unmarshal : Bytes → Option ControlMessage) (in_logs out_logs : Bool) where
  -- A round of the input goroutine on a message.
  unfoldable pub type_in : MessageType → Bytes → Option Error → Room → Room
  type_in t m written r =
      let (s, stop) =
        on_message unmarshal (in_logs && in_log_open r.stage) t m written (as_input r.console) in
      record r {
        console = frames_while r.stage r.console (with_input r.console s);
        input = after_write stop;
      }

  -- A round of the output goroutine.
  unfoldable pub print_out : TerminalRead → Room → Room
  print_out x r =
      let (s, refused) = on_read (out_logs && out_log_open r.stage) x (as_output r.console) in
      record r {
        console = frames_while r.stage r.console (with_output r.console s);
        output = after_read refused x.error;
      }

  pub data Move : Room → Room → Type 0 where
    arrives : {r : Room} → conn_open r.stage ≡ true → Move r (record r { unread = suc r.unread })
    -- A write to a closed stream fails.
    types :
        {r : Room} (t : MessageType) (m : Bytes) (written : Option Error) (n : ℕ)
        → r.input ≡ pumping
        → r.unread ≡ suc n
        → (stream_open r.stage ≡ false → written ≢ none)
        → Move r (record (type_in t m written r) { unread = n })
    hangs_up :
        {r : Room} (e : Error)
        → r.input ≡ pumping
        → Move r (record r { input = reporting (some e) })
    prints :
        {r : Room} (x : TerminalRead)
        → r.output ≡ pumping
        → Readable r.stage x
        → Move r (print_out x r)
    reports_input :
        {r : Room} (e : Option Error)
        → r.input ≡ reporting e
        → length r.err_chan < 2
        → Move r (record r { input = gone; err_chan = r.err_chan ++ e ∷ [] })
    reports_output :
        {r : Room} (e : Option Error)
        → r.output ≡ reporting e
        → length r.err_chan < 2
        → Move r (record r { output = gone; err_chan = r.err_chan ++ e ∷ [] })
    receives :
        {r : Room} (e : Option Error) (rest : List (Option Error))
        → r.stage ≡ waiting
        → r.err_chan ≡ e ∷ rest
        → Move r (record r { err_chan = rest; stage = parting (pump_ended e) })
    expires : {r : Room} → r.stage ≡ waiting → Move r (record r { stage = parting timed_out })
    parts :
        {r : Room} (end : Ending)
        → r.stage ≡ parting end
        → Move r (record r {
          console = record (r.console) { to_client = r.console.to_client ++ farewell end ∷ [] };
          stage = destroying;
        })
    leaves : {r : Room} (s : Stage) → leave r.stage ≡ some s → Move r (record r { stage = s })

  -- The rooms that moves lead to, with the number of moves.
  pub data Run : ℕ → Room → Room → Type 0 where
    rests : {r : Room} → Run 0 r r
    goes : {n : ℕ} {r r' r'' : Room} → Run n r r' → Move r' r'' → Run (suc n) r r''
