-- ===== src/Terminal/Tests.antt =====
-- The pumps at concrete messages, and the theorems on them.
use docpine.Base.{
  ◌+◌, ℕ, ◌≡◌, ◌≤◌, ◌⊎◌, refl, true, false, Option, none, some, List, [], ◌∷◌, ◌++◌, Bytes, codes,
  str_eq, lookup, if◌then◌else◌,
}
use docpine.Runtime.{other}
use docpine.Terminal.{
  ControlMessage, text_message, binary_message, message, pong, Input, ClientEvent, read_error,
  received, pump_input, control_of, on_message, handle_control_message, TerminalRead, Output, eof,
  on_read, pump_output, pump_ended, timed_out, terminal, farewell, open_terminal,
}
use docpine.Terminal.Pumps.{keystroke, ping_answer}
use docpine.Session.{Process, get, attach}
use docpine.Terminal.Console.{Event, silent_console, attach_terminal}
use docpine.Terminal.Interleaving.{
  AllWritten, first_end, gather, input_of, frames_of, attach_terminal_lem,
}
use docpine.Terminal.Goroutines.{
  pumping, reporting, gone, closing_out_log, closing_in_log, closing_stream, closing_conn, returned,
  leave, Room, opened, Move, hangs_up, expires, parts, leaves, Run, rests, goes,
}
use docpine.Terminal.Goroutines.Ends.{goroutines_end}
use docpine.Fixtures.{counting, two_sessions}

abbrev ping_text : Bytes
ping_text = codes "{ping}"

abbrev decode : Bytes → Option ControlMessage
decode m =
    if str_eq m ping_text then some (record { kind = codes "ping"; cols = 0; rows = 0 }) else none

abbrev typed : List ClientEvent
typed =
    received text_message (codes "ls") none
    ∷ received text_message ping_text none
    ∷ received text_message (codes "{a}") none
    ∷ received binary_message [] none
    ∷ read_error (other (codes "gone"))
    ∷ []

abbrev idle : Input
idle = record { to_terminal = []; to_client = []; logged = [] }

abbrev printed : List TerminalRead
printed =
    record { bytes = codes "a.txt"; error = none; written = none }
    ∷ record { bytes = codes "$ "; error = some eof; written = none }
    ∷ []

abbrev silent : Output
silent = record { to_client = []; logged = [] }

pump_tests :
    ((pump_input decode true typed idle).0 ≡ record {
      to_terminal = codes "ls" ∷ codes "{a}" ∷ [];
      to_client = message text_message pong ∷ [];
      logged = codes "ls" ∷ codes "{a}" ∷ [];
    })
    × ((pump_output false printed silent).0.to_client
        ≡ message text_message (codes "a.txt") ∷ message text_message (codes "$ ") ∷ [])
    × ((pump_output true printed silent).1 ≡ some none)
unfolding pump_input pump_output control_of on_message handle_control_message str_eq on_read
pump_tests = (refl, refl, refl)

-- Input and output in turn, up to the end of the shell.
abbrev evening : List Event
evening =
    Event.typed (received text_message (codes "ls") none)
    ∷ Event.printed (record { bytes = codes "a.txt"; error = none; written = none })
    ∷ Event.typed (received text_message ping_text none)
    ∷ Event.printed (record { bytes = codes "$ "; error = some eof; written = none })
    ∷ Event.timer
    ∷ []

evening_written : AllWritten evening
evening_written = (refl, (refl, (refl, (refl, (tt, tt)))))

console_tests :
    (gather (input_of decode) evening ≡ codes "ls" ∷ [])
    × (gather (frames_of decode) evening
        ≡ message text_message (codes "a.txt")
          ∷ message text_message pong
          ∷ message text_message (codes "$ ")
          ∷ [])
    × (first_end evening ≡ some (pump_ended none))
unfolding gather first_end keystroke ping_answer control_of str_eq
console_tests = (refl, refl, refl)

opens : open_terminal counting (codes "s2") true 110 110 two_sessions ≡ (two_sessions, terminal 1)
unfolding open_terminal get attach lookup str_eq
opens = refl

attach_terminal_lem_example :
    let state : Process ℕ ℕ × ℕ = (two_sessions, 3) in
    let ((r, a), opening, c) =
      attach_terminal decode true true counting (codes "s2") true 110 110 evening (λ p. p) state in
    (lookup (codes "s2") r.mngr.sessions ≡ none)
    × (opening ≡ terminal 1)
    × (c.to_terminal ≡ gather (input_of decode) evening)
    × (c.to_client ≡ gather (frames_of decode) evening ++ farewell (pump_ended none) ∷ [])
attach_terminal_lem_example =
    attach_terminal_lem decode counting (codes "s2") true 110 110 evening (λ p. p) two_sessions
      two_sessions 3 1 (pump_ended none) evening_written console_tests.2 opens

-- The timer fires while the client is silent, and the handler returns.
abbrev left_open : Room
left_open = record {
  console = record silent_console { to_client = farewell timed_out ∷ [] };
  input = pumping;
  output = pumping;
  err_chan = [];
  stage = returned;
  unread = 0;
}

timeout : Run decode true true 7 opened left_open
unfolding leave farewell
timeout =
    goes
      (goes
        (goes
          (goes
            (goes (goes (goes rests (expires refl)) (parts timed_out refl))
              (leaves closing_out_log refl))
            (leaves closing_in_log refl))
          (leaves closing_stream refl))
        (leaves closing_conn refl))
      (leaves returned refl)

-- Then the read of the client fails.
abbrev hung_up : Room
hung_up = record left_open { input = reporting (some (other (codes "closed"))) }

goroutines_end_example :
    (1 ≤ 4 + left_open.unread)
    × (((hung_up.input ≡ gone) × (hung_up.output ≡ gone))
        ⊎ ((r : Room) × Move decode true true hung_up r))
goroutines_end_example =
    goroutines_end decode true true timeout refl
      (goes rests (hangs_up (other (codes "closed")) refl))
