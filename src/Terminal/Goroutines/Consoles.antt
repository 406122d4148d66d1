-- ===== src/Terminal/Goroutines/Consoles.antt =====
-- The console of Console, whose handler wakes at once, among what the goroutines do.
use docpine.Base.{
  ℕ, suc, ◌≡◌, refl, Bool, true, false, ◌&&◌, Option, none, some, List, [], ◌∷◌, Bytes, arith,
}
use mathlib.Core.Path.{subst}
use docpine.Runtime.{Error}
use docpine.Terminal.{
  ControlMessage, MessageType, read_error, received, on_message, ReadError, TerminalRead, on_read,
  reported, Ending, pump_ended,
}
use docpine.Terminal.Console.{
  Event, Console, silent_console, with_input, as_input, with_output, as_output, stopped,
  read_stopped, console_step, run_console,
}
use docpine.Terminal.Goroutines.{
  reporting, parting, Room, opened, after_write, after_read, type_in, print_out, arrives, types,
  hangs_up, prints, reports_input, reports_output, receives, expires, Run, rests, goes,
}

-- Both goroutines are in their loops, and the handler waits.
abbrev pub busy : Console → Room
busy c = record opened { console = c }

and_true : (b : Bool) → (b && true) ≡ b
and_true true = refl
and_true false = refl

module _ (unmarshal : Bytes → Option ControlMessage) (in_logs out_logs : Bool) where
  type_in_busy :
      (t : MessageType) (m : Bytes) (written : Option Error) (c : Console)
      → let (s, stop) = on_message unmarshal in_logs t m written (as_input c) in
        record (type_in unmarshal in_logs out_logs t m written (record (busy c) { unread = 1 })) {
          unread = 0;
        }
        ≡ record (busy (with_input c s)) { input = after_write stop }
  unfolding type_in
  type_in_busy t m written c = rw (and_true in_logs) refl

  print_out_busy :
      (x : TerminalRead) (c : Console)
      → let (s, refused) = on_read out_logs x (as_output c) in
        print_out unmarshal in_logs out_logs x (busy c)
        ≡ record (busy (with_output c s)) { output = after_read refused x.error }
  unfolding print_out
  print_out_busy x c = rw (and_true out_logs) refl

  -- Moves from `r` lead to a handler that has left the select, with this console.
  abbrev Parts : Room → Console → Ending → Type 0
  Parts r c end =
      (n : ℕ) × (r' : Room) × Run unmarshal in_logs out_logs n r r'
      × (r'.console ≡ c)
      × (r'.stage ≡ parting end)

  -- What a step of Console comes to: on to the next one, or out of the select.
  abbrev Leads : Room → Console × Option Ending → Type 0
  Leads r (c, none) = (n : ℕ) × Run unmarshal in_logs out_logs n r (busy c)
  Leads r (c, some end) = Parts r c end

  -- A goroutine that has stopped reports, and the handler wakes.
  input_stops :
      {n : ℕ} {r : Room} (c : Console) (e : Option Error)
      → Run unmarshal in_logs out_logs n r (record (busy c) { input = reporting e })
      → Parts r c (pump_ended e)
  input_stops c e ms = (
    _,
    _,
    goes (goes ms (reports_input e refl (omega arith))) (receives e [] refl refl),
    refl,
    refl,
  )

  output_stops :
      {n : ℕ} {r : Room} (c : Console) (e : Option Error)
      → Run unmarshal in_logs out_logs n r (record (busy c) { output = reporting e })
      → Parts r c (pump_ended e)
  output_stops c e ms = (
    _,
    _,
    goes (goes ms (reports_output e refl (omega arith))) (receives e [] refl refl),
    refl,
    refl,
  )

  after_typed :
      {n : ℕ} {r : Room} (c : Console) (stop : Option Error)
      → Run unmarshal in_logs out_logs n r (record (busy c) { input = after_write stop })
      → Leads r (c, stopped stop)
  after_typed c none ms = (_, ms)
  after_typed c (some e) ms = input_stops c (some e) ms

  after_printed :
      {n : ℕ} {r : Room} (c : Console) (refused : Option Error) (end : Option ReadError)
      → Run unmarshal in_logs out_logs n r (record (busy c) { output = after_read refused end })
      → Leads r (c, elim refused [ some e ↦ stopped (some e) | none ↦ read_stopped end ])
  after_printed c (some e) end ms = output_stops c (some e) ms
  after_printed c none (some end) ms = output_stops c (reported end) ms
  after_printed c none none ms = (_, ms)

  console_step-Leads :
      {n : ℕ} {r : Room} (e : Event) (c : Console)
      → Run unmarshal in_logs out_logs n r (busy c)
      → Leads r (console_step unmarshal in_logs out_logs e c)
  unfolding console_step
  console_step-Leads (Event.typed (read_error e)) c ms =
      input_stops c (some e) (goes ms (hangs_up e refl))
  console_step-Leads {n} {r} (Event.typed (received t m written)) c ms =
      let (s, stop) = on_message unmarshal in_logs t m written (as_input c) in
      let next : Run unmarshal in_logs out_logs (suc (suc n)) r
          (record (busy (with_input c s)) { input = after_write stop }) =
        subst (Run unmarshal in_logs out_logs (suc (suc n)) r) (type_in_busy t m written c)
          (goes (goes ms (arrives refl)) (types t m written 0 refl refl (λ h. cc))) in
      after_typed (with_input c s) stop next
  console_step-Leads (Event.printed x) c ms =
      let (s, refused) = on_read out_logs x (as_output c) in
      after_printed (with_output c s) refused x.error (
        subst (Run unmarshal in_logs out_logs (suc _) _) (print_out_busy x c)
          (goes ms (prints x refl ((λ h. cc), (λ h. cc)))))
  console_step-Leads Event.timer c ms = (_, _, goes ms (expires refl), refl, refl)

  on_from :
      {r : Room} (c : Console) (stop : Option Ending) (rest : Console × Option Ending)
      → Leads r (c, stop)
      → ((n : ℕ) → Run unmarshal in_logs out_logs n r (busy c) → Leads r rest)
      → Leads r (elim stop [ none ↦ rest | some end ↦ (c, some end) ])
  on_from c none rest (n, ms) more = more n ms
  on_from c (some end) rest h more = h

  run_console-Leads :
      {n : ℕ} {r : Room} (es : List Event) (c : Console)
      → Run unmarshal in_logs out_logs n r (busy c)
      → Leads r (run_console unmarshal in_logs out_logs es c)
  unfolding run_console
  run_console-Leads [] c ms = (_, ms)
  run_console-Leads (e ∷ es) c ms =
      let (c', stop) = console_step unmarshal in_logs out_logs e c in
      on_from c' stop (run_console unmarshal in_logs out_logs es c') (console_step-Leads e c ms)
        (λ n. run_console-Leads es c')

  -- Whatever the terminal of Console ends with, the goroutines and the handler can come to: from
  -- their start, moves lead to the same messages, frames and logs, with the handler on its way out
  -- for the same reason.
  run_console-Run :
      (es : List Event) (c : Console) (end : Ending)
      → run_console unmarshal in_logs out_logs es silent_console ≡ (c, some end)
      → (n : ℕ) × (r : Room) × Run unmarshal in_logs out_logs n opened r
        × (r.console ≡ c)
        × (r.stage ≡ parting end)
  run_console-Run es c end h = subst (Leads opened) h (run_console-Leads es silent_console rests)
