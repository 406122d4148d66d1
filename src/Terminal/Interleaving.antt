-- ===== src/Terminal/Interleaving.antt =====
-- What an attached client sees, however its input and the terminal's output interleave.
use docpine.Base.{
  ℕ, ◌≡◌, refl, sym, ap, ◌∙◌, inl, inr, true, Bool, Option, none, some, List, [], ◌∷◌, ◌++◌,
  append_assoc, append-nil, Bytes, map, arith, Option-cases, lookup, str_eq_refl,
}
use docpine.Runtime.{Runtime}
use docpine.Session.{Process}
use docpine.Session.Lifecycle.{destroy_lem}
use docpine.Terminal.{
  ControlMessage, text_message, Frame, message, read_error, received, terminal, open_terminal,
  Ending, pump_ended, timed_out, close_terminal, farewell,
}
use docpine.Terminal.Pumps.{keystroke, ping_answer, chunk, on_message_lem, on_read_lem}
use docpine.Terminal.Console.{
  Event, typed, printed, timer, Console, silent_console, as_input, as_output, stopped, read_stopped,
  console_step, run_console, finish_console, converse, attach_terminal,
}

-- The end that an event brings, where all writes succeed.
abbrev pub ends : Event → Option Ending
ends (typed (read_error e)) = some (pump_ended (some e))
ends (typed (received t m written)) = none
ends (printed r) = read_stopped r.error
ends timer = some timed_out

abbrev pub IsWritten : Event → Type 0
IsWritten (typed (read_error e)) = Unit
IsWritten (typed (received t m written)) = written ≡ none
IsWritten (printed r) = r.written ≡ none
IsWritten timer = Unit

abbrev pub AllWritten : List Event → Type 0
AllWritten [] = Unit
AllWritten (e ∷ es) = IsWritten e × AllWritten es

-- The first end, and what some events give up to the first end, with the event that brings it.
unfoldable pub first_end : List Event → Option Ending
first_end [] = none
first_end (e ∷ es) = elim (ends e) [ none ↦ first_end es | some end ↦ some end ]

unfoldable pub gather : {A : Type 0} → (Event → List A) → List Event → List A
gather f [] = []
gather f (e ∷ es) = f e ++ elim (ends e) [ none ↦ gather f es | some end ↦ [] ]

abbrev pub output_of : Event → List Bytes
output_of (printed r) = chunk r
output_of _ = []

module _ (unmarshal : Bytes → Option ControlMessage) where
  abbrev pub input_of : Event → List Bytes
  input_of (typed (received t m written)) = keystroke unmarshal t m
  input_of _ = []

  abbrev pub frames_of : Event → List Frame
  frames_of (typed (received t m written)) = ping_answer unmarshal t m
  frames_of (printed r) = map (message text_message) (chunk r)
  frames_of _ = []

  -- What a console has done beyond another, by its four parts.
  abbrev pub Adds : Console → List Bytes → List Frame → List Bytes → Console → Type 0
  Adds c input frames output c' =
      (c'.to_terminal ≡ c.to_terminal ++ input)
      × (c'.to_client ≡ c.to_client ++ frames)
      × (c'.in_log ≡ c.in_log ++ input)
      × (c'.out_log ≡ c.out_log ++ output)

  Adds-none : (c : Console) → Adds c [] [] [] c
  Adds-none c = (sym (append-nil _), sym (append-nil _), sym (append-nil _), sym (append-nil _))

  console_step_lem :
      (e : Event) (c : Console)
      → IsWritten e
      → ((console_step unmarshal true true e c).1 ≡ ends e)
        × Adds c (input_of e) (frames_of e) (output_of e) (console_step unmarshal true true e c).0
  unfolding console_step
  console_step_lem (typed (read_error e)) c h = (refl, Adds-none c)
  console_step_lem (typed (received t m none)) c h =
      let (runs, keys, sent, kept) = on_message_lem unmarshal t m (as_input c) in
      (ap stopped runs, (keys, sent, kept, sym (append-nil _)))
  console_step_lem (typed (received t m (some e))) c h = absurd (cc h)
  console_step_lem (printed r) c h =
      let (runs, sent, kept) = on_read_lem r (as_output c) h in
      rw (runs, console_step) (refl, (sym (append-nil _), sent, sym (append-nil _), kept))
  console_step_lem timer c h = (refl, Adds-none c)

  -- Two additions, one after the other.
  Adds-Adds :
      (c c' c'' : Console) (i i' : List Bytes) (f f' : List Frame) (o o' : List Bytes)
      → Adds c i f o c'
      → Adds c' i' f' o' c''
      → Adds c (i ++ i') (f ++ f') (o ++ o') c''
  Adds-Adds c c' c'' i i' f f' o o' (a, b, l, k) (a', b', l', k') = (
    a' ∙ ap (λ x. x ++ i') a ∙ append_assoc c.to_terminal i i',
    b' ∙ ap (λ x. x ++ f') b ∙ append_assoc c.to_client f f',
    l' ∙ ap (λ x. x ++ i') l ∙ append_assoc c.in_log i i',
    k' ∙ ap (λ x. x ++ o') k ∙ append_assoc c.out_log o o',
  )

  -- However the events of the two pumps and the timer interleave, while all writes succeed: the
  -- terminal and the input log get exactly the messages for the shell, the output log gets exactly
  -- the chunks of the terminal, and the client gets the chunks and one pong for each ping, each
  -- in the order of the events, all up to the first end of a pump or the timer, which is the end
  -- that the handler sees.
  run_console_lem :
      (es : List Event) (c : Console)
      → AllWritten es
      → ((run_console unmarshal true true es c).1 ≡ first_end es)
        × Adds c
            (gather input_of es)
            (gather frames_of es)
            (gather output_of es)
            (run_console unmarshal true true es c).0
  unfolding run_console first_end gather
  run_console_lem [] c h = (refl, Adds-none c)
  run_console_lem (e ∷ es) c h =
      let c' = (console_step unmarshal true true e c).0 in
      let (stop, one) = console_step_lem e c h.0 in
      elim (Option-cases (ends e)) [
        | inl runs ↦
            let (stop', more) = run_console_lem es c' h.1 in
            rw (stop, runs, run_console, first_end, gather)
              (stop', Adds-Adds c c' _ _ _ _ _ _ _ one more)
        | inr (end, last) ↦
            rw (stop, last, run_console, first_end, gather)
              (refl, Adds-Adds c c' c' _ _ _ _ _ _ one (Adds-none c'))
      ]

  module _ {W S P : Type 0} (rt : Runtime W S P) where
    close_terminal-gone :
        (id : Bytes) (end : Ending) (p : Process W S)
        → (lookup id (close_terminal rt id end p).0.mngr.sessions ≡ none)
          × ((close_terminal rt id end p).1 ≡ farewell end)
    unfolding close_terminal
    close_terminal-gone id end p =
        (ground (arith, (destroy_lem rt id id p).0, str_eq_refl id), refl)

    -- Attach of a session whose terminal opens, while all writes succeed, once a pump ends or the
    -- timer fires, and whatever the server does in between: the session is gone, the terminal
    -- has got exactly the messages for the shell, and the client the chunks and the pongs in their
    -- order and then one close frame, with the reason that belongs to the end.
    pub attach_terminal_lem :
        (id : Bytes) (upgraded : Bool) (now now' : ℕ) (es : List Event) {A : Type 0}
        (meanwhile : Process W S × A → Process W S × A) (p q : Process W S) (a : A) (pty : P)
        (end : Ending)
        → AllWritten es
        → first_end es ≡ some end
        → open_terminal rt id upgraded now now' p ≡ (q, terminal pty)
        → let ((r, a'), opening, c) =
            attach_terminal unmarshal true true rt id upgraded now now' es meanwhile (p, a) in
          (lookup id r.mngr.sessions ≡ none)
          × (opening ≡ terminal pty)
          × (c.to_terminal ≡ gather input_of es)
          × (c.to_client ≡ gather frames_of es ++ farewell end ∷ [])
    unfolding attach_terminal converse finish_console
    attach_terminal_lem id upgraded now now' es meanwhile p q a pty end written last opened =
        let (stop, (keys, sent, kept, logged)) = run_console_lem es silent_console written in
        let (gone, frame) =
          close_terminal-gone id end
            (meanwhile ((open_terminal rt id upgraded now now' p).0, a)).0 in
        rw (opened, attach_terminal, converse)
          (rw (stop, last, frame, finish_console)
            (gone, refl, keys, ap (λ l. l ++ farewell end ∷ []) sent))
