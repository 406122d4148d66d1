-- ===== src/Terminal/Pumps.antt =====
-- What reaches the terminal, the client and the logs.
use docpine.Base.{
  ◌≡◌, refl, sym, ap, ◌∙◌, inl, inr, true, Option, none, some, List, [], ◌∷◌, ◌++◌, append_assoc,
  append-nil, Bytes, codes, is_empty, str_eq, map, if◌then◌else◌, arith, Option-cases,
}
use mathlib.Core.List.{map-append}
use docpine.Runtime.{Error}
use docpine.Terminal.{
  ControlMessage, MessageType, text_message, Frame, message, pong, Input, handle_control_message,
  ClientEvent, read_error, received, control_of, on_message, pump_input, TerminalRead, Output,
  on_read, pump_output, reported,
}

module _ (unmarshal : Bytes → Option ControlMessage) where
  -- The payload of a message that is meant for the shell: neither a control message nor empty.
  unfoldable pub keystroke : MessageType → Bytes → List Bytes
  keystroke t m = elim (control_of unmarshal t m) [
    | some ctrl ↦ []
    | none ↦ if is_empty m then [] else m ∷ []
  ]

  -- The answer to a message that is a ping.
  unfoldable pub ping_answer : MessageType → Bytes → List Frame
  ping_answer t m = elim (control_of unmarshal t m) [
    | some ctrl ↦ if str_eq ctrl.kind (codes "ping") then message text_message pong ∷ [] else []
    | none ↦ []
  ]

  -- These, for all messages before the first read error.
  unfoldable pub keystrokes : List ClientEvent → List Bytes
  keystrokes [] = []
  keystrokes (read_error e ∷ es) = []
  keystrokes (received t m written ∷ es) = keystroke t m ++ keystrokes es

  unfoldable pub ping_answers : List ClientEvent → List Frame
  ping_answers [] = []
  ping_answers (read_error e ∷ es) = []
  ping_answers (received t m written ∷ es) = ping_answer t m ++ ping_answers es

  -- The terminal takes every write.
  abbrev pub Writable : List ClientEvent → Type 0
  Writable [] = Unit
  Writable (read_error e ∷ es) = Writable es
  Writable (received t m written ∷ es) = (written ≡ none) × Writable es

  pub on_message_lem :
      (t : MessageType) (m : Bytes) (s : Input)
      → let (s', stop) = on_message unmarshal true t m none s in
        (stop ≡ none)
        × (s'.to_terminal ≡ s.to_terminal ++ keystroke t m)
        × (s'.to_client ≡ s.to_client ++ ping_answer t m)
        × (s'.logged ≡ s.logged ++ keystroke t m)
  unfolding on_message keystroke ping_answer handle_control_message
  on_message_lem t m s =
      ground (arith, append-nil s.to_terminal, append-nil s.to_client, append-nil s.logged)

  -- While the terminal takes every write, what reaches it and what is logged are exactly the
  -- messages for the shell, in their order; and the client is sent exactly one pong for each ping,
  -- in their order.
  pump_input_lem :
      (es : List ClientEvent) (s : Input)
      → Writable es
      → let s' = (pump_input unmarshal true es s).0 in
        (s'.to_terminal ≡ s.to_terminal ++ keystrokes es)
        × (s'.to_client ≡ s.to_client ++ ping_answers es)
        × (s'.logged ≡ s.logged ++ keystrokes es)
  unfolding pump_input keystrokes ping_answers
  pump_input_lem [] s h = (sym (append-nil _), sym (append-nil _), sym (append-nil _))
  pump_input_lem (read_error e ∷ es) s h =
      (sym (append-nil _), sym (append-nil _), sym (append-nil _))
  pump_input_lem (received t m none ∷ es) s h =
      let s' = (on_message unmarshal true t m none s).0 in
      let (runs, typed, sent, kept) = on_message_lem t m s in
      let (typed', sent', kept') = pump_input_lem es s' h.1 in
      rw (runs, pump_input)
        (
          typed'
              ∙ ap (λ l. l ++ keystrokes es) typed
              ∙ append_assoc s.to_terminal (keystroke t m) (keystrokes es),
          sent'
              ∙ ap (λ l. l ++ ping_answers es) sent
              ∙ append_assoc s.to_client (ping_answer t m) (ping_answers es),
          kept'
              ∙ ap (λ l. l ++ keystrokes es) kept
              ∙ append_assoc s.logged (keystroke t m) (keystrokes es),
        )
  pump_input_lem (received t m (some e) ∷ es) s h = absurd (cc (h.0))

abbrev pub chunk : TerminalRead → List Bytes
chunk r = if is_empty r.bytes then [] else r.bytes ∷ []

pub on_read_lem :
    (r : TerminalRead) (s : Output)
    → r.written ≡ none
    → let (s', refused) = on_read true r s in
      (refused ≡ none)
      × (s'.to_client ≡ s.to_client ++ map (message text_message) (chunk r))
      × (s'.logged ≡ s.logged ++ chunk r)
unfolding on_read
on_read_lem r s h = ground (arith, append-nil s.to_client, append-nil s.logged)

-- The chunks that the terminal sends up to its first error, the bytes beside that one included.
unfoldable pub chunks : List TerminalRead → List Bytes
chunks [] = []
chunks (r ∷ rs) = chunk r ++ elim r.error [ none ↦ chunks rs | some e ↦ [] ]

-- The first error, as the pump reports it.
unfoldable pub first_error : List TerminalRead → Option (Option Error)
first_error [] = none
first_error (r ∷ rs) = elim r.error [ none ↦ first_error rs | some e ↦ some (reported e) ]

-- The client takes every write.
abbrev pub Accepted : List TerminalRead → Type 0
Accepted [] = Unit
Accepted (r ∷ rs) = (r.written ≡ none) × Accepted rs

-- While the client takes every write, it is sent exactly the chunks that the terminal sends, in
-- their order, one text frame each, the same chunks are logged, and the pump ends with the
-- terminal's first error, where the end of the stream counts as none.
pump_output_lem :
    (rs : List TerminalRead) (s : Output)
    → Accepted rs
    → let (s', stop) = pump_output true rs s in
      (s'.to_client ≡ s.to_client ++ map (message text_message) (chunks rs))
      × (s'.logged ≡ s.logged ++ chunks rs)
      × (stop ≡ first_error rs)
unfolding pump_output chunks first_error
pump_output_lem [] s h = (sym (append-nil _), sym (append-nil _), refl)
pump_output_lem (r ∷ rs) s h =
    let s' = (on_read true r s).0 in
    let (runs, sent, kept) = on_read_lem r s h.0 in
    elim (Option-cases r.error) [
      | inl more ↦
          let (sent', kept', ended) = pump_output_lem rs s' h.1 in
          rw (runs, pump_output)
            (rw more (
              sent'
                  ∙ ap (λ l. l ++ map (message text_message) (chunks rs)) sent
                  ∙ append_assoc s.to_client _ _
                  ∙ ap (λ l. s.to_client ++ l) (sym (map-append _ (chunk r) (chunks rs))),
              kept' ∙ ap (λ l. l ++ chunks rs) kept ∙ append_assoc s.logged (chunk r) (chunks rs),
              ended,
            ))
      | inr (e, last) ↦
          rw (runs, pump_output)
            (rw last (
              sent
                  ∙ ap (λ l. s.to_client ++ map (message text_message) l)
                      (sym (append-nil (chunk r))),
              kept ∙ ap (λ l. s.logged ++ l) (sym (append-nil (chunk r))),
              refl,
            ))
    ]
