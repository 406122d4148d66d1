-- ===== src/Terminal/Goroutines/Ends.antt =====
-- The goroutines of a terminal come to their ends.
use docpine.Base.{
  is_empty_ne, ◌&&◌, ℕ, suc, ◌+◌, ◌≤◌, ◌≡◌, ◌≢◌, ◌⊎◌, inl, inr, refl, sym, ◌∙◌, ap, Bool, true,
  false, Option, none, some, Option-cases, [], ◌∷◌, Bytes, length, length-append, arith,
}
use docpine.Runtime.{Error, other}
use docpine.Terminal.{ControlMessage, ReadError, TerminalRead, Output, on_message, eof, on_read}
use docpine.Terminal.Console.{as_input}
use docpine.Terminal.Goroutines.{
  arrives, in_log_open, Pump, pumping, reporting, gone, Stage, returned, conn_open, stream_open,
  takes_frames, leave, Room, opened, after_write, after_read, type_in, print_out, Move, types,
  hangs_up, prints, reports_input, reports_output, receives, expires, parts, leaves, Run, rests,
  goes,
}

-- A goroutine that has yet to report.
abbrev pub owed : Pump → ℕ
owed gone = 0
owed _ = 1

-- The moves that the goroutines have left once nothing arrives any more.
abbrev pub output_left : Pump → ℕ
output_left pumping = 2
output_left (reporting e) = 1
output_left gone = 0

abbrev pub input_left : ℕ → Pump → ℕ
input_left unread pumping = 2 + unread
input_left unread (reporting e) = 1
input_left unread gone = 0

abbrev pub left : Room → ℕ
left r = input_left r.unread r.input + output_left r.output

input_left-le : (n : ℕ) (i : Pump) → input_left n i ≤ 2 + n
input_left-le n pumping = omega arith
input_left-le n (reporting e) = omega arith
input_left-le n gone = omega arith

output_left-le : (o : Pump) → output_left o ≤ 2
output_left-le pumping = omega arith
output_left-le (reporting e) = omega arith
output_left-le gone = omega arith

owed-after_write : (e : Option Error) → owed (after_write e) ≡ 1
owed-after_write none = refl
owed-after_write (some e) = refl

owed-after_read : (e : Option Error) (end : Option ReadError) → owed (after_read e end) ≡ 1
owed-after_read (some e) end = refl
owed-after_read none (some end) = refl
owed-after_read none none = refl

input_left-stops : (n : ℕ) (e : Option Error) → input_left n (after_write e) ≤ 2 + n
input_left-stops n none = omega arith
input_left-stops n (some e) = omega arith

output_left-ends : (e : Option Error) (end : ReadError) → output_left (after_read e (some end)) ≡ 1
output_left-ends none end = refl
output_left-ends (some e) end = refl

-- A read of a closed stream.
output_left-closed :
    (logs : Bool) (x : TerminalRead) (o : Output)
    → (x.bytes ≢ []) ⊎ (x.error ≢ none)
    → x.written ≢ none
    → output_left (after_read (on_read logs x o).1 x.error) ≡ 1
unfolding on_read
output_left-closed logs x o some_thing fails = elim (Option-cases x.error) [
  | inr (y, e) ↦ rw e (output_left-ends _ y)
  | inl e ↦ elim (Option-cases x.written) [
    | inl w ↦ absurd (fails w)
    | inr (z, w) ↦ elim some_thing [
      | inr n ↦ absurd (n e)
      | inl n ↦ rw (is_empty_ne x.bytes n, on_read) (rw (w, after_read) refl)
    ]
  ]
]

differ : false ≡ true → ⊥
differ h = cc

stays : {s : Stage} → leave returned ≡ some s → ⊥
unfolding leave
stays h = cc

-- A read of the terminal's stream after its end.
abbrev dry : TerminalRead
dry = record { bytes = []; error = some eof; written = some (other []) }

-- What waits in the channel, and what is still to come.
abbrev reports : Room → ℕ
reports r = length r.err_chan + owed r.input + owed r.output

module _ (unmarshal : Bytes → Option ControlMessage) (in_logs out_logs : Bool) where
  reports-Move : {r r' : Room} → Move unmarshal in_logs out_logs r r' → reports r' ≤ reports r
  unfolding type_in print_out
  reports-Move (arrives e) = omega arith
  reports-Move (types {r} t m written n p q e) = omega (arith, ap owed p, owed-after_write _)
  reports-Move (hangs_up {r} e p) = omega (arith, ap owed p)
  reports-Move (prints {r} x p e) = omega (arith, ap owed p, owed-after_read _ x.error)
  reports-Move (reports_input {r} e p room) =
      omega (arith, ap owed p, length-append r.err_chan (e ∷ []))
  reports-Move (reports_output {r} e p room) =
      omega (arith, ap owed p, length-append r.err_chan (e ∷ []))
  reports-Move (receives {r} e rest p q) = omega (arith, ap length q)
  reports-Move (expires p) = omega arith
  reports-Move (parts end p) = omega arith
  reports-Move (leaves s p) = omega arith

  reports-Run :
      {n : ℕ} {r r' : Room} → Run unmarshal in_logs out_logs n r r' → reports r' ≤ reports r
  reports-Run rests = omega arith
  reports-Run (goes ms m) = omega (arith, reports-Run ms, reports-Move m)

  -- Once the handler has returned, each move brings a goroutine nearer to its end.
  left-Move :
      {r r' : Room}
      → Move unmarshal in_logs out_logs r r'
      → r.stage ≡ returned
      → (r'.stage ≡ returned) × (suc (left r') ≤ left r)
  unfolding type_in print_out leave
  left-Move (arrives {r} e) over = absurd (differ (sym (ap conn_open over) ∙ e))
  left-Move (types {r} t m written n p q e) over = (
    over,
    omega (
      arith,
      ap (input_left r.unread) p,
      q,
      input_left-stops n
          (on_message unmarshal (in_logs && in_log_open r.stage) t m written
            (as_input r.console)).1,
    ),
  )
  left-Move (hangs_up {r} e p) over = (over, omega (arith, ap (input_left r.unread) p))
  left-Move (prints {r} x p e) over = (
    over,
    omega (
      arith,
      ap output_left p,
      output_left-closed _ x _ (e.0 (ap stream_open over)) (e.1 (ap takes_frames over)),
    ),
  )
  left-Move (reports_input {r} e p room) over = (over, omega (arith, ap (input_left r.unread) p))
  left-Move (reports_output {r} e p room) over = (over, omega (arith, ap output_left p))
  left-Move (receives {r} e rest p q) over = absurd (cc)
  left-Move (expires p) over = absurd (cc)
  left-Move (parts end p) over = absurd (cc)
  left-Move (leaves s p) over = absurd (stays (sym (ap leave over) ∙ p))

  left-Run :
      {k : ℕ} {r r' : Room}
      → Run unmarshal in_logs out_logs k r r'
      → r.stage ≡ returned
      → (r'.stage ≡ returned) × (k + left r' ≤ left r)
  left-Run rests over = (over, omega arith)
  left-Run (goes ms m) over =
      let (over', count) = left-Run ms over in
      let (last, less) = left-Move m over' in (last, omega (arith, count, less))

  -- A goroutine that is not gone can always make a move: a read can fail, and the channel of errors
  -- has room for its report.
  can_move :
      (r : Room)
      → reports r ≤ 2
      → ((r.input ≡ gone) × (r.output ≡ gone))
        ⊎ ((r' : Room) × Move unmarshal in_logs out_logs r r')
  can_move r room = go r.input r.output refl refl
    where
      go :
          (i o : Pump)
          → r.input ≡ i
          → r.output ≡ o
          → ((r.input ≡ gone) × (r.output ≡ gone))
            ⊎ ((r' : Room) × Move unmarshal in_logs out_logs r r')
      go pumping o p q = inr (_, hangs_up (other []) p)
      go (reporting e) o p q = inr (_, reports_input e p (omega (arith, room, ap owed p)))
      go gone pumping p q = inr (_, prints dry q ((λ h. inr (λ k. cc)), (λ h k. cc)))
      go gone (reporting e) p q = inr (_, reports_output e q (omega (arith, room, ap owed q)))
      go gone gone p q = inl (p, q)

  left-le : (n : ℕ) (i o : Pump) → input_left n i + output_left o ≤ 4 + n
  left-le n i o = omega (arith, input_left-le n i, output_left-le o)

  -- No goroutine outlives the handler for long: once the handler has returned, the two goroutines
  -- make at most four more moves together and one for each message that the connection had received
  -- and that was not read, and until both are at their ends one of them can move.
  pub goroutines_end :
      {n k : ℕ} {r r' : Room}
      → Run unmarshal in_logs out_logs n opened r
      → r.stage ≡ returned
      → Run unmarshal in_logs out_logs k r r'
      → (k ≤ 4 + r.unread)
        × (((r'.input ≡ gone) × (r'.output ≡ gone))
            ⊎ ((r'' : Room) × Move unmarshal in_logs out_logs r' r''))
  goroutines_end {r} {r'} before over after = (
    omega (arith, (left-Run after over).1, left-le r.unread r.input r.output),
    can_move r' (omega (arith, reports-Run before, reports-Run after)),
  )
