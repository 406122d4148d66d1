-- ===== src/Terminal/Goroutines/Frames.antt =====
-- What the client of a terminal gets last.
use docpine.Base.{ℕ, ◌≡◌, refl, Bool, false, Option, some, List, [], ◌∷◌, ◌++◌, Bytes}
use docpine.Terminal.{ControlMessage, Ending, farewell, Frame}
use docpine.Terminal.Goroutines.{
  arrives, Stage, waiting, parting, takes_frames, leave, Room, opened, type_in, print_out, Move,
  types, hangs_up, prints, reports_input, reports_output, receives, expires, parts, leaves, Run,
  rests, goes,
}

beyond : (s s' : Stage) → leave s ≡ some s' → takes_frames s ≡ false
unfolding leave
beyond waiting s' h = absurd (cc)
beyond (parting end) s' h = absurd (cc)
beyond _ s' h = refl

module _ (unmarshal : Bytes → Option ControlMessage) (in_logs out_logs : Bool) where
  -- The handler has sent the close frame, after all other frames.
  abbrev pub IsClosed : Room → Type 0
  IsClosed r =
      (frames : List Frame) × (end : Ending) × (r.console.to_client ≡ frames ++ farewell end ∷ [])

  Move-IsClosed :
      {r r' : Room}
      → Move unmarshal in_logs out_logs r r'
      → (takes_frames r.stage ≡ false → IsClosed r)
      → takes_frames r'.stage ≡ false
      → IsClosed r'
  unfolding type_in print_out
  Move-IsClosed (arrives e) c h = c h
  Move-IsClosed (types {r} t m written n p q e) c h = rw h (c h)
  Move-IsClosed (hangs_up e p) c h = c h
  Move-IsClosed (prints x p e) c h = rw h (c h)
  Move-IsClosed (reports_input e p room) c h = c h
  Move-IsClosed (reports_output e p room) c h = c h
  Move-IsClosed (receives e rest p q) c h = absurd (cc)
  Move-IsClosed (expires p) c h = absurd (cc)
  Move-IsClosed (parts {r} end p) c h = (r.console.to_client, end, refl)
  Move-IsClosed (leaves {r} s p) c h = c (beyond r.stage s p)

  -- The close frame is the last frame that the client gets: as soon as the handler has sent it,
  -- what the client has got ends with it, and stays so, whatever the goroutines still do.
  close_is_last :
      {n : ℕ} {r : Room}
      → Run unmarshal in_logs out_logs n opened r
      → takes_frames r.stage ≡ false
      → (frames : List Frame) × (end : Ending) × (r.console.to_client ≡ frames ++ farewell end ∷ [])
  close_is_last rests h = absurd (cc)
  close_is_last (goes ms m) h = Move-IsClosed m (close_is_last ms) h
