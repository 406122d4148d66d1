-- ===== src/Terminal/Sessions.antt =====
-- A session after its terminal has been closed.
use docpine.Base.{ℕ, ◌≡◌, refl, Bool, false, none, Bytes, lookup, is_empty, arith, str_eq_refl}
use docpine.Runtime.{session_not_found, is_session_not_found, err, Runtime}
use docpine.Session.{Process, get, destroy}
use docpine.Session.Lifecycle.{destroy_lem}
use docpine.Terminal.{Ending, status, open_terminal, close_terminal}

get_absent :
    {W S : Type 0} (id : Bytes) (now : ℕ) (p : Process W S)
    → lookup id p.mngr.sessions ≡ none
    → get id now p.mngr ≡ err session_not_found
unfolding get
get_absent id now p e = rw (e, get)

module _ {W S P : Type 0} (rt : Runtime W S P) where
  open_absent :
      (id : Bytes) (upgraded : Bool) (now now' : ℕ) (p : Process W S)
      → is_empty id ≡ false
      → lookup id p.mngr.sessions ≡ none
      → open_terminal rt id upgraded now now' p ≡ (p, status 404)
  unfolding open_terminal is_session_not_found
  open_absent id upgraded now now' p given e =
      rw (given, open_terminal) (rw (get_absent id now p e) refl)

  -- However the pumps ended, or if the timer did, the session with a non-empty id is over once its
  -- terminal is closed: a later request to attach to it is answered with 404 and changes nothing,
  -- and closing the terminal a second time changes nothing either.
  reattach-close_terminal :
      (id : Bytes) (ending ending' : Ending) (upgraded : Bool) (now now' : ℕ) (p : Process W S)
      → is_empty id ≡ false
      → let q = (close_terminal rt id ending p).0 in
        (open_terminal rt id upgraded now now' q ≡ (q, status 404))
        × ((close_terminal rt id ending' q).0 ≡ q)
  unfolding close_terminal
  reattach-close_terminal id ending ending' upgraded now now' p given =
      let (gone, twice) = destroy_lem rt id id p in
      (
        open_absent id upgraded now now' (destroy rt id p).0 given
            (ground (arith, gone, str_eq_refl id)),
        rw twice refl,
      )
