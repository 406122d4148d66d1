-- ===== src/Terminal/Keeping.antt =====
-- What Attach keeps, if the manager's calls and the rest of the server keep it; and what it does
-- where the upgrade is refused.
use docpine.Base.{
  ℕ, ◌≡◌, refl, sym, ap, ◌∙◌, ◌⊎◌, inl, inr, Bool, true, false, Option, none, some, List, Bytes,
  arith,
}
use mathlib.Core.Path.{subst}
use docpine.Runtime.{Runtime}
use docpine.Session.{Process, attach, destroy}
use docpine.Terminal.{
  ControlMessage, Opening, status, upgrade_failed, closed, terminal, open_terminal, Ending,
  close_terminal,
}
use docpine.Terminal.Console.{
  Event, Console, silent_console, finish_console, run_console, converse, attach_terminal,
}

abbrev is_open : {P : Type 0} → Opening P → Bool
is_open (terminal pty) = true
is_open _ = false

module _ {W S P : Type 0} (rt : Runtime W S P) (session_id : Bytes) (now now' : ℕ)
    (p : Process W S) where
  open_refused :
      let (q, opening) = open_terminal rt session_id false now now' p in
      (q ≡ p) × (is_open opening ≡ false)
  unfolding open_terminal
  open_refused = ground arith

  -- The handler's only call that changes the manager before the terminal is open is Attach.
  open_step :
      (upgraded : Bool)
      → let q = (open_terminal rt session_id upgraded now now' p).0 in
        (q ≡ p) ⊎ (q ≡ (attach rt session_id now' p).0)
  unfolding open_terminal
  open_step upgraded = ground arith

module _ (unmarshal : Bytes → Option ControlMessage) (in_logs out_logs : Bool) {W S P A : Type 0}
    (rt : Runtime W S P) (session_id : Bytes) (events : List Event)
    (meanwhile : Process W S × A → Process W S × A) where
  converse_closed :
      (a : A) (q : Process W S) (opening : Opening P)
      → is_open opening ≡ false
      → (converse unmarshal in_logs out_logs rt session_id events meanwhile a (q, opening)).0
        ≡ (q, a)
  unfolding converse
  converse_closed a q (status code) h = refl
  converse_closed a q upgrade_failed h = refl
  converse_closed a q (closed code reason) h = refl
  converse_closed a q (terminal pty) h = cc

  -- Where the upgrade fails, Attach changes nothing, and nothing happens meanwhile.
  pub attach_terminal_refused :
      (now now' : ℕ) (p : Process W S) (a : A)
      → (attach_terminal unmarshal in_logs out_logs rt session_id false now now' events meanwhile
          (p, a)).0
        ≡ (p, a)
  unfolding attach_terminal
  attach_terminal_refused now now' p a =
      let (q, opening) = open_terminal rt session_id false now now' p in
      let (same, shut) = open_refused rt session_id now now' p in
      converse_closed a q opening shut ∙ ap (λ x. (x, a)) same

  module _ (K : Process W S → Type 0)
      (ends : (p : Process W S) → K p → K (destroy rt session_id p).0)
      (others : (p : Process W S) (a : A) → K p → K (meanwhile (p, a)).0) where
    finish_console-Keeps :
        (c : Console) (end : Option Ending) (p : Process W S)
        → K p
        → K (finish_console unmarshal in_logs out_logs rt session_id (c, end) p).0
    unfolding finish_console close_terminal
    finish_console-Keeps c none p k = k
    finish_console-Keeps c (some end) p k = ends p k

    converse-Keeps :
        (a : A) (q : Process W S) (opening : Opening P)
        → K q
        → K (converse unmarshal in_logs out_logs rt session_id events meanwhile a (q, opening)).0.0
    unfolding converse
    converse-Keeps a q (terminal pty) k =
        let (c, end) = run_console unmarshal in_logs out_logs events silent_console in
        finish_console-Keeps c end (meanwhile (q, a)).0 (others q a k)
    converse-Keeps a q (status code) k = k
    converse-Keeps a q upgrade_failed k = k
    converse-Keeps a q (closed code reason) k = k

    -- Attach keeps what Manager.Attach, Manager.Destroy and the rest of the server keep.
    pub attach_terminal-Keeps :
        (upgraded : Bool) (now now' : ℕ) (p : Process W S) (a : A)
        → K p
        → K (attach rt session_id now' p).0
        → K
            (attach_terminal unmarshal in_logs out_logs rt session_id upgraded now now' events
              meanwhile
              (p, a)).0.0
    unfolding attach_terminal
    attach_terminal-Keeps upgraded now now' p a k k' =
        let (q, opening) = open_terminal rt session_id upgraded now now' p in
        converse-Keeps a q opening (elim (open_step rt session_id now now' p upgraded) [
          | inl same ↦ subst K (sym same) k
          | inr attached ↦ subst K (sym attached) k'
        ])
