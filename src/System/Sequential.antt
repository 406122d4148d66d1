-- ===== src/System/Sequential.antt =====
-- What calls of the code do one after the other is among what the threads of System do.
pub mod Creates
pub mod Calls
use docpine.Base.{
  ◌≡◌, refl, sym, ap, ◌∙◌, ◌⊎◌, inl, inr, true, Bool-cases, Option-cases, List, [], ◌∷◌, Bytes,
  lookup, delete, ℕ,
}
use mathlib.Core.Path.{subst}
use docpine.Runtime.{Runtime}
use docpine.Session.{
  Session, notify, destroy, attach, has_expired, expired, values, reap_each, notify_each,
  reap_expired, close,
}
use docpine.Abuse.RateLimiter.{RateLimiter}
use docpine.Abuse.Guard.{Guard, release_session}
use docpine.Abuse.Guard.Frame.{seen}
use docpine.App.{World, App, hosted, on_session_end}
use docpine.App.Agreement.{ended}
use docpine.App.Consistency.{IsConsistent, guard-notify}
use docpine.App.Serial.{guard-destroy_each}
use docpine.System.{
  Thread, destroying, reaping, closing, notifying, Shared, ids, starts, Move, remove, reap,
  close_all,
}
use docpine.System.Progress.{is_done}
use docpine.System.Solo.{Moves, moves, ended_all, solo_notify}

-- What System shows of a server: the guard but its buckets, and the registry.
abbrev pub view : {L H S : Type 0} → RateLimiter L → App L H S → Shared L S
view rl p = record { guard = seen rl p.env.guard; sessions = p.mngr.sessions }

seen-ended :
    {L : Type 0} (rl : RateLimiter L) (id : Bytes) (g : Guard L)
    → seen rl (ended id g) ≡ ended id (seen rl g)
unfolding release_session
seen-ended rl id g = elim (Option-cases (lookup id g.session_devices)) [
  | inl e ↦ rw (e, release_session) refl
  | inr (d, e) ↦ rw (e, release_session) refl
]

seen-ended_all :
    {L : Type 0} (rl : RateLimiter L) (rest : List Bytes) (g : Guard L)
    → seen rl (ended_all rest g) ≡ ended_all rest (seen rl g)
unfolding ended_all
seen-ended_all rl [] g = refl
seen-ended_all rl (id ∷ rest) g =
    seen-ended_all rl rest (ended id g) ∙ ap (ended_all rest) (seen-ended rl id g)

module _ {L H S P : Type 0} (rt : Runtime H S P) where
  guard-reap_each :
      (fns : List (Bytes → World L H → World L H)) (ss : List (Session S)) (w : World L H)
      → fns ≡ on_session_end ∷ []
      → (reap_each (hosted rt) fns ss w).guard ≡ ended_all (ids ss) w.guard
  unfolding reap_each ended_all
  guard-reap_each fns [] w e = refl
  guard-reap_each fns (s ∷ ss) w e =
      guard-reap_each fns ss ((hosted {L = L} rt).destroy s.sandbox (notify fns s.id w)).0 e
      ∙ ap (ended_all (ids ss)) (guard-notify s.id w fns e)

  guard-notify_each :
      (fns : List (Bytes → World L H → World L H)) (ss : List (Session S)) (w : World L H)
      → fns ≡ on_session_end ∷ []
      → (notify_each fns ss w).guard ≡ ended_all (ids ss) w.guard
  unfolding notify_each ended_all
  guard-notify_each fns [] w e = refl
  guard-notify_each fns (s ∷ ss) w e =
      guard-notify_each fns ss (notify fns s.id w) e
      ∙ ap (ended_all (ids ss)) (guard-notify s.id w fns e)

module _ {L H S : Type 0} (rl : RateLimiter L) where
  -- A call does nothing that System shows, or what one thread does from its start to its end.
  abbrev pub Runs : App L H S → App L H S → Type 0
  Runs p q =
      (view rl q ≡ view rl p)
      ⊎ ((t t' : Thread) × (starts t ≡ true)
          × (is_done t' ≡ true)
          × Moves (view rl p) t (view rl q) t')

  -- Callbacks that run after a removal.
  Runs-notify :
      (p q : App L H S) (t : Thread) (rest : List Bytes)
      → starts t ≡ true
      → Move (view rl p) t (record (view rl p) { sessions = q.mngr.sessions }) (notifying rest)
      → q.env.guard ≡ ended_all rest p.env.guard
      → Runs p q
  Runs-notify p q t rest h m e =
      let s : Shared L S = record (view rl p) { sessions = q.mngr.sessions } in
      let same : record s { guard = ended_all rest s.guard } ≡ view rl q =
        ap (λ g. record s { guard = g })
          (sym (ap (seen rl) e ∙ seen-ended_all rl rest p.env.guard)) in
      inr (
        t,
        notifying [],
        h,
        refl,
        subst (λ x. Moves (view rl p) t x (notifying [])) same (moves m (solo_notify rest s)),
      )

module _ {L H S P : Type 0} (rl : RateLimiter L) (rt : Runtime H S P) where
  pub destroy-Runs :
      (id : Bytes) (p : App L H S) → IsConsistent 0 p → Runs rl p (destroy (hosted rt) id p).0
  unfolding destroy ended_all
  destroy-Runs id p c = elim (Option-cases (lookup id p.mngr.sessions)) [
    | inl e ↦ rw (e, destroy) (inl refl)
    | inr (s, e) ↦
        let gone : App L H S = record {
          mngr = record (p.mngr) { sessions = delete id p.mngr.sessions };
          env = ((hosted {L = L} rt).destroy s.sandbox (notify p.mngr.on_destroy id p.env)).0;
        } in
        rw (e, destroy)
          (Runs-notify rl p gone (destroying id) (id ∷ []) refl (remove id s e)
            (guard-notify id p.env p.mngr.on_destroy c.wired))
  ]

  pub attach-Runs :
      (id : Bytes) (now : ℕ) (p : App L H S)
      → IsConsistent 0 p
      → Runs rl p (attach (hosted rt) id now p).0
  unfolding attach
  attach-Runs id now p c = elim (Option-cases (lookup id p.mngr.sessions)) [
    | inl e ↦ rw (e, attach) (inl refl)
    | inr (s, e) ↦ elim (Bool-cases (has_expired now s)) [
      | inl late ↦ rw (e, attach) (rw late (destroy-Runs id p c))
      | inr fine ↦ rw (e, attach) (rw fine (inl refl))
    ]
  ]

  pub reap_expired-Runs :
      (now : ℕ) (p : App L H S) → IsConsistent 0 p → Runs rl p (reap_expired (hosted rt) now p)
  unfolding reap_expired
  reap_expired-Runs now p c =
      Runs-notify rl p (reap_expired (hosted rt) now p) (reaping now)
        (ids (expired now p.mngr.sessions)) refl (reap now)
        (guard-reap_each rt p.mngr.on_destroy (expired now p.mngr.sessions) p.env c.wired)

  pub close-Runs : (p : App L H S) → IsConsistent 0 p → Runs rl p (close (hosted rt) p).0
  unfolding close
  close-Runs p c =
      Runs-notify rl p (close (hosted rt) p).0 closing (ids (values p.mngr.sessions)) refl close_all
        (guard-destroy_each rt (values p.mngr.sessions)
            (notify_each p.mngr.on_destroy (values p.mngr.sessions) p.env)
          ∙ guard-notify_each rt p.mngr.on_destroy (values p.mngr.sessions) p.env c.wired)
