-- ===== src/App/Order.antt =====
-- The order in which Go ranges over the sessions does not matter to what the reaper leaves.
use docpine.Base.{
  ℕ, ◌≡◌, refl, sym, ap, ◌∙◌, ◌⊎◌, inl, inr, option_ext, none, List, [], ◌∷◌, Bytes, Dict, lookup,
  SameEntries, count-SameEntries, arith, pos, ltb, ◌+◌, length-SameEntries,
}
use docpine.Runtime.{Runtime}
use docpine.Session.{Session, notify, expired, reap_each, reap_expired, active_count}
use docpine.Session.Reaper.{reap_expired_lem}
use docpine.Abuse.Guard.{Guard}
use docpine.Abuse.Guard.Bindings.{release_session_frame}
use docpine.App.{World, App, hosted, on_session_end}
use docpine.App.Agreement.{ended}
use docpine.App.Consistency.{IsConsistent, guard-notify}
use docpine.App.Serial.{reap_expired-IsConsistent}

-- A binding that is there is the one that was there.
abbrev Shrinks : Dict Bytes → Dict Bytes → Type 0
Shrinks m m' = (id : Bytes) → (lookup id m' ≡ none) ⊎ (lookup id m' ≡ lookup id m)

module _ {L H S P : Type 0} (rt : Runtime H S P) where
  ended-Shrinks :
      (id : Bytes) (g : Guard L) → Shrinks g.session_devices (ended id g).session_devices
  ended-Shrinks id g j = ground (arith, (release_session_frame id g).1 j)

  reap_each-Shrinks :
      (fns : List (Bytes → World L H → World L H)) (ss : List (Session S)) (w : World L H)
      → fns ≡ on_session_end ∷ []
      → Shrinks w.guard.session_devices (reap_each (hosted rt) fns ss w).guard.session_devices
  unfolding reap_each
  reap_each-Shrinks fns [] w e j = inr refl
  reap_each-Shrinks fns (s ∷ ss) w e j =
      let told = notify fns s.id w in
      let next = ((hosted {L = L} rt).destroy s.sandbox told).0 in
      let same = ap (λ (g : Guard L). lookup j g.session_devices) (guard-notify s.id w fns e) in
      elim (reap_each-Shrinks fns ss next e j) [
        | inl gone ↦ inl gone
        | inr kept ↦ elim (ended-Shrinks s.id w.guard j) [
          | inl gone ↦ inl (kept ∙ same ∙ gone)
          | inr there ↦ inr (kept ∙ same ∙ there)
        ]
      ]

  reap_expired-Shrinks :
      (now : ℕ) (p : App L H S)
      → p.mngr.on_destroy ≡ on_session_end ∷ []
      → Shrinks p.env.guard.session_devices
          (reap_expired (hosted rt) now p).env.guard.session_devices
  unfolding reap_expired
  reap_expired-Shrinks now p wired =
      reap_each-Shrinks p.mngr.on_destroy (expired now p.mngr.sessions) p.env wired

  -- Two servers with the same guard, and the same sessions in another order.
  pub record Alike (p p' : App L H S) : Type 0 where
    pub consistent : IsConsistent 0 p
    pub consistent' : IsConsistent 0 p'
    pub same_guard : p.env.guard ≡ p'.env.guard
    pub same_sessions : SameEntries p.mngr.sessions p'.mngr.sessions

  module _ (now : ℕ) (p p' : App L H S) (alike : Alike p p') where
    sessions_alike :
        SameEntries
          (reap_expired (hosted rt) now p).mngr.sessions
          (reap_expired (hosted rt) now p').mngr.sessions
    sessions_alike id = option_ext _ _ (λ s.
        let before = (reap_expired_lem (hosted rt) now p alike.consistent.agrees.distinct).0 id s in
        let after =
          (reap_expired_lem (hosted rt) now p' alike.consistent'.agrees.distinct).0 id s in
        ground (arith, before, after, alike.same_sessions id))

    bindings_alike :
        SameEntries
          (reap_expired (hosted rt) now p).env.guard.session_devices
          (reap_expired (hosted rt) now p').env.guard.session_devices
    bindings_alike id =
        let a = (reap_expired-IsConsistent rt now p alike.consistent).agrees in
        let a' = (reap_expired-IsConsistent rt now p' alike.consistent').agrees in
        ground (
          arith,
          reap_expired-Shrinks now p alike.consistent.wired id,
          reap_expired-Shrinks now p' alike.consistent'.wired id,
          a.live id,
          a'.live id,
          sessions_alike id,
          ap (λ (g : Guard L). lookup id g.session_devices) alike.same_guard,
        )

    -- In whatever order Go ranges over its map of sessions, a round of the reaper on a consistent
    -- server leaves the same sessions, the same count of active ones at any time, the same slots in
    -- use, and the same bindings of devices and sessions.
    pub reap_order :
        let q = reap_expired (hosted rt) now p in
        let q' = reap_expired (hosted rt) now p' in
        SameEntries q.mngr.sessions q'.mngr.sessions
        × ((at : ℕ) → active_count at q.mngr ≡ active_count at q'.mngr)
        × (q.env.guard.concurrency.active ≡ q'.env.guard.concurrency.active)
        × SameEntries q.env.guard.session_devices q'.env.guard.session_devices
        × SameEntries q.env.guard.device_sessions q'.env.guard.device_sessions
    unfolding active_count
    reap_order =
        let a = (reap_expired-IsConsistent rt now p alike.consistent).agrees in
        let a' = (reap_expired-IsConsistent rt now p' alike.consistent').agrees in
        let m = (reap_expired (hosted rt) now p).mngr.sessions in
        let m' = (reap_expired (hosted rt) now p').mngr.sessions in
        (
          sessions_alike,
          λ at.
              count-SameEntries (λ s. ltb at s.expires_at) m m' a.distinct a'.distinct
                sessions_alike,
          a.balanced
              ∙ ap (λ n. pos (n + 0))
                  (length-SameEntries m m' a.distinct a'.distinct sessions_alike)
              ∙ sym a'.balanced,
          bindings_alike,
          λ d. option_ext _ _ (λ s. ground (arith, a.paired d s, a'.paired d s, bindings_alike s)),
        )
