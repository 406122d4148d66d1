-- ===== src/System/Stuck/Binding.antt =====
-- A session that ends between its registration in the registry and its binding to the device: the
-- two are two accesses of the create handler.
use mathlib.Core.Path.{subst, subst₂}
use docpine.Base.{
  ◌≡◌, refl, sym, ap, true, false, none, some, List, [], ◌∷◌, Bytes, ℕ, ◌+◌, ◌<◌, ltb, lt→ltb,
  lookup, insert, lookup-insert, lookup-insert_self, Bool-cases, inl, inr, str_eq, str_eq_iff,
  total, arith, if◌then◌else◌,
}
use docpine.Http.{Request, Response}
use docpine.Session.{Session, new_session, remaining, expired}
use docpine.Abuse.Concurrency.{loading, released, try_acquire}
use docpine.Abuse.Guard.{
  Guard, Settings, Peers, Clocks, proceeds, new_guard, has_active_device_session, register_session,
  release_session, check_anonymous_create,
}
use docpine.Abuse.Guard.Slots.{device_of, is_proceeds, check-cases}
use docpine.System.{
  Thread, checking, acquiring, holding, registering, releasing, reaping, notifying, Shared, ids,
  limited, Move, find_free, pass, provisioned, bind, reap, Reach, here, spawn, step,
}
use docpine.System.Accounting.{owed}
use docpine.System.Races.{started}
use docpine.System.Solo.{
  Moves, stays, moves, Moves-trans, Reach-Moves, Reach-call, solo_acquire, solo_notify, ended_all,
}
use docpine.System.Stuck.Onward.{IsBound, Onward, Onward-busy}

missing : {a : Bytes} → none ≡ some a → ⊥
missing h = cc

module _ {L : Type 0} where
  -- The callback of a session that is bound to no device: it frees a slot, and unbinds nothing.
  ended-unbound :
      (id : Bytes) (g : Guard L)
      → g.device_sessions ≡ []
      → g.session_devices ≡ []
      → let g' = ended_all (id ∷ []) g in (g'.device_sessions ≡ []) × (g'.session_devices ≡ [])
  unfolding ended_all release_session lookup
  ended-unbound id g e e' = rw (e', release_session) (e, e')

module _ {L R : Type 0} (peers : Peers L R) where
  -- A request that passes the guard finds its device free, and gets a slot.
  passes :
      (r : Request) (tok du : Bytes) (clocks : Clocks) (g : Guard L) (w : Response)
      → (check_anonymous_create peers r tok du clocks g w).verdict ≡ proceeds
      → (has_active_device_session (device_of peers r du clocks g) g ≡ false)
        × ((try_acquire g.concurrency).1 ≡ true)
  passes r tok du clocks g w h =
      ground (arith, check-cases peers r tok du clocks g w, ap is_proceeds h)

module _ {L S : Type 0} where
  -- The reaper takes the only session, once it is past its expiry.
  reap_only :
      (now : ℕ) (x : Session S) (s : Shared L S)
      → ltb x.expires_at now ≡ true
      → Move
          (record s { sessions = (x.id, x) ∷ [] })
          (reaping now)
          (record s { sessions = [] })
          (notifying (x.id ∷ []))
  unfolding remaining expired
  reap_only now x s gone =
      let s₂ : Shared L S = record s { sessions = (x.id, x) ∷ [] } in
      let left : remaining now ((x.id, x) ∷ []) ≡ [] = rw gone in
      let taken : expired now ((x.id, x) ∷ []) ≡ x ∷ [] = rw gone in
      subst₂ (λ m ss. Move s₂ (reaping now) (record s₂ { sessions = m }) (notifying (ids ss))) left
        taken (reap {s = s₂} now)

  -- A request from its start to the registration of its session.
  to_registry :
      (d : Bytes) (x : Session S) (cfg : Settings)
      → let s : Shared L S = started cfg in
        has_active_device_session d s.guard ≡ false
        → (try_acquire s.guard.concurrency).1 ≡ true
        → Moves s
            (checking d)
            (record (limited s (try_acquire s.guard.concurrency).0) { sessions = (x.id, x) ∷ [] })
            (registering d x.id)
  unfolding insert lookup
  to_registry d x cfg idle granted =
      let s : Shared L S = started cfg in
      let s₁ : Shared L S = limited s (try_acquire s.guard.concurrency).0 in
      let slot : Moves s (acquiring d loading) s₁ (holding d) =
        subst (λ b. Moves s (acquiring d loading) s₁ (if b then holding d else releasing released))
          granted (solo_acquire d s) in
      moves (find_free d idle)
        (Moves-trans slot (moves (pass d) (moves (provisioned {s = s₁} d x refl) stays)))

  -- What is left of the request, once its session has ended: it binds a session that is gone.
  bound :
      (d id : Bytes) (g : Guard L)
      → g.device_sessions ≡ []
      → g.session_devices ≡ []
      → IsBound {S = S} d id (record { guard = register_session d id g; sessions = [] })
  unfolding register_session lookup
  bound d id g e e' = record {
    by_device = lookup-insert_self d id g.device_sessions;
    alone = λ j h. elim (Bool-cases (str_eq id j)) [
      | inl same ↦ sym ((str_eq_iff id j).0 same)
      | inr other ↦ absurd (missing (rw (lookup-insert id j d g.session_devices, other, e') at h))
    ];
    unlike = tt;
  }

module _ {L S R : Type 0} (peers : Peers L R) where
  -- A request that passes the guard of a server that has just started, and whose session expires
  -- before the request binds it, can leave its device bound for good: the server comes to a state
  -- with no session and no thread that owes a slot, from which the device counts as active in
  -- whatever follows, as long as no new session gets the id of the one that is gone.
  pub late_binding :
      (cfg : Settings) (r : Request) (tok du : Bytes) (clocks : Clocks) (w : Response)
      (ttl created now : ℕ) (uuid : Bytes) (sandbox : S)
      → (check_anonymous_create peers r tok du clocks (new_guard cfg) w).verdict ≡ proceeds
      → created + ttl < now
      → let d = device_of peers r du clocks (new_guard {L = L} cfg) in
        (s : Shared L S) × (ts : List Thread) × Reach (started cfg) s ts
        × (s.sessions ≡ [])
        × (total owed ts ≡ 0)
        × ((s' : Shared L S) (ts' : List Thread)
            → Onward uuid s ts s' ts'
            → has_active_device_session d s'.guard ≡ true)
  unfolding new_guard
  late_binding cfg r tok du clocks w ttl created now uuid sandbox h late =
      let d = device_of peers r du clocks (new_guard {L = L} cfg) in
      let x : Session S = new_session ttl uuid sandbox created in
      let s₀ : Shared L S = started cfg in
      let (idle, granted) = passes peers r tok du clocks (new_guard cfg) w h in
      let s₁ : Shared L S = limited s₀ (try_acquire s₀.guard.concurrency).0 in
      let s₂ : Shared L S = record s₁ { guard = ended_all (uuid ∷ []) s₁.guard } in
      let (none_bound, none_back) = ended-unbound uuid s₁.guard refl refl in
      let r₁ =
        Reach-call (checking d) (registering d uuid) [] refl (to_registry d x cfg idle granted)
          here in
      let r₂ = spawn (reaping now) refl r₁ in
      let r₃ =
        Reach-Moves (registering d uuid ∷ [])
          (moves (reap_only now x s₁ (lt→ltb (created + ttl) now late))
            (solo_notify (uuid ∷ []) s₁))
          r₂ in
      let r₄ =
        step (notifying [] ∷ []) [] (registering d uuid) (releasing released) refl refl
          (bind {s = s₂} d uuid) r₃ in
      (
        record s₂ { guard = register_session d uuid s₂.guard },
        notifying [] ∷ releasing released ∷ [],
        r₄,
        refl,
        refl,
        λ s' ts' o.
            Onward-busy d uuid (bound d uuid s₂.guard none_bound none_back) (tt, (tt, tt)) o,
      )
