-- ===== src/System/Stuck/Onward.antt =====
-- A device whose binding no thread removes any more.
use mathlib.Core.Path.{subst}
use docpine.Base.{
  All-pick, All-replace, All-insert, All-delete, ◌≡◌, ◌≢◌, refl, sym, ap, ◌∙◌, Bool, true, false,
  Bool-cases, Option-cases, inl, inr, none, some, List, ◌∷◌, ◌++◌, Bytes, lookup, lookup-insert,
  lookup-insert_ne, lookup-delete, All, str_eq, str_eq_ne,
}
use docpine.Abuse.Guard.{has_active_device_session, register_session, release_session}
use docpine.System.{
  Thread, Shared, starts, Move, find_free, find_busy, attempt, refuse, pass, provision_failed,
  provisioned, bind, release_slot, remove, remove_absent, reap, close_all, unbind, free_slot,
}
use docpine.System.Stuck.{
  Unlike, Calm, Unlike-lookup, Unlike-remaining, Unlike-values, Calm-after_attempt,
  Calm-after_release, Calm-starts,
}

cut : {a : Bytes} → none ≡ some a → ⊥
cut h = cc

differ : {b : Bool} → b ≡ false → b ≡ true → ⊥
differ h k = cc

some_path : {a b : Bytes} → some a ≡ some b → a ≡ b
some_path h = cc

module _ {L S : Type 0} (id : Bytes) where
  -- The access registers no session under the id.
  abbrev pub Spares : {s s' : Shared L S} {t t' : Thread} → Move s t s' t' → Type 0
  Spares (provisioned e sess fresh) = sess.id ≢ id
  Spares _ = Unit

  -- What a server comes to from a state with some threads, while no new session gets the id.
  pub data Onward (s₀ : Shared L S) (ts₀ : List Thread) : Shared L S → List Thread → Type 0 where
    here : Onward s₀ ts₀ s₀ ts₀
    spawn :
        {s : Shared L S} {ts : List Thread} (t : Thread)
        → starts t ≡ true
        → Onward s₀ ts₀ s ts
        → Onward s₀ ts₀ s (t ∷ ts)
    step :
        {s s' : Shared L S} {ts ts' : List Thread} (before after : List Thread) (t t' : Thread)
        → ts ≡ before ++ (t ∷ after)
        → ts' ≡ before ++ (t' ∷ after)
        → (m : Move s t s' t') → Spares m
        → Onward s₀ ts₀ s ts
        → Onward s₀ ts₀ s' ts'

module _ {L S : Type 0} (d id : Bytes) where
  -- A device bound to a session that is not registered, and to no other one.
  pub record IsBound (s : Shared L S) : Type 0 where
    pub by_device : lookup d s.guard.device_sessions ≡ some id
    pub alone : (j : Bytes) → lookup j s.guard.session_devices ≡ some d → j ≡ id
    pub unlike : All (Unlike id) s.sessions

  busy : (s : Shared L S) → IsBound s → has_active_device_session d s.guard ≡ true
  unfolding has_active_device_session
  busy s b = rw (b.by_device, has_active_device_session) refl

  -- A binding of another device, to another session.
  bind-IsBound :
      (e j : Bytes) (s : Shared L S)
      → IsBound s
      → e ≢ d
      → j ≢ id
      → IsBound (record s { guard = register_session e j s.guard })
  unfolding register_session
  bind-IsBound e j s b n n' = record {
    by_device = lookup-insert_ne e d j s.guard.device_sessions n ∙ b.by_device;
    alone = λ k h. elim (Bool-cases (str_eq j k)) [
      | inl same ↦
          absurd (n (some_path (rw (lookup-insert j k e s.guard.session_devices, same) at h)))
      | inr other ↦ b.alone k (rw (lookup-insert j k e s.guard.session_devices, other) at h)
    ];
    unlike = b.unlike;
  }

  -- The end of another session.
  unbind-IsBound :
      (j : Bytes) (s : Shared L S)
      → IsBound s
      → j ≢ id
      → IsBound (record s { guard = release_session j s.guard })
  unfolding release_session
  unbind-IsBound j s b n = elim (Option-cases (lookup j s.guard.session_devices)) [
    | inl e ↦ rw (e, release_session) b
    | inr (e, h) ↦
        let apart : e ≢ d = λ same. n (b.alone j (h ∙ ap some same)) in
        rw (h, release_session)
          (record {
            by_device =
                rw (lookup-delete e d s.guard.device_sessions, str_eq_ne e d apart) b.by_device;
            alone = λ k q. elim (Bool-cases (str_eq j k)) [
              | inl same ↦ absurd (cut (rw (lookup-delete j k s.guard.session_devices, same) at q))
              | inr other ↦ b.alone k (rw (lookup-delete j k s.guard.session_devices, other) at q)
            ];
            unlike = b.unlike;
          })
  ]

  -- An access keeps the binding, and its thread calm.
  Move-IsBound :
      {s s' : Shared L S} {t t' : Thread} (m : Move s t s' t')
      → Spares id m
      → IsBound s
      → Calm d id t
      → IsBound s' × Calm d id t'
  Move-IsBound (find_free {s} e h) sp b c =
      (b, λ same. differ h (ap (λ x. has_active_device_session x s.guard) same ∙ busy s b))
  Move-IsBound (find_busy e h) sp b c = (b, tt)
  Move-IsBound (attempt e a) sp b c = (
    record { by_device = b.by_device; alone = b.alone; unlike = b.unlike },
    Calm-after_attempt d id e _ c,
  )
  Move-IsBound (refuse e) sp b c = (b, tt)
  Move-IsBound (pass e) sp b c = (b, c)
  Move-IsBound (provision_failed e) sp b c = (b, tt)
  Move-IsBound (provisioned {s} e sess fresh) sp b c = (
    record {
      by_device = b.by_device;
      alone = b.alone;
      unlike = All-insert (Unlike id) sess.id sess s.sessions (sp, sp) b.unlike;
    },
    (c, sp),
  )
  Move-IsBound (bind {s} e j) sp b c = (bind-IsBound e j s b c.0 c.1, tt)
  Move-IsBound (release_slot r) sp b c =
      (record { by_device = b.by_device; alone = b.alone; unlike = b.unlike }, tt)
  Move-IsBound (remove {s} k sess found) sp b c = (
    record {
      by_device = b.by_device;
      alone = b.alone;
      unlike = All-delete (Unlike id) k s.sessions b.unlike;
    },
    (Unlike-lookup id k sess s.sessions found b.unlike, tt),
  )
  Move-IsBound (remove_absent k h) sp b c = (b, tt)
  Move-IsBound (reap {s} now) sp b c =
      let (kept, gone) = Unlike-remaining now id s.sessions b.unlike in
      (record { by_device = b.by_device; alone = b.alone; unlike = kept }, gone)
  Move-IsBound (close_all {s}) sp b c = (
    record { by_device = b.by_device; alone = b.alone; unlike = tt },
    Unlike-values id s.sessions b.unlike,
  )
  Move-IsBound (unbind {s} j rest) sp b c = (unbind-IsBound j s b c.0, c.1)
  Move-IsBound (free_slot rest r) sp b c = (
    record { by_device = b.by_device; alone = b.alone; unlike = b.unlike },
    Calm-after_release d id rest _ c,
  )

  Onward-IsBound :
      {s₀ : Shared L S} {ts₀ : List Thread} {s : Shared L S} {ts : List Thread}
      → IsBound s₀
      → All (Calm d id) ts₀
      → Onward id s₀ ts₀ s ts
      → IsBound s × All (Calm d id) ts
  Onward-IsBound b c here = (b, c)
  Onward-IsBound b c (spawn t h r) =
      let (b', c') = Onward-IsBound b c r in (b', (Calm-starts d id t h, c'))
  Onward-IsBound b c (step before after t t' e e' m sp r) =
      let (b', c') = Onward-IsBound b c r in
      let all = subst (All (Calm d id)) e c' in
      let (b'', calm) = Move-IsBound m sp b' (All-pick (Calm d id) before after t all) in
      (b'', subst (All (Calm d id)) (sym e') (All-replace (Calm d id) before after t t' calm all))

  -- The device counts as active for good.
  pub Onward-busy :
      {s₀ : Shared L S} {ts₀ : List Thread} {s : Shared L S} {ts : List Thread}
      → IsBound s₀
      → All (Calm d id) ts₀
      → Onward id s₀ ts₀ s ts
      → has_active_device_session d s.guard ≡ true
  Onward-busy {s} b c r = busy s (Onward-IsBound b c r).0
