-- ===== src/System/Races.antt =====
-- What the bindings of devices do not promise when requests overlap: the test for an active session
-- and the registration of the new one are two accesses.
use docpine.Base.{
  ℕ, suc, ◌≡◌, refl, sym, ◌∙◌, ◌≢◌, false, none, some, List, [], ◌∷◌, Bytes, lookup, insert,
  lookup-insert_self, lookup-insert_ne, pos, geb, arith,
}
use mathlib.Core.Path.{subst}
use docpine.Session.{Session}
use docpine.Abuse.Concurrency.{
  loading, swapping, attempt_step, acquired, new_concurrency_limiter, released,
}
use docpine.Abuse.Guard.{Settings, new_guard, has_active_device_session, register_session}
use docpine.System.{
  Thread, checking, acquiring, holding, provisioning, registering, releasing, Shared, limited,
  after_attempt, Move, find_free, attempt, pass, provisioned, bind, Reach, here, spawn, step,
}

module _ {L S : Type 0} where
  -- The two steps of a TryAcquire that no other thread comes between.
  load :
      (d : Bytes) (s : Shared L S)
      → geb s.guard.concurrency.active s.guard.concurrency.max_concurrent ≡ false
      → Move s (acquiring d loading) s (acquiring d (swapping s.guard.concurrency.active))
  unfolding attempt_step
  load d s room =
      let c = s.guard.concurrency in
      let e : attempt_step loading c ≡ (swapping c.active, c) = rw (room, attempt_step) in
      subst (λ r. Move s (acquiring d loading) (limited s r.1) (after_attempt d r.0)) e
        (attempt d loading)

  swap :
      (d : Bytes) (a : ℕ) (s : Shared L S)
      → s.guard.concurrency.active ≡ pos a
      → Move s
          (acquiring d (swapping (pos a)))
          (limited s (record (s.guard.concurrency) { active = pos (suc a) }))
          (holding d)
  unfolding attempt_step
  swap d a s same =
      let c = s.guard.concurrency in
      let e : attempt_step (swapping (pos a)) c ≡ (acquired, record c { active = pos (suc a) }) =
        ground arith in
      subst (λ r. Move s (acquiring d (swapping (pos a))) (limited s r.1) (after_attempt d r.0)) e
        (attempt d (swapping (pos a)))

-- The server as `main` starts it, with room for two sandboxes and more.
abbrev pub settings_for : Settings → ℕ → Settings
settings_for cfg n = record cfg { max_concurrent = pos (suc (suc n)) }

abbrev pub started : {L S : Type 0} → Settings → Shared L S
started cfg = record { guard = new_guard cfg; sessions = [] }

-- Reachable states in which both of two sessions are registered and bound to one device.
abbrev pub BothBound : {L S : Type 0} → Shared L S → Bytes → Session S → Session S → Type 0
BothBound s d x y =
    (lookup x.id s.sessions ≡ some x)
    × (lookup y.id s.sessions ≡ some y)
    × (lookup x.id s.guard.session_devices ≡ some d)
    × (lookup y.id s.guard.session_devices ≡ some d)

module _ {L S : Type 0} where
  -- A server that admits two sandboxes or more comes to a state in which two sessions of one device
  -- are registered and bound to it, for every device and any two sessions with different ids: both
  -- requests pass the test before either of them binds its session.
  pub two_sessions_one_device :
      (cfg : Settings) (n : ℕ) (d : Bytes) (x y : Session S)
      → x.id ≢ y.id
      → (s : Shared L S) × (ts : List Thread) × Reach (started (settings_for cfg n)) s ts
        × BothBound s d x y
  unfolding new_guard new_concurrency_limiter attempt_step has_active_device_session
      register_session lookup
  two_sessions_one_device cfg n d x y ne =
      let s₀ : Shared L S = started (settings_for cfg n) in
      let r₁ : Reach s₀ s₀ (checking d ∷ checking d ∷ []) =
        spawn (checking d) refl (spawn (checking d) refl here) in
      let r₂ =
        step [] (checking d ∷ []) (checking d) (acquiring d loading) refl refl (find_free d refl)
          r₁ in
      let r₃ =
        step (acquiring d loading ∷ []) [] (checking d) (acquiring d loading) refl refl
          (find_free d refl) r₂ in
      let room : geb (pos 0) (pos (suc (suc n))) ≡ false = ground arith in
      let room' : geb (pos 1) (pos (suc (suc n))) ≡ false = ground arith in
      let r₄ =
        step [] (acquiring d loading ∷ []) (acquiring d loading) (acquiring d (swapping (pos 0)))
          refl refl (load d s₀ room) r₃ in
      let r₅ =
        step [] (acquiring d loading ∷ []) (acquiring d (swapping (pos 0))) (holding d) refl refl
          (swap d 0 s₀ refl) r₄ in
      let s₁ : Shared L S = limited s₀ (record (s₀.guard.concurrency) { active = pos 1 }) in
      let r₆ =
        step (holding d ∷ []) [] (acquiring d loading) (acquiring d (swapping (pos 1))) refl refl
          (load d s₁ room') r₅ in
      let r₇ =
        step (holding d ∷ []) [] (acquiring d (swapping (pos 1))) (holding d) refl refl
          (swap d 1 s₁ refl) r₆ in
      let s₂ : Shared L S = limited s₁ (record (s₁.guard.concurrency) { active = pos 2 }) in
      let r₈ = step [] (holding d ∷ []) (holding d) (provisioning d) refl refl (pass d) r₇ in
      let r₉ = step (provisioning d ∷ []) [] (holding d) (provisioning d) refl refl (pass d) r₈ in
      let s₃ : Shared L S = record s₂ { sessions = insert x.id x [] } in
      let s₄ : Shared L S = record s₂ { sessions = insert y.id y (insert x.id x []) } in
      let absent : lookup y.id (insert x.id x []) ≡ none = lookup-insert_ne x.id y.id x [] ne in
      let r₁₀ : Reach s₀ s₃ (registering d x.id ∷ provisioning d ∷ []) =
        step [] (provisioning d ∷ []) (provisioning d) (registering d x.id) refl refl
          (provisioned {s = s₂} d x refl) r₉ in
      let r₁₁ : Reach s₀ s₄ (registering d x.id ∷ registering d y.id ∷ []) =
        step (registering d x.id ∷ []) [] (provisioning d) (registering d y.id) refl refl
          (provisioned {s = s₃} d y absent) r₁₀ in
      let s₅ : Shared L S = record s₄ { guard = register_session d x.id s₄.guard } in
      let s₆ : Shared L S = record s₅ { guard = register_session d y.id s₅.guard } in
      let r₁₂ : Reach s₀ s₅ (releasing released ∷ registering d y.id ∷ []) =
        step [] (registering d y.id ∷ []) (registering d x.id) (releasing released) refl refl
          (bind {s = s₄} d x.id) r₁₁ in
      let r₁₃ : Reach s₀ s₆ (releasing released ∷ releasing released ∷ []) =
        step (releasing released ∷ []) [] (registering d y.id) (releasing released) refl refl
          (bind {s = s₅} d y.id) r₁₂ in
      (
        s₆,
        releasing released ∷ releasing released ∷ [],
        r₁₃,
        (
          lookup-insert_ne y.id x.id y (insert x.id x []) (λ e. ne (sym e))
              ∙ lookup-insert_self x.id x [],
          lookup-insert_self y.id y (insert x.id x []),
          lookup-insert_ne y.id x.id d (insert x.id d []) (λ e. ne (sym e))
              ∙ lookup-insert_self x.id d [],
          lookup-insert_self y.id d (insert x.id d []),
        ),
      )
