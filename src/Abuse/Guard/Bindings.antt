-- ===== src/Abuse/Guard/Bindings.antt =====
-- The two maps of the guard: which session a device has, and which device a session belongs to.
use docpine.Base.{
  ◌≡◌, refl, sym, ◌∙◌, ◌≢◌, ◌↔◌, inl, inr, true, false, none, some, Bytes, lookup, lookup-insert,
  lookup-delete, lookup-insert_self, lookup-insert_ne, lookup-delete_self, lookup-delete_ne, insert,
  delete, str_eq, str_eq_iff, if◌then◌else◌, arith, Option-cases,
}
use docpine.Abuse.Guard.{Guard, has_active_device_session, register_session, release_session}

module _ {L : Type 0} where
  -- The maps are inverse to each other.
  abbrev pub IsPaired : Guard L → Type 0
  IsPaired g =
      (d s : Bytes) → (lookup d g.device_sessions ≡ some s) ↔ (lookup s g.session_devices ≡ some d)

  -- While the maps are inverse, registering a session that is not bound, for a device that has
  -- none, keeps the maps inverse, and from then on the device has an active session.
  pub register_session-IsPaired :
      (d s : Bytes) (g : Guard L)
      → IsPaired g
      → has_active_device_session d g ≡ false
      → lookup s g.session_devices ≡ none
      → IsPaired (register_session d s g)
        × (has_active_device_session d (register_session d s g) ≡ true)
  unfolding register_session has_active_device_session
  register_session-IsPaired d s g paired idle fresh = (
    λ e t. ground (
      arith,
      lookup-insert d e s g.device_sessions,
      lookup-insert s t d g.session_devices,
      str_eq_iff d e,
      str_eq_iff s t,
      paired e t,
      paired d t,
      paired e s,
    ),
    ground (arith, lookup-insert_self d s g.device_sessions),
  )

  release_session_unbound :
      (s : Bytes) (g : Guard L) → lookup s g.session_devices ≡ none → release_session s g ≡ g
  unfolding release_session
  release_session_unbound s g e = rw (e, release_session)

  release_session_bound :
      (s d : Bytes) (g : Guard L)
      → lookup s g.session_devices ≡ some d
      → release_session s g ≡ record g {
        device_sessions = delete d g.device_sessions;
        session_devices = delete s g.session_devices;
      }
  unfolding release_session
  release_session_bound s d g e = rw (e, release_session)

  pub release_session_frame :
      (s : Bytes) (g : Guard L)
      → ((release_session s g).concurrency ≡ g.concurrency)
        × ((j : Bytes)
            → lookup j (release_session s g).session_devices
              ≡ (if str_eq s j then none else lookup j g.session_devices))
  release_session_frame s g = elim (Option-cases (lookup s g.session_devices)) [
    | inl e ↦ rw (release_session_unbound s g e) (refl, λ j. ground (arith, str_eq_iff s j))
    | inr (dev, e) ↦
        rw (release_session_bound s dev g e) (refl, λ j. lookup-delete s j g.session_devices)
  ]

  -- While the maps are inverse, releasing a bound session frees its device and no other one, and
  -- keeps the maps inverse; releasing a session that is not bound changes nothing.
  pub release_session_lem :
      (s : Bytes) (g : Guard L)
      → IsPaired g
      → let g' = release_session s g in
        IsPaired g'
        × ((d : Bytes)
            → lookup s g.session_devices ≡ some d
            → has_active_device_session d g' ≡ false)
        × ((e : Bytes)
            → lookup s g.session_devices ≢ some e
            → has_active_device_session e g' ≡ has_active_device_session e g)
        × (lookup s g.session_devices ≡ none → g' ≡ g)
  unfolding has_active_device_session
  release_session_lem s g paired = elim (Option-cases (lookup s g.session_devices)) [
    | inl e ↦
        rw (release_session_unbound s g e) (paired, λ d h. absurd (cc), λ e ne. refl, λ h. refl)
    | inr (dev, e) ↦ rw (release_session_bound s dev g e) (
      λ d t. ground (
        arith,
        lookup-delete dev d g.device_sessions,
        lookup-delete s t g.session_devices,
        str_eq_iff dev d,
        str_eq_iff s t,
        paired d t,
        paired dev s,
        paired dev t,
        paired d s,
      ),
      λ d h. ground (arith, lookup-delete_self dev g.device_sessions),
      λ d ne. ground (arith, lookup-delete dev d g.device_sessions, str_eq_iff dev d),
      λ h. absurd (cc),
    )
  ]

  -- Two sessions registered for one device: releasing the first leaves the device free while the
  -- second is still bound to it.
  register_twice :
      (d s t : Bytes) (g : Guard L)
      → s ≢ t
      → let g' = release_session s (register_session d t (register_session d s g)) in
        (has_active_device_session d g' ≡ false) × (lookup t g'.session_devices ≡ some d)
  unfolding register_session has_active_device_session
  register_twice d s t g ne =
      let sd = insert t d (insert s d g.session_devices) in
      let e : lookup s sd ≡ some d =
        lookup-insert_ne t s d (insert s d g.session_devices) (λ h. ne (sym h))
        ∙ lookup-insert_self s d g.session_devices in
      rw (release_session_bound s d (register_session d t (register_session d s g)) e) (
        rw (
          lookup-delete_self d (insert d t (insert d s g.device_sessions)),
          has_active_device_session,
        ),
        lookup-delete_ne s t sd ne ∙ lookup-insert_self t d (insert s d g.session_devices),
      )
