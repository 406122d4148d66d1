-- ===== src/Container/Sandbox.antt =====
-- The life of a dockerSandbox or a gvisorSandbox after its destruction.
use docpine.Base.{◌≡◌, refl, true, Bool-cases, inl, inr, none, Bytes, lookup-insert_self}
use docpine.Runtime.{sandbox_destroyed, err}
use docpine.Container.{Daemon, Host, is_destroyed, cgroup_id, attach_pty, destroy}

module _ {D P : Type 0} (api : Daemon D P) where
  destroyed_attach :
      (id : Bytes) (h : Host D)
      → is_destroyed id h ≡ true
      → attach_pty api id h ≡ (h, err sandbox_destroyed)
  unfolding attach_pty
  destroyed_attach id h d = rw d refl

  destroyed_cgroup :
      (id : Bytes) (h : Host D)
      → is_destroyed id h ≡ true
      → cgroup_id api id h ≡ (h, err sandbox_destroyed)
  unfolding cgroup_id
  destroyed_cgroup id h d = rw d refl

  destroyed_destroy :
      (id : Bytes) (h : Host D) → is_destroyed id h ≡ true → destroy api id h ≡ (h, none)
  unfolding destroy
  destroyed_destroy id h d = rw d refl

  destroy-is_destroyed : (id : Bytes) (h : Host D) → is_destroyed id (destroy api id h).0 ≡ true
  unfolding destroy
  destroy-is_destroyed id h = elim (Bool-cases (is_destroyed id h)) [
    | inl d ↦ rw d d
    | inr d ↦ rw (d, is_destroyed, lookup-insert_self id true h.destroyed) refl
  ]

  -- Once a sandbox has been destroyed, whatever the daemon answered, it stays destroyed: attaching
  -- to it and asking for its cgroup fail with `sandbox_destroyed`, destroying it again succeeds,
  -- and none of the three calls changes the host.
  destroy_final :
      (id : Bytes) (h : Host D)
      → (attach_pty api id (destroy api id h).0 ≡ ((destroy api id h).0, err sandbox_destroyed))
        × (cgroup_id api id (destroy api id h).0 ≡ ((destroy api id h).0, err sandbox_destroyed))
        × (destroy api id (destroy api id h).0 ≡ ((destroy api id h).0, none))
  destroy_final id h =
      let d = destroy-is_destroyed id h in
      (destroyed_attach id _ d, destroyed_cgroup id _ d, destroyed_destroy id _ d)
