-- ===== src/Container/Ownership.antt =====
-- The Docker and gVisor backends keep what `IsTidy` asks of a backend.
use docpine.Base.{
  none, some, Option-cases, ◌⊎◌, ◌≡◌, Bool, true, false, ◌||◌, ◌&&◌, not, Bytes, ℕ, lookup-insert,
  str_eq, str_eq_refl, str_eq_iff, arith, inl, inr, Option, List,
}
use docpine.Runtime.{Error, Result, ok, err, SandboxOptions, Result-cases}
use docpine.Runtime.Tidy.{IsTidy}
use docpine.Container.{
  Daemon, Host, Flavor, is_destroyed, ensure_image, start_or_remove, create_and_start,
  create_container, container_config, ContainerConfig, container_name, new_sandbox, create_sandbox,
  attach_pty, destroy,
}
use docpine.Container.Leaks.{
  IsDocumented, CanRemove, has-removed, hands_out, has-ensure_image, create_sandbox_leaks_none,
}
use docpine.Docker
use docpine.Gvisor

-- Stopping a container and attaching to it leave it there.
pub record IsStoppable {D P : Type 0} (api : Daemon D P) (has : Bytes → D → Bool) : Type 0 where
  pub stops : (x id : Bytes) (t : ℕ) (d : D) → has x (api.container_stop id t d).0 ≡ has x d
  pub attaches : (x id : Bytes) (d : D) → has x (api.container_attach id d).0 ≡ has x d

abbrev pub live : {D : Type 0} → Bytes → Host D → Bool
live id h = not (is_destroyed id h)

abbrev pub on_daemon : {D : Type 0} → (Bytes → D → Bool) → Bytes → Host D → Bool
on_daemon has x h = has x h.daemon

module _ {D P : Type 0} (api : Daemon D P) (has : Bytes → D → Bool) (law : IsDocumented api has)
    (more : IsStoppable api has) where
  -- Destroy of a live sandbox, whether its removal fails or not: no other container is touched; the
  -- container is gone, or an error is reported; and a second Destroy changes nothing and reports no
  -- error, also where the first one has left the container. The daemon behaves as `IsDocumented` and
  -- `IsStoppable` state.
  pub destroy_reports :
      (id : Bytes) (h : Host D)
      → live id h ≡ true
      → let (h', failed) = destroy api id h in
        ((x : Bytes) → str_eq id x ≡ false → has x h'.daemon ≡ has x h.daemon)
        × ((has id h'.daemon ≡ false) ⊎ ((e : Error) × (failed ≡ some e)))
        × (destroy api id h' ≡ (h', none))
  unfolding destroy
  destroy_reports id h alive =
      let d = (api.container_stop id 2 h.daemon).0 in
      (
        λ x other. ground (arith, alive, more.stops x id 2 h.daemon, law.spares x id true d other),
        elim (Option-cases (api.container_remove id true true d).1) [
          | inl quiet ↦ inl (ground (arith, alive, law.removes id true d quiet))
          | inr (e, failed) ↦ inr (e, ground (arith, alive, failed))
        ],
        ground (arith, alive, lookup-insert id id true h.destroyed, str_eq_refl id),
      )

module _ {D P : Type 0} (api : Daemon D P) (has : Bytes → D → Bool) (law : IsDocumented api has)
    (more : IsStoppable api has) (able : CanRemove api) where
  fresh-create_and_start :
      (x : Bytes) (cfg : ContainerConfig) (name : Bytes) (d : D)
      → hands_out (create_and_start api cfg name d).1 x ≡ true
      → has x d ≡ false
  unfolding create_and_start start_or_remove
  fresh-create_and_start x cfg name d h = elim (Result-cases (api.container_create cfg name d).1) [
    | inl (id, made) ↦ ground (arith, h, made, law.fresh cfg name d id made, str_eq_iff id x)
    | inr (e, refused) ↦ ground (arith, h, refused)
  ]

  fresh-create_container :
      (x : Bytes) (f : Flavor) (opts : SandboxOptions) (d : D)
      → hands_out (create_container api f opts d).1 x ≡ true
      → has x d ≡ false
  unfolding create_container
  fresh-create_container x f opts d h = ground (
    arith,
    h,
    has-ensure_image api has law x (container_config f opts).image d,
    fresh-create_and_start x (container_config f opts) (container_name f opts)
        (ensure_image api (container_config f opts).image d).0,
  )

  new_sandbox_lives :
      (h : Host D) (r : D × Result Bytes) (id : Bytes)
      → (new_sandbox api h r).1 ≡ ok id
      → (r.1 ≡ ok id) × (live id (new_sandbox api h r).0 ≡ true)
  unfolding new_sandbox
  new_sandbox_lives h (d, err e) id made = ground arith
  new_sandbox_lives h (d, ok s) id made =
      ground (arith, lookup-insert s id false h.destroyed, str_eq_refl id)

  new_sandbox_spares :
      (h : Host D) (r : D × Result Bytes) (t : Bytes)
      → live t h ≡ true
      → live t (new_sandbox api h r).0 ≡ true
  unfolding new_sandbox
  new_sandbox_spares h (d, err e) t alive = alive
  new_sandbox_spares h (d, ok s) t alive = ground (arith, lookup-insert s t false h.destroyed)

  has-attach_pty :
      (x id : Bytes) (h : Host D) → has x (attach_pty api id h).0.daemon ≡ has x h.daemon
  unfolding attach_pty
  has-attach_pty x id h = ground (arith, more.attaches x id h.daemon)

  attach_spares :
      (s t : Bytes) (h : Host D) → live t h ≡ true → live t (attach_pty api s h).0 ≡ true
  unfolding attach_pty
  attach_spares s t h alive = ground arith

  has-destroy :
      (x id : Bytes) (h : Host D)
      → live id h ≡ true
      → has x (destroy api id h).0.daemon ≡ (not (str_eq id x) && has x h.daemon)
  unfolding destroy
  has-destroy x id h alive = ground (
    arith,
    alive,
    more.stops x id 2 h.daemon,
    has-removed api has law x id true (api.container_stop id 2 h.daemon).0
        (able.succeeds id true (api.container_stop id 2 h.daemon).0),
  )

  destroy_spares :
      (s t : Bytes) (h : Host D)
      → ((x : Bytes) → str_eq s x ≡ true → str_eq t x ≡ false)
      → live t h ≡ true
      → live t (destroy api s h).0 ≡ true
  unfolding destroy
  destroy_spares s t h apart alive = ground (
    arith,
    alive,
    apart s (str_eq_refl s),
    str_eq_iff s t,
    str_eq_iff t s,
    lookup-insert s t true h.destroyed,
  )

  refuses :
      (f : Flavor) (x : Bytes) (opts : SandboxOptions) (h : Host D) (e : Error)
      → (create_sandbox api f opts h).1 ≡ err e
      → has x (create_sandbox api f opts h).0.daemon ≡ has x h.daemon
  refuses f x opts h e failed =
      rw (failed) at (create_sandbox_leaks_none api has law able x f opts h)

  creates :
      (f : Flavor) (x : Bytes) (opts : SandboxOptions) (h : Host D) (id : Bytes)
      → (create_sandbox api f opts h).1 ≡ ok id
      → has x (create_sandbox api f opts h).0.daemon ≡ (str_eq id x || has x h.daemon)
  creates f x opts h id made = rw (made) at (create_sandbox_leaks_none api has law able x f opts h)

  fresh :
      (f : Flavor) (x : Bytes) (opts : SandboxOptions) (h : Host D) (id : Bytes)
      → (create_sandbox api f opts h).1 ≡ ok id
      → str_eq id x ≡ true
      → has x h.daemon ≡ false
  unfolding create_sandbox
  fresh f x opts h id made own =
      let (inner, alive) = new_sandbox_lives h (create_container api f opts h.daemon) id made in
      fresh-create_container x f opts h.daemon (rw (inner) own)

  starts_live :
      (f : Flavor) (opts : SandboxOptions) (h : Host D) (id : Bytes)
      → (create_sandbox api f opts h).1 ≡ ok id
      → live id (create_sandbox api f opts h).0 ≡ true
  unfolding create_sandbox
  starts_live f opts h id made =
      (new_sandbox_lives h (create_container api f opts h.daemon) id made).1

  create_spares :
      (f : Flavor) (opts : SandboxOptions) (h : Host D) (t : Bytes)
      → live t h ≡ true
      → live t (create_sandbox api f opts h).0 ≡ true
  unfolding create_sandbox
  create_spares f opts h t = new_sandbox_spares h (create_container api f opts h.daemon) t

  -- The Docker and the gVisor backend are tidy about containers, whatever the image, the network
  -- mode and the path of runsc: a sandbox owns the container of its id, and is live until it is
  -- destroyed. The daemon behaves as `IsDocumented` and `IsStoppable` state, and `CanRemove`: no
  -- removal of a container fails.
  pub container_runtimes-IsTidy :
      (look_path : Bytes → D → Result Bytes) (run_version : Bytes → D → D × Option Error)
      (info : D → D × Result (List Bytes)) (image network_mode runsc_path : Bytes)
      → IsTidy (Docker.docker_runtime api image network_mode) (on_daemon has) str_eq live
        × IsTidy
            (Gvisor.gvisor_runtime api look_path run_version info image network_mode runsc_path)
            (on_daemon has)
            str_eq
            live
  unfolding Docker.docker_runtime Gvisor.gvisor_runtime
  container_runtimes-IsTidy look_path run_version info image network_mode runsc_path = (
    record {
      refuses = refuses (Docker.flavor image network_mode);
      creates = creates (Docker.flavor image network_mode);
      fresh = fresh (Docker.flavor image network_mode);
      starts_live = starts_live (Docker.flavor image network_mode);
      create_spares = create_spares (Docker.flavor image network_mode);
      attaches = has-attach_pty;
      attach_spares = attach_spares;
      destroys = has-destroy;
      destroy_spares = destroy_spares;
    },
    record {
      refuses = refuses (Gvisor.flavor image network_mode);
      creates = creates (Gvisor.flavor image network_mode);
      fresh = fresh (Gvisor.flavor image network_mode);
      starts_live = starts_live (Gvisor.flavor image network_mode);
      create_spares = create_spares (Gvisor.flavor image network_mode);
      attaches = has-attach_pty;
      attach_spares = attach_spares;
      destroys = has-destroy;
      destroy_spares = destroy_spares;
    },
  )
