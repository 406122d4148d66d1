-- ===== src/Container.antt =====
-- What internal/runtime/docker/docker.go and internal/runtime/gvisor/gvisor.go share: containers
-- driven through the Docker daemon, which the programs only call. `D` is the daemon's state and
-- `P` a stream that it hands out; the sandbox handle is the container's id.
pub mod Sandbox
pub mod Leaks
pub mod Ownership
pub mod Stream
mod Tests
use docpine.Base.{
  ℕ, Bool, true, false, not, Option, none, some, List, [], ◌∷◌, ◌++◌, Bytes, codes, Dict, lookup,
  insert, is_empty, ◌==◌, if◌then◌else◌, ℤ, pos, is_nonpos,
}
use docpine.Runtime.{Error, sandbox_destroyed, other, wrap, Result, ok, err, SandboxOptions}

-- The fields of container.Config and container.HostConfig that vary; the others are constants.
pub record ContainerConfig : Type 0 where
  pub image : Bytes
  pub cmd : List Bytes
  pub env : List Bytes
  pub runtime : Bytes
  pub network_mode : Bytes
  pub memory : ℤ
  pub cpu_shares : ℤ

-- The calls of the Docker client. An image inspection fails for an image that is not there, by the
-- error's text or its kind, or for another reason.
pub data ImageState : Type 0 where
  present missing : ImageState
  unknown : Error → ImageState

pub record Daemon (D P : Type 0) : Type 0 where
  pub ping : D → D × Option Error
  pub image_inspect : Bytes → D → D × ImageState
  pub image_pull : Bytes → D → D × Option Error
  pub container_create : ContainerConfig → Bytes → D → D × Result Bytes
  pub container_start : Bytes → D → D × Option Error
  pub container_stop : Bytes → ℕ → D → D × Option Error
  -- Force, and whether the volumes go too.
  pub container_remove : Bytes → Bool → Bool → D → D × Option Error
  -- The pid of the container's first process, and none where it has no state.
  pub container_inspect : Bytes → D → D × Result (Option ℕ)
  pub container_attach : Bytes → D → D × Result P
  pub close : D → D × Option Error

-- The daemon, and the `destroyed` flags of the sandboxes.
pub record Host (D : Type 0) : Type 0 where
  pub daemon : D
  pub destroyed : Dict Bool

abbrev pub is_destroyed : {D : Type 0} → Bytes → Host D → Bool
is_destroyed id h = elim (lookup id h.destroyed) [ none ↦ false | some b ↦ b ]

-- What differs between the two backends.
pub record Flavor : Type 0 where
  pub name : Bytes
  pub default_img : Bytes
  pub network_mode : Bytes
  pub container_runtime : Bytes
  pub name_prefix : Bytes

-- An empty setting stands for its default.
abbrev pub or_default : Bytes → Bytes → Bytes
or_default s d = if is_empty s then d else s

unfoldable pub container_config : Flavor → SandboxOptions → ContainerConfig
container_config f opts = record {
  image = or_default opts.image f.default_img;
  cmd = elim opts.command [ [] ↦ codes "/bin/sh" ∷ [] | c ∷ cs ↦ c ∷ cs ];
  env = opts.env;
  runtime = f.container_runtime;
  network_mode = f.network_mode;
  memory = if is_nonpos opts.memory_limit then pos 0 else opts.memory_limit;
  cpu_shares = if is_nonpos opts.cpu_shares then pos 0 else opts.cpu_shares;
}

unfoldable pub container_name : Flavor → SandboxOptions → Bytes
container_name f opts = if is_empty opts.session_id then [] else f.name_prefix ++ opts.session_id

module _ {D P : Type 0} (api : Daemon D P) where
  unfoldable pub ensure_image : Bytes → D → D × Option Error
  ensure_image img d =
      let (d', state) = api.image_inspect img d in
      elim state [
        | present ↦ (d', none)
        | unknown e ↦ (d', some e)
        | missing ↦
            let (d'', pulled) = api.image_pull img d' in
            (
              d'',
              elim pulled [ none ↦ none | some e ↦ some (wrap (codes "failed to pull image") e) ],
            )
      ]

  -- Start the container, or remove it again.
  unfoldable pub start_or_remove : Bytes → D → D × Result Bytes
  start_or_remove id d =
      let (d', started) = api.container_start id d in
      elim started [
        | none ↦ (d', ok id)
        | some e ↦ (
          (api.container_remove id true false d').0,
          err (wrap (codes "container start failed") e),
        )
      ]

  unfoldable pub create_and_start : ContainerConfig → Bytes → D → D × Result Bytes
  create_and_start cfg name d =
      let (d', created) = api.container_create cfg name d in
      elim created [
        | err e ↦ (d', err (wrap (codes "container create failed") e))
        | ok id ↦ start_or_remove id d'
      ]

  -- CreateSandbox
  unfoldable pub create_container : Flavor → SandboxOptions → D → D × Result Bytes
  create_container f opts d =
      let (d', missing_image) = ensure_image (container_config f opts).image d in
      elim missing_image [
        | some e ↦ (d', err (wrap (codes "ensure image failed") e))
        | none ↦ create_and_start (container_config f opts) (container_name f opts) d'
      ]

  on_daemon : {A : Type 0} → Host D → D × A → Host D × A
  on_daemon h (d, a) = (record h { daemon = d }, a)

  -- A new sandbox is not destroyed.
  unfoldable pub new_sandbox : Host D → D × Result Bytes → Host D × Result Bytes
  new_sandbox h (d, err e) = (record h { daemon = d }, err e)
  new_sandbox h (d, ok id) = (record { daemon = d; destroyed = insert id false h.destroyed }, ok id)

  unfoldable pub create_sandbox : Flavor → SandboxOptions → Host D → Host D × Result Bytes
  create_sandbox f opts h = new_sandbox h (create_container f opts h.daemon)

  -- The two failures that CgroupID reports of a container that is there but does not run.
  pid_of : Result (Option ℕ) → Result ℕ
  pid_of (err e) = err (wrap (codes "failed to inspect container") e)
  pid_of (ok none) = err (other (codes "container init process is not running"))
  pid_of (ok (some pid)) =
      if pid == 0 then err (other (codes "container init process is not running")) else ok pid

  unfoldable pub cgroup_id : Bytes → Host D → Host D × Result ℕ
  unfolding on_daemon pid_of
  cgroup_id id h =
      let (d, inspect) = api.container_inspect id h.daemon in
      if is_destroyed id h then (h, err sandbox_destroyed) else on_daemon h (d, pid_of inspect)

  attached : Result P → Result P
  attached (err e) = err (wrap (codes "container attach failed") e)
  attached (ok stream) = ok stream

  unfoldable pub attach_pty : Bytes → Host D → Host D × Result P
  unfolding on_daemon attached
  attach_pty id h =
      let (d, hijack) = api.container_attach id h.daemon in
      if is_destroyed id h then (h, err sandbox_destroyed) else on_daemon h (d, attached hijack)

  unfoldable pub destroy : Bytes → Host D → Host D × Option Error
  destroy id h =
      let (d, removed) = api.container_remove id true true (api.container_stop id 2 h.daemon).0 in
      if is_destroyed id h
      then (h, none)
      else (record { daemon = d; destroyed = insert id true h.destroyed }, removed)
