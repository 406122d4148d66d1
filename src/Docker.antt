-- ===== src/Docker.antt =====
-- internal/runtime/docker/docker.go
use docpine.Base.{Option, none, some, Bytes, codes, []}
use docpine.Runtime.{Error, prerequisite_failed, wrap, Runtime}
use docpine.Container.{
  Daemon, Host, Flavor, or_default, create_sandbox, cgroup_id, attach_pty, destroy,
}

-- What `New` keeps of the configuration: its image and its network mode.
unfoldable pub flavor : Bytes → Bytes → Flavor
flavor image network_mode = record {
  name = codes "docker";
  default_img = or_default image (codes "alpine:3.20");
  network_mode = network_mode;
  container_runtime = [];
  name_prefix = codes "docpine-";
}

module _ {D P : Type 0} (api : Daemon D P) where
  unfoldable pub check_prerequisites : Host D → Host D × Option Error
  check_prerequisites h =
      let (d, failed) = api.ping h.daemon in
      (
        record h { daemon = d },
        elim failed [
          | none ↦ none
          | some e ↦ some (wrap (codes "docker daemon unreachable") prerequisite_failed)
        ],
      )

  unfoldable pub close : Host D → Host D × Option Error
  close h = let (d, failed) = api.close h.daemon in (record h { daemon = d }, failed)

  unfoldable pub docker_runtime : Bytes → Bytes → Runtime (Host D) Bytes P
  docker_runtime image network_mode = record {
    name = (flavor image network_mode).name;
    check_prerequisites = check_prerequisites;
    create_sandbox = create_sandbox api (flavor image network_mode);
    close = close;
    id = λ id. id;
    cgroup_id = cgroup_id api;
    attach_pty = attach_pty api;
    destroy = destroy api;
  }
