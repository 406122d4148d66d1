-- ===== src/Gvisor.antt =====
-- internal/runtime/gvisor/gvisor.go: the backend that runs containers under gVisor's runsc. The
-- PATH, the binary and the daemon's Info are calls of the host, the parameters of the section.
use docpine.Base.{
  Bool, true, false, ◌||◌, ◌&&◌, Option, none, some, List, [], ◌∷◌, Bytes, codes, ◌==◌,
  if◌then◌else◌,
}
use docpine.Text.{to_lower}
use docpine.Runtime.{Error, prerequisite_failed, wrap, Result, ok, err, Runtime}
use docpine.Container.{
  Daemon, Host, Flavor, or_default, create_sandbox, cgroup_id, attach_pty, destroy,
}

unfoldable pub flavor : Bytes → Bytes → Flavor
flavor image network_mode = record {
  name = codes "gvisor";
  default_img = or_default image (codes "alpine:3.20");
  network_mode = network_mode;
  container_runtime = codes "runsc";
  name_prefix = codes "docpine-gvisor-";
}

-- strings.HasPrefix and strings.Contains
abbrev pub has_prefix : Bytes → Bytes → Bool
has_prefix [] s = true
has_prefix (x ∷ xs) [] = false
has_prefix (x ∷ xs) (y ∷ ys) = x == y && has_prefix xs ys

abbrev pub contains : Bytes → Bytes → Bool
contains w [] = has_prefix w []
contains w (y ∷ ys) = has_prefix w (y ∷ ys) || contains w ys

-- The loop over info.Runtimes.
unfoldable pub has_runsc_runtime : List Bytes → Bool
has_runsc_runtime [] = false
has_runsc_runtime (name ∷ names) =
    if contains (codes "runsc") (to_lower name) || contains (codes "gvisor") (to_lower name)
    then true
    else has_runsc_runtime names

module _ {D P : Type 0} (api : Daemon D P) (look_path : Bytes → D → Result Bytes)
    (run_version : Bytes → D → D × Option Error) (info : D → D × Result (List Bytes)) where
  abbrev missing : Error
  missing = wrap (codes "gvisor") prerequisite_failed

  -- The binary is looked up and run, then the daemon is asked for its runtimes.
  unfoldable pub check_runtimes : D × Result (List Bytes) → D × Option Error
  check_runtimes (d, err e) = (d, some missing)
  check_runtimes (d, ok names) = (d, if has_runsc_runtime names then none else some missing)

  unfoldable pub check_binary : Bytes → D → D × Option Error
  check_binary path d =
      let (d', failed) = run_version path d in
      elim failed [ some e ↦ (d', some missing) | none ↦ check_runtimes (info d') ]

  -- An empty RunscPath stands for "runsc".
  unfoldable pub check_prerequisites : Bytes → Host D → Host D × Option Error
  check_prerequisites runsc_path h =
      elim (look_path (or_default runsc_path (codes "runsc")) h.daemon) [
        | err e ↦ (h, some missing)
        | ok path ↦
            let (d, failed) = check_binary path h.daemon in (record h { daemon = d }, failed)
      ]

  unfoldable pub close : Host D → Host D × Option Error
  close h = let (d, failed) = api.close h.daemon in (record h { daemon = d }, failed)

  unfoldable pub gvisor_runtime : Bytes → Bytes → Bytes → Runtime (Host D) Bytes P
  gvisor_runtime image network_mode runsc_path = record {
    name = (flavor image network_mode).name;
    check_prerequisites = check_prerequisites runsc_path;
    create_sandbox = create_sandbox api (flavor image network_mode);
    close = close;
    id = λ id. id;
    cgroup_id = cgroup_id api;
    attach_pty = attach_pty api;
    destroy = destroy api;
  }
