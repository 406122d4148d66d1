-- ===== src/Firecracker/Boot.antt =====
-- CreateSandbox of the Firecracker backend, and the methods of its sandboxes.
use docpine.Base.{
  ℕ, zero, suc, ◌+◌, ◌/◌, Bool, true, false, ◌||◌, Option, none, some, List, [], ◌∷◌, ◌++◌, Bytes,
  codes, insert, is_empty, ltb, leb, if◌then◌else◌,
}
use docpine.Text.Decimal.{print}
use docpine.Http.{Json}
use docpine.Runtime.{
  Error, sandbox_destroyed, not_applicable, other, wrap, Result, ok, err, SandboxOptions, Runtime,
}
use docpine.Firecracker.{
  FileState, found, Host, Machine, Vm, World, is_destroyed, socket_path, stdin_fifo, stdout_fifo,
  vm_rootfs, then_run, under, requests, check_prerequisites,
}

-- 20 * time.Millisecond
abbrev pub poll_interval : ℕ
poll_interval = 20_000_000

-- 3 * time.Second
abbrev pub socket_timeout : ℕ
socket_timeout = 3_000_000_000

abbrev pub timed_out : Error
timed_out = other (codes "timeout waiting for socket")

abbrev pub is_found : FileState → Bool
is_found found = true
is_found _ = false

-- A new sandbox is not destroyed.
unfoldable pub new_sandbox : {V : Type 0} → World V → V × Result Vm → World V × Result Vm
new_sandbox w (v, err e) = (record w { host = v }, err e)
new_sandbox w (v, ok s) =
    (record { host = v; destroyed = insert s.work_dir false w.destroyed }, ok s)

module _ {V P : Type 0} (os : Host V P) where
  -- A deferred close, whose error is dropped.
  unfoldable pub closing : Bytes → V × Option Error → V × Option Error
  closing path (v, result) = (os.close_file path v, result)

  unfoldable pub copy_file : Bytes → Bytes → V → V × Option Error
  copy_file src dst v = then_run (os.open_file src v) (λ v₁. closing src (
      then_run (os.create_file dst v₁)
        (λ v₂. closing dst (then_run (os.copy_bytes dst src v₂) (os.sync_file dst)))))

  -- The loop of waitForSocket; `none` if the fuel ends.
  unfoldable pub wait_loop : ℕ → ℕ → Bytes → V → Option (V × Option Error)
  wait_loop zero deadline path v = none
  wait_loop (suc fuel) deadline path v =
      let (v₁, t) = os.now v in
      let (v₂, state) = os.stat path v₁ in
      let rest = wait_loop fuel deadline path (os.sleep poll_interval v₂) in
      if ltb t deadline
      then (if is_found state then some (v₂, none) else rest)
      else some (v₁, some timed_out)

  -- As many rounds as the timeout has intervals, and one more.
  unfoldable pub wait_for_socket : Bytes → ℕ → V → Option (V × Option Error)
  wait_for_socket path timeout v =
      let (v', t) = os.now v in
      wait_loop (suc (suc (timeout / poll_interval))) (t + timeout) path v'

  -- The error of an answer to putAPI.
  api_error : Result ℕ → Option Error
  api_error (err e) = some e
  api_error (ok status) =
      if ltb status 200 || leb 300 status
      then some (other (codes "api returned an error"))
      else none

  unfoldable pub put_api : Bytes → Bytes → Json → V → V × Option Error
  unfolding api_error
  put_api dir path body v =
      let (v', answer) = os.put (socket_path dir) path body v in (v', api_error answer)

  -- The requests in their order, up to the first that fails.
  unfoldable pub configure : Bytes → List (Bytes × Json × Bytes) → V → V × Option Error
  configure dir [] v = (v, none)
  configure dir ((path, body, message) ∷ rest) v =
      then_run (under message (put_api dir path body v)) (configure dir rest)

  -- The FIFOs, and the copy of the root file system.
  unfoldable pub prepare : Machine → Bytes → V → V × Option Error
  prepare m dir v =
      then_run (under (codes "failed to create stdin fifo") (os.mkfifo (stdin_fifo dir) v)) (λ v₁.
        then_run (under (codes "failed to create stdout fifo") (os.mkfifo (stdout_fifo dir) v₁))
          (λ v₂.
            under (codes "failed to prepare rootfs copy")
              (copy_file m.rootfs_path (vm_rootfs dir) v₂)))

  -- The fuel never ends while the clock goes on.
  unfoldable pub await_socket : Bytes → V → V × Option Error
  await_socket dir v = elim (wait_for_socket (socket_path dir) socket_timeout v) [
    | some r ↦ r
    | none ↦ (v, some timed_out)
  ]

  -- What follows the start of the process.
  unfoldable pub boot : Machine → SandboxOptions → Bytes → V → V × Option Error
  boot m opts dir v =
      then_run (under (codes "firecracker api socket did not appear") (await_socket dir v))
        (configure dir (requests m opts dir))

  -- Kill, Wait and RemoveAll.
  unfoldable pub tear_down : ℕ → Bytes → V → V
  tear_down process dir v = os.remove_all dir (os.wait process (os.kill process v))

  -- A machine whose process runs is handed out, or torn down.
  unfoldable pub finish : Vm → V × Option Error → V × Result Vm
  finish s (v, none) = (v, ok s)
  finish s (v, some e) = (tear_down s.process s.work_dir v, err e)

  unfoldable pub launch : Machine → SandboxOptions → Bytes → Bytes → V → V × Result Vm
  launch m opts id dir v =
      let (v', started) = os.start_process m.bin_path (socket_path dir) dir v in
      elim started [
        | err e ↦ (os.remove_all dir v', err (wrap (codes "failed to start firecracker process") e))
        | ok process ↦
            finish (record { id = id; process = process; work_dir = dir }) (boot m opts dir v')
      ]

  unfoldable pub build : Machine → SandboxOptions → Bytes → Bytes → V → V × Result Vm
  build m opts id dir v =
      let (v', failed) = prepare m dir v in
      elim failed [ some e ↦ (os.remove_all dir v', err e) | none ↦ launch m opts id dir v' ]

  unfoldable pub create_vm : Machine → SandboxOptions → Bytes → V → V × Result Vm
  create_vm m opts id v =
      let (v', made) = os.mkdir_temp (codes "docpine-fc-" ++ (id ++ codes "-*")) v in
      elim made [
        | err e ↦ (v', err (wrap (codes "failed to create sandbox workdir") e))
        | ok dir ↦ build m opts id dir v'
      ]

  -- A sandbox without a session is named by the time.
  unfoldable pub sandbox_id : SandboxOptions → V → V × Bytes
  sandbox_id opts v =
      let (v', t) = os.now v in
      if is_empty opts.session_id then (v', codes "fc-" ++ print t) else (v, opts.session_id)

  unfoldable pub create_sandbox : Machine → SandboxOptions → World V → World V × Result Vm
  create_sandbox m opts w =
      let (v, id) = sandbox_id opts w.host in new_sandbox w (create_vm m opts id v)

  -- The two FIFOs of the serial console: the guest's output first.
  unfoldable pub open_input : P → V × Result P → V × Result (P × P)
  open_input reader (v, err e) =
      (os.close_stream reader v, err (wrap (codes "failed to open stdin fifo") e))
  open_input reader (v, ok writer) = (v, ok (reader, writer))

  unfoldable pub open_console : Bytes → V → V × Result (P × P)
  open_console dir v =
      let (v', opened) = os.open_reader (stdout_fifo dir) v in
      elim opened [
        | err e ↦ (v', err (wrap (codes "failed to open stdout fifo") e))
        | ok reader ↦ open_input reader (os.open_writer (stdin_fifo dir) v')
      ]

  unfoldable pub attach_pty : Vm → World V → World V × Result (P × P)
  attach_pty s w =
      let (v, console) = open_console s.work_dir w.host in
      if is_destroyed s w then (w, err sandbox_destroyed) else (record w { host = v }, console)

  unfoldable pub destroy : Vm → World V → World V × Option Error
  destroy s w = if is_destroyed s w then (w, none) else (
    record {
      host = tear_down s.process s.work_dir w.host;
      destroyed = insert s.work_dir true w.destroyed;
    },
    none,
  )

  unfoldable pub firecracker_runtime : Machine → Runtime (World V) Vm (P × P)
  firecracker_runtime m = record {
    name = codes "firecracker";
    check_prerequisites =
        λ w. let (v, failed) = check_prerequisites os m w.host in (record w { host = v }, failed);
    create_sandbox = create_sandbox m;
    close = λ w. (w, none);
    id = λ s. s.id;
    cgroup_id = λ s w. (w, err not_applicable);
    attach_pty = attach_pty;
    destroy = destroy;
  }
