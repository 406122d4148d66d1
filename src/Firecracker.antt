-- ===== src/Firecracker.antt =====
-- internal/runtime/firecracker/firecracker.go: a microVM for each sandbox, in a work directory of its
-- own. `V` is the host, `P` an open FIFO. The calls of os, os/exec, syscall, time and of the HTTP
-- client are the fields of `Host`; the deferred closes of copyFile are left out.
pub mod Boot
pub mod Waiting
pub mod Resources
pub mod Leaks
pub mod Ownership
pub mod Prerequisites
pub mod Serial
pub mod Retrying
pub mod Simulated
mod Tests
use docpine.Base.{
  ℕ, ◌/◌, Bool, true, false, Option, none, some, List, [], ◌∷◌, ◌++◌, Bytes, codes, Dict, lookup,
  ltb, if◌then◌else◌, ℤ, pos, is_nonpos, magnitude,
}
use docpine.Http.{text, num, flag, Json}
use docpine.Runtime.{Error, prerequisite_failed, wrap, Result, ok, err, SandboxOptions}
use docpine.Container.{or_default}

-- How os.Stat ends.
pub data FileState : Type 0 where
  found missing unreadable : FileState

pub record Host (V P : Type 0) : Type 0 where
  pub now : V → V × ℕ
  pub sleep : ℕ → V → V
  pub stat : Bytes → V → V × FileState
  pub getenv : Bytes → V → Bytes
  pub look_path : Bytes → V → Result Bytes
  pub run_version : Bytes → V → V × Option Error
  pub open_kvm : V → V × Option Error
  -- The pattern of the directory's name.
  pub mkdir_temp : Bytes → V → V × Result Bytes
  pub mkfifo : Bytes → V → V × Option Error
  pub open_file : Bytes → V → V × Option Error
  pub create_file : Bytes → V → V × Option Error
  pub copy_bytes : Bytes → Bytes → V → V × Option Error
  pub sync_file : Bytes → V → V × Option Error
  pub close_file : Bytes → V → V
  -- The program, the socket and the directory; the pid.
  pub start_process : Bytes → Bytes → Bytes → V → V × Result ℕ
  pub kill : ℕ → V → V
  pub wait : ℕ → V → V
  pub remove_all : Bytes → V → V
  -- The socket, the path and the body of a PUT; the status of the answer.
  pub put : Bytes → Bytes → Json → V → V × Result ℕ
  pub open_reader : Bytes → V → V × Result P
  pub open_writer : Bytes → V → V × Result P
  pub close_stream : P → V → V

-- FirecrackerRuntime
pub record Machine : Type 0 where
  pub bin_path : Bytes
  pub kernel_path : Bytes
  pub rootfs_path : Bytes

-- What a firecrackerSandbox keeps; its paths are those of its work directory.
pub record Vm : Type 0 where
  pub id : Bytes
  pub process : ℕ
  pub work_dir : Bytes

-- The host, and the `destroyed` flags of the sandboxes by their work directories.
pub record World (V : Type 0) : Type 0 where
  pub host : V
  pub destroyed : Dict Bool

abbrev pub is_destroyed : {V : Type 0} → Vm → World V → Bool
is_destroyed s w = elim (lookup s.work_dir w.destroyed) [ none ↦ false | some b ↦ b ]

-- filepath.Join of the work directory.
abbrev pub in_dir : Bytes → Bytes → Bytes
in_dir dir name = dir ++ (b'/' ∷ name)

abbrev pub socket_path : Bytes → Bytes
socket_path dir = in_dir dir (codes "firecracker.sock")

abbrev pub stdin_fifo : Bytes → Bytes
stdin_fifo dir = in_dir dir (codes "stdin.fifo")

abbrev pub stdout_fifo : Bytes → Bytes
stdout_fifo dir = in_dir dir (codes "stdout.fifo")

abbrev pub vm_rootfs : Bytes → Bytes
vm_rootfs dir = in_dir dir (codes "rootfs.ext4")

-- A fallible call under a message, and the calls after it if it succeeds.
unfoldable pub wrapped : Bytes → Option Error → Option Error
wrapped message none = none
wrapped message (some e) = some (wrap message e)

unfoldable pub then_run :
    {V : Type 0} → V × Option Error → (V → V × Option Error) → V × Option Error
then_run (v, none) next = next v
then_run (v, some e) next = (v, some e)

unfoldable pub under : {V : Type 0} → Bytes → V × Option Error → V × Option Error
unfolding wrapped
under message (v, failed) = (v, wrapped message failed)

-- MiB
unfoldable pub mem_size : ℤ → ℕ
mem_size limit =
    if is_nonpos limit
    then 128
    else (let mib = magnitude limit / 1_048_576 in if ltb mib 64 then 64 else mib)

-- The five requests that configure and start the machine, each with the message of its failure.
unfoldable pub requests : Machine → SandboxOptions → Bytes → List (Bytes × Json × Bytes)
requests m opts dir =
    (
      codes "/machine-config",
      (codes "vcpu_count", num (pos 1))
          ∷ (codes "mem_size_mib", num (pos (mem_size opts.memory_limit)))
          ∷ (codes "smt", flag false)
          ∷ [],
      codes "set machine-config failed",
    )
    ∷ (
      codes "/boot-source",
      (codes "kernel_image_path", text m.kernel_path)
          ∷ (
            codes "boot_args",
            text (codes "console=ttyS0 reboot=k panic=1 pci=off root=/dev/vda rw init=/bin/sh"),
          )
          ∷ [],
      codes "set boot-source failed",
    )
    ∷ (
      codes "/drives/rootfs",
      (codes "drive_id", text (codes "rootfs"))
          ∷ (codes "path_on_host", text (vm_rootfs dir))
          ∷ (codes "is_root_device", flag true)
          ∷ (codes "is_read_only", flag false)
          ∷ [],
      codes "set drive failed",
    )
    ∷ (
      codes "/serial",
      (codes "in_path", text (stdin_fifo dir)) ∷ (codes "out_path", text (stdout_fifo dir)) ∷ [],
      codes "set serial console failed",
    )
    ∷ (
      codes "/actions",
      (codes "action_type", text (codes "InstanceStart")) ∷ [],
      codes "instance start action failed",
    )
    ∷ []

module _ {V P : Type 0} (os : Host V P) where
  -- What `New` keeps of the configured paths.
  unfoldable pub new_machine : Bytes → Bytes → Bytes → V → Machine
  new_machine bin kernel rootfs v = record {
    bin_path = or_default bin (codes "firecracker");
    kernel_path =
        or_default kernel (
          or_default (os.getenv (codes "DOCPINE_KERNEL_PATH") v)
            (codes "/var/lib/docpine/vmlinux"));
    rootfs_path = or_default rootfs (
        or_default (os.getenv (codes "DOCPINE_ROOTFS_PATH") v)
          (codes "/var/lib/docpine/rootfs.ext4"));
  }

  -- os.Stat with os.IsNotExist, for the two images.
  unfoldable pub check_image : Bytes → V → V × Option Error
  check_image path v =
      let (v', state) = os.stat path v in
      (v', elim state [ missing ↦ some (wrap path prerequisite_failed) | _ ↦ none ])

  abbrev pub prerequisite : V × Option Error → V × Option Error
  prerequisite (v, none) = (v, none)
  prerequisite (v, some e) = (v, some (wrap (codes "firecracker") prerequisite_failed))

  unfoldable pub check_binary : Machine → V → V × Option Error
  check_binary m v = elim (os.look_path m.bin_path v) [
    | err e ↦ (v, some (wrap m.bin_path prerequisite_failed))
    | ok path ↦ prerequisite (os.run_version path v)
  ]

  unfoldable pub check_prerequisites : Machine → V → V × Option Error
  check_prerequisites m v = then_run (prerequisite (os.open_kvm v)) (λ v₁.
      then_run (check_binary m v₁)
        (λ v₂. then_run (check_image m.kernel_path v₂) (check_image m.rootfs_path)))
