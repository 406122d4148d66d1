-- ===== src/Firecracker/Tests.antt =====
-- A host on which a machine boots, and the theorems on it.
use docpine.Base.{◌≡◌, ◌↔◌, refl, false, Option, none, some, List, [], ◌∷◌, ℕ, codes}
use docpine.Runtime.{Error, ok}
use docpine.Session.{create_options}
use docpine.Firecracker.Prerequisites.{IsUsable, check_prerequisites_iff}
use docpine.Firecracker.{wrapped, then_run, under, requests, check_prerequisites}
use docpine.Firecracker.Boot.{
  closing, copy_file, wait_loop, wait_for_socket, put_api, configure, prepare, await_socket, boot,
  finish, launch, build, create_vm, sandbox_id, new_sandbox, create_sandbox, firecracker_runtime,
}
use docpine.Firecracker.Waiting.{HasEnded, wait_for_socket_total}
use docpine.Firecracker.Resources.{process, same, Leaves}
use docpine.Firecracker.Leaks.{create_sandbox-Leaves}
use docpine.Firecracker.Simulated.{
  Sim, has, simulated, simulated-HasClock, simulated-IsDocumented, empty_host, machine, world, vm,
}
use docpine.Firecracker.Ownership.{owns, live, on_host, firecracker_runtime-IsTidy}
use docpine.Runtime.Tidy.{IsTidy}
use docpine.Terminal.{eof}
use docpine.Firecracker.Serial.{
  FifoRead, again, arrived, Files, SerialStream, read_retrying, read, close_ends, close, EndsAt,
}
use docpine.Firecracker.Retrying.{read_iff}

wait_for_socket_total_example :
    (r : Sim × Option Error) × (wait_for_socket simulated (codes "sock") 30_000_000 empty_host
      ≡ some r)
    × HasEnded simulated (codes "sock") 30_000_000 r
wait_for_socket_total_example =
    wait_for_socket_total simulated simulated-HasClock (codes "sock") 30_000_000 empty_host

create_sandbox-Leaves_example :
    Leaves
      (λ y u. has y u.host)
      (process 7)
      world
      (create_sandbox simulated machine (create_options (codes "s1")) world)
create_sandbox-Leaves_example =
    create_sandbox-Leaves simulated has simulated-IsDocumented (process 7) machine
      (create_options (codes "s1")) world

created : (create_sandbox simulated machine (create_options (codes "s1")) world).1 ≡ ok vm
unfolding create_sandbox sandbox_id new_sandbox create_vm build prepare copy_file closing launch
    finish boot await_socket wait_for_socket wait_loop configure put_api then_run under wrapped
    requests same
created = refl

firecracker_runtime-IsTidy_example :
    IsTidy (firecracker_runtime simulated machine) (on_host has) owns live
firecracker_runtime-IsTidy_example =
    firecracker_runtime-IsTidy simulated has simulated-IsDocumented machine

-- FIFOs whose reads are listed, the end of the file last, and the FIFOs that have been closed.
abbrev scripted : Files (List FifoRead × List ℕ) ℕ
scripted = record {
  read = λ f (reads, gone). elim reads [
    | [] ↦ (([], gone), arrived [] (some eof))
    | r ∷ rs ↦ ((rs, gone), r)
  ];
  write = λ f bytes v. (v, none);
  close = λ f (reads, gone). ((reads, f ∷ gone), none);
  sleep = λ d v. v;
}

abbrev console : SerialStream ℕ
console = record { reader = 1; writer = 2; closed = false }

abbrev slow : List FifoRead × List ℕ
slow = (again ∷ again ∷ arrived (codes "$ ") none ∷ [], [])

serial_tests :
    (read scripted 3 console slow ≡ some (([], []), codes "$ ", none))
    × (read scripted 2 console slow ≡ none)
    × ((close scripted console slow).0.1.1 ≡ 2 ∷ 1 ∷ [])
unfolding read read_retrying close close_ends
serial_tests = (refl, refl, refl)

read_iff_example :
    (read scripted 3 console slow ≡ some (([], []), codes "$ ", none))
    ↔ EndsAt scripted 3 1 slow (([], []), codes "$ ", none)
read_iff_example = read_iff scripted 3 console slow (([], []), codes "$ ", none)

check_prerequisites_iff_example : ((check_prerequisites simulated machine empty_host).1 ≡ none) ↔ (
    ((simulated.open_kvm empty_host).1 ≡ none)
    × IsUsable simulated machine empty_host (ok (codes "firecracker")))
check_prerequisites_iff_example = check_prerequisites_iff simulated machine empty_host
