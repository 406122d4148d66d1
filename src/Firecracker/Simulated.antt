-- ===== src/Firecracker/Simulated.antt =====
-- A concrete host on which a machine boots, for the tests: the calls of Host on a clock and the set of
-- what is there.
use docpine.Base.{
  ℕ, ◌+◌, refl, Bool, false, ◌&&◌, ◌||◌, not, none, [], codes, leb, arith, if◌then◌else◌,
}
use docpine.Runtime.{other, ok, err}
use docpine.Firecracker.{found, missing, Host, Machine, Vm, World}
use docpine.Firecracker.Waiting.{HasClock}
use docpine.Firecracker.Resources.{Resource, directory, process, same, IsDocumented}

-- The clock, and what is there.
pub record Sim : Type 0 where
  pub clock : ℕ
  pub there : Resource → Bool

abbrev pub has : Resource → Sim → Bool
has x v = v.there x

abbrev pub with_new : Resource → Sim → Sim
with_new y v = record v { there = λ x. same y x || v.there x }

abbrev pub without : Resource → Sim → Sim
without y v = record v { there = λ x. not (same y x) && v.there x }

-- A name in use is refused, as the pid 7 is; the files come at the second look for the socket.
abbrev pub simulated : Host Sim ℕ
simulated = record {
  now = λ v. (v, v.clock);
  sleep = λ d v. record v { clock = v.clock + d };
  stat = λ path v. (v, if leb 20_000_000 v.clock then found else missing);
  getenv = λ name v. [];
  look_path = λ name v. ok name;
  run_version = λ path v. (v, none);
  open_kvm = λ v. (v, none);
  mkdir_temp = λ name v.
      if v.there (directory name)
      then (v, err (other (codes "in use")))
      else (with_new (directory name) v, ok name);
  mkfifo = λ path v. (v, none);
  open_file = λ path v. (v, none);
  create_file = λ path v. (v, none);
  copy_bytes = λ to from v. (v, none);
  sync_file = λ path v. (v, none);
  close_file = λ path v. v;
  start_process = λ bin socket dir v.
      if v.there (process 7)
      then (v, err (other (codes "in use")))
      else (with_new (process 7) v, ok 7);
  kill = λ p v. v;
  wait = λ p v. without (process p) v;
  remove_all = λ dir v. without (directory dir) v;
  put = λ socket path body v. (v, ok 204);
  open_reader = λ path v. (v, ok 1);
  open_writer = λ path v. (v, ok 2);
  close_stream = λ p v. v;
}

pub simulated-HasClock : HasClock simulated
simulated-HasClock = record {
  reads = λ v. omega arith;
  stats = λ path v. omega arith;
  sleeps = λ d v. omega arith;
}

pub simulated-IsDocumented : IsDocumented simulated has
simulated-IsDocumented = record {
  reads_time = λ x v. refl;
  sleeps = λ x d v. refl;
  stats = λ x path v. refl;
  makes_fifo = λ x path v. refl;
  opens = λ x path v. refl;
  creates_file = λ x path v. refl;
  copies = λ x to from v. refl;
  syncs = λ x path v. refl;
  closes_file = λ x path v. refl;
  puts = λ x socket path body v. refl;
  opens_reader = λ x path v. refl;
  opens_writer = λ x path v. refl;
  closes_stream = λ x p v. refl;
  refuses_directory = λ x name v e h. ground arith;
  makes_directory = λ x name v dir h. ground arith;
  fresh_directory = λ name v dir h. ground arith;
  refuses_process = λ x bin socket dir v e h. ground arith;
  starts_process = λ x bin socket dir v p h. ground arith;
  fresh_process = λ bin socket dir v p h. ground arith;
  stops = λ x p v. refl;
  removes = λ x dir v. refl;
}

abbrev pub empty_host : Sim
empty_host = record { clock = 0; there = λ x. false }

abbrev pub machine : Machine
machine = record {
  bin_path = codes "firecracker";
  kernel_path = codes "vmlinux";
  rootfs_path = codes "rootfs.ext4";
}

abbrev pub world : World Sim
world = record { host = empty_host; destroyed = [] }

abbrev pub vm : Vm
vm = record { id = codes "s1"; process = 7; work_dir = codes "docpine-fc-s1-*" }
