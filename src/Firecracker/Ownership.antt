-- ===== src/Firecracker/Ownership.antt =====
-- The Firecracker backend keeps what `IsTidy` asks of a backend.
use docpine.Base.{
  ◌≡◌, ◌∙◌, Bool, true, false, ◌||◌, ◌&&◌, not, Bytes, lookup-insert, str_eq_refl, str_eq_iff,
  arith, inl, inr,
}
use docpine.Runtime.{Result, ok, err, SandboxOptions, Result-cases}
use docpine.Runtime.Tidy.{IsTidy}
use docpine.Firecracker.{Host, Machine, Vm, World, is_destroyed, stdin_fifo, stdout_fifo}
use docpine.Firecracker.Boot.{
  create_vm, sandbox_id, new_sandbox, create_sandbox, open_input, open_console, attach_pty, destroy,
  firecracker_runtime,
}
use docpine.Firecracker.Resources.{Resource, directory, process, same, IsDocumented, hands_out}
use docpine.Firecracker.Leaks.{create_sandbox-Leaves, created_not_destroyed, has-tear_down}

abbrev pub owns : Vm → Resource → Bool
owns s x = same (process s.process) x || same (directory s.work_dir) x

abbrev pub live : {V : Type 0} → Vm → World V → Bool
live s w = not (is_destroyed s w)

abbrev pub on_host : {V : Type 0} → (Resource → V → Bool) → Resource → World V → Bool
on_host has x w = has x w.host

new_sandbox_spares :
    {V : Type 0} (t : Vm) (w : World V) (r : V × Result Vm)
    → live t w ≡ true
    → live t (new_sandbox w r).0 ≡ true
unfolding new_sandbox
new_sandbox_spares t w (v, err e) h = h
new_sandbox_spares t w (v, ok s) h =
    ground (arith, lookup-insert s.work_dir t.work_dir false w.destroyed)

module _ {V P : Type 0} (os : Host V P) (has : Resource → V → Bool)
    (law : IsDocumented os has) where
  has-open_input :
      (x : Resource) (reader : P) (r : V × Result P) (v : V)
      → has x r.0 ≡ has x v
      → has x (open_input os reader r).0 ≡ has x v
  unfolding open_input
  has-open_input x reader (v', err e) v h = law.closes_stream x reader v' ∙ h
  has-open_input x reader (v', ok writer) v h = h

  has-open_console :
      (x : Resource) (dir : Bytes) (v : V) → has x (open_console os dir v).0 ≡ has x v
  unfolding open_console
  has-open_console x dir v =
      let opened = os.open_reader (stdout_fifo dir) v in
      let first = law.opens_reader x (stdout_fifo dir) v in
      elim (Result-cases opened.1) [
        | inl (reader, e) ↦
            rw (e, open_console)
              (has-open_input x reader (os.open_writer (stdin_fifo dir) opened.0) v
                (law.opens_writer x (stdin_fifo dir) opened.0 ∙ first))
        | inr (failed, e) ↦ rw (e, open_console) first
      ]

  has-attach_pty :
      (x : Resource) (s : Vm) (w : World V) → has x (attach_pty os s w).0.host ≡ has x w.host
  unfolding attach_pty
  has-attach_pty x s w = ground (arith, has-open_console x s.work_dir w.host)

  attach_spares : (s t : Vm) (w : World V) → live t w ≡ true → live t (attach_pty os s w).0 ≡ true
  unfolding attach_pty
  attach_spares s t w h = ground arith

  has-destroy :
      (x : Resource) (s : Vm) (w : World V)
      → live s w ≡ true
      → has x (destroy os s w).0.host ≡ (not (owns s x) && has x w.host)
  unfolding destroy
  has-destroy x s w h = ground (arith, h, has-tear_down os has law x s.process s.work_dir w.host)

  destroy_spares :
      (s t : Vm) (w : World V)
      → ((x : Resource) → owns s x ≡ true → owns t x ≡ false)
      → live t w ≡ true
      → live t (destroy os s w).0 ≡ true
  unfolding destroy same
  destroy_spares s t w apart h =
      let mine = apart (directory s.work_dir) (ground (arith, str_eq_refl s.work_dir)) in
      ground (
        arith,
        h,
        mine,
        str_eq_iff s.work_dir t.work_dir,
        str_eq_iff t.work_dir s.work_dir,
        lookup-insert s.work_dir t.work_dir true w.destroyed,
      )

  create_spares :
      (m : Machine) (opts : SandboxOptions) (w : World V) (t : Vm)
      → live t w ≡ true
      → live t (create_sandbox os m opts w).0 ≡ true
  unfolding create_sandbox
  create_spares m opts w t h =
      let (v, id) = sandbox_id os opts w.host in new_sandbox_spares t w (create_vm os m opts id v) h

  -- The Firecracker backend is tidy about work directories and processes: a sandbox owns its
  -- directory and its process, and is live until it is destroyed. The host behaves as
  -- `IsDocumented` states.
  pub firecracker_runtime-IsTidy :
      (m : Machine) → IsTidy (firecracker_runtime os m) (on_host has) owns live
  unfolding firecracker_runtime hands_out
  firecracker_runtime-IsTidy m = record {
    refuses = λ x opts w e failed. (rw (failed) at (create_sandbox-Leaves os has law x m opts w)).0;
    creates = λ x opts w s made.
        ground (arith, rw (made) at (create_sandbox-Leaves os has law x m opts w));
    fresh =
        λ x opts w s made own. (rw (made) at (create_sandbox-Leaves os has law x m opts w)).1 own;
    starts_live = λ opts w s made. ground (arith, created_not_destroyed os m opts w s made);
    create_spares = λ opts w t h. create_spares m opts w t h;
    attaches = has-attach_pty;
    attach_spares = attach_spares;
    destroys = has-destroy;
    destroy_spares = destroy_spares;
  }
