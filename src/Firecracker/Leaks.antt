-- ===== src/Firecracker/Leaks.antt =====
-- What CreateSandbox of firecracker.go leaves behind on the host.
use docpine.Base.{
  ℕ, ◌≡◌, ◌∙◌, inl, inr, Bool, true, false, ◌&&◌, ◌||◌, not, Option, none, some, Option-cases, ◌++◌,
  codes, Bytes, arith, ap, lookup-insert_self,
}
use docpine.Runtime.{Error, Result, ok, err, SandboxOptions, Result-cases}
use docpine.Firecracker.{Host, Machine, Vm, World, socket_path, is_destroyed}
use docpine.Firecracker.Boot.{
  prepare, boot, tear_down, finish, launch, build, create_vm, sandbox_id, new_sandbox,
  create_sandbox, destroy,
}
use docpine.Firecracker.Resources.{
  Resource, directory, process, same, IsDocumented, hands_out, Leaves, same_iff, has-prepare,
  has-boot,
}

not_destroyed :
    {V : Type 0} (w : World V) (s : Vm) (r : V × Result Vm)
    → (new_sandbox w r).1 ≡ ok s
    → is_destroyed s (new_sandbox w r).0 ≡ false
unfolding new_sandbox
not_destroyed w s (v, err e) made = ground arith
not_destroyed w s (v, ok s') made = ground (arith, lookup-insert_self s'.work_dir false w.destroyed)

module _ {V P : Type 0} (os : Host V P) where
  pub created_not_destroyed :
      (m : Machine) (opts : SandboxOptions) (w : World V) (s : Vm)
      → (create_sandbox os m opts w).1 ≡ ok s
      → is_destroyed s (create_sandbox os m opts w).0 ≡ false
  unfolding create_sandbox
  created_not_destroyed m opts w s made =
      let (v, id) = sandbox_id os opts w.host in not_destroyed w s (create_vm os m opts id v) made

module _ {V P : Type 0} (os : Host V P) (has : Resource → V → Bool) (law : IsDocumented os has)
    (x : Resource) where
  has-finish :
      (s : Vm) (r : V × Option Error) (v : V)
      → has (directory s.work_dir) v ≡ false
      → has (process s.process) v ≡ false
      → has x r.0 ≡ (same (process s.process) x || (same (directory s.work_dir) x || has x v))
      → Leaves has x v (finish os s r)
  unfolding finish hands_out tear_down
  has-finish s (v', none) v new_dir new_pid e =
      ground (arith, same_iff (process s.process) x, same_iff (directory s.work_dir) x)
  has-finish s (v', some failed) v new_dir new_pid e = ground (
    arith,
    same_iff (process s.process) x,
    same_iff (directory s.work_dir) x,
    law.stops x s.process v',
    law.removes x s.work_dir (os.wait s.process (os.kill s.process v')),
  )

  has-remove_all :
      (dir : Bytes) (v v₀ : V)
      → has (directory dir) v₀ ≡ false
      → has x v ≡ (same (directory dir) x || has x v₀)
      → has x (os.remove_all dir v) ≡ has x v₀
  has-remove_all dir v v₀ new e = ground (arith, same_iff (directory dir) x, law.removes x dir v)

  pub has-tear_down :
      (p : ℕ) (dir : Bytes) (v : V)
      → has x (tear_down os p dir v)
        ≡ (not (same (directory dir) x) && (not (same (process p) x) && has x v))
  unfolding tear_down
  has-tear_down p dir v =
      law.removes x dir (os.wait p (os.kill p v))
      ∙ ap (λ b. not (same (directory dir) x) && b) (law.stops x p v)

module _ {V P : Type 0} (os : Host V P) (has : Resource → V → Bool) (law : IsDocumented os has)
    (x : Resource) (m : Machine) (opts : SandboxOptions) where
  -- `v₀` is the host before the directory was made.
  has-launch :
      (id dir : Bytes) (v v₀ : V)
      → has (directory dir) v₀ ≡ false
      → ((y : Resource) → has y v ≡ (same (directory dir) y || has y v₀))
      → Leaves has x v₀ (launch os m opts id dir v)
  unfolding launch hands_out
  has-launch id dir v v₀ new at =
      let started = os.start_process m.bin_path (socket_path dir) dir v in
      elim (Result-cases started.1) [
        | inl (p, e) ↦
            rw (e, launch)
              (has-finish os has law x (record { id = id; process = p; work_dir = dir })
                (boot os m opts dir started.0) v₀ new
                (ground
                  (arith, at (process p), law.fresh_process m.bin_path (socket_path dir) dir v p e))
                (has-boot os has law x m opts dir started.0
                  ∙ (law.starts_process x m.bin_path (socket_path dir) dir v p e
                      ∙ ap (λ b. same (process p) x || b) (at x))))
        | inr (failed, e) ↦
            rw (e, launch)
              (
                has-remove_all os has law x dir started.0 v₀ new
                    (law.refuses_process x m.bin_path (socket_path dir) dir v failed e ∙ at x),
                λ h. ground arith,
              )
      ]

  has-build :
      (id dir : Bytes) (v v₀ : V)
      → has (directory dir) v₀ ≡ false
      → ((y : Resource) → has y v ≡ (same (directory dir) y || has y v₀))
      → Leaves has x v₀ (build os m opts id dir v)
  unfolding build hands_out
  has-build id dir v v₀ new at = elim (Option-cases (prepare os m dir v).1) [
    | inl e ↦
        rw (e, build)
          (has-launch id dir (prepare os m dir v).0 v₀ new
            (λ y. has-prepare os has law y m dir v ∙ at y))
    | inr (failed, e) ↦
        rw (e, build)
          (
            has-remove_all os has law x dir (prepare os m dir v).0 v₀ new
                (has-prepare os has law x m dir v ∙ at x),
            λ h. ground arith,
          )
  ]

  has-create_vm : (id : Bytes) (v : V) → Leaves has x v (create_vm os m opts id v)
  unfolding create_vm hands_out
  has-create_vm id v =
      let pattern = codes "docpine-fc-" ++ (id ++ codes "-*") in
      elim (Result-cases (os.mkdir_temp pattern v).1) [
        | inl (dir, e) ↦
            rw (e, create_vm)
              (has-build id dir (os.mkdir_temp pattern v).0 v (law.fresh_directory pattern v dir e)
                (λ y. law.makes_directory y pattern v dir e))
        | inr (failed, e) ↦
            rw (e, create_vm) (law.refuses_directory x pattern v failed e, λ h. ground arith)
      ]

  has-sandbox_id : (v : V) → has x (sandbox_id os opts v).0 ≡ has x v
  unfolding sandbox_id
  has-sandbox_id v = ground (arith, law.reads_time x v)

  has-new_sandbox :
      (w : World V) (v : V) (r : V × Result Vm)
      → has x v ≡ has x w.host
      → Leaves has x v r
      → Leaves (λ y u. has y u.host) x w (new_sandbox w r)
  unfolding new_sandbox
  has-new_sandbox w v (v', err e) same_host h = ground arith
  has-new_sandbox w v (v', ok s) same_host h = ground arith

  -- CreateSandbox of the Firecracker backend leaks no work directory and no process: where it
  -- fails, at whatever step, exactly those are there that were there before; and where it succeeds,
  -- those and the directory and the process of the sandbox that it returns, both of them new. The
  -- host behaves as `IsDocumented` states.
  pub create_sandbox-Leaves :
      (w : World V) → Leaves (λ y u. has y u.host) x w (create_sandbox os m opts w)
  unfolding create_sandbox
  create_sandbox-Leaves w =
      let (v, id) = sandbox_id os opts w.host in
      has-new_sandbox w v _ (has-sandbox_id w.host) (has-create_vm id v)

  -- A sandbox of the Firecracker backend that is created and destroyed leaves the host with exactly
  -- the work directories and the processes that it had before, and a second Destroy changes
  -- nothing, as long as the host behaves as `IsDocumented` states.
  destroy-create_sandbox :
      (w : World V) (s : Vm)
      → (create_sandbox os m opts w).1 ≡ ok s
      → let gone = (destroy os s (create_sandbox os m opts w).0).0 in
        (has x gone.host ≡ has x w.host) × (destroy os s gone ≡ (gone, none))
  unfolding destroy hands_out
  destroy-create_sandbox w s e =
      let w' = (create_sandbox os m opts w).0 in
      let left = rw (e) at (create_sandbox-Leaves w) in
      let live = created_not_destroyed os m opts w s e in
      let flag = lookup-insert_self s.work_dir true w'.destroyed in
      let torn = has-tear_down os has law x s.process s.work_dir w'.host in
      (ground (arith, live, torn, left), ground (arith, live, flag))
