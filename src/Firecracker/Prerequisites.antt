-- ===== src/Firecracker/Prerequisites.antt =====
-- When CheckPrerequisites of firecracker.go lets the backend be used.
use docpine.Base.{◌≡◌, ◌≢◌, ◌↔◌, inl, inr, Option, none, some, Bytes, arith}
use docpine.Runtime.{Error, prerequisite_failed, wrap, Result, ok, err, Result-cases}
use docpine.Firecracker.{
  missing, Host, Machine, then_run, check_image, check_binary, prerequisite, check_prerequisites,
}

then_run_iff :
    {V : Type 0} (r : V × Option Error) (next : V → V × Option Error)
    → ((then_run r next).1 ≡ none) ↔ ((r.1 ≡ none) × ((next r.0).1 ≡ none))
unfolding then_run
then_run_iff (v, none) next = ground arith
then_run_iff (v, some e) next = ground arith

module _ {V P : Type 0} (os : Host V P) where
  -- The kernel and the root file system may be unreadable, but are not missing.
  abbrev pub HasImages : Machine → V → Type 0
  HasImages m v =
      ((os.stat m.kernel_path v).1 ≢ missing)
      × ((os.stat m.rootfs_path (os.stat m.kernel_path v).0).1 ≢ missing)

  -- The binary was found, and its trial run succeeds.
  abbrev pub IsUsable : Machine → V → Result Bytes → Type 0
  IsUsable m v (err e) = ⊥
  IsUsable m v (ok path) =
      ((os.run_version path v).1 ≡ none) × HasImages m (os.run_version path v).0

  check_images_iff :
      (m : Machine) (v : V)
      → ((then_run (check_image os m.kernel_path v) (check_image os m.rootfs_path)).1 ≡ none)
        ↔ HasImages m v
  unfolding check_image then_run
  check_images_iff m v = ground arith

  check_binary_iff :
      (m : Machine) (v : V) (next : V → V × Option Error)
      → ((u : V) → ((next u).1 ≡ none) ↔ HasImages m u)
      → ((then_run (check_binary os m v) next).1 ≡ none) ↔ IsUsable m v (os.look_path m.bin_path v)
  unfolding check_binary
  check_binary_iff m v next h = elim (Result-cases (os.look_path m.bin_path v)) [
    | inr (e, refused) ↦
        rw (refused, check_binary)
          (ground (arith, then_run_iff (v, some (wrap m.bin_path prerequisite_failed)) next))
    | inl (path, there) ↦
        rw (there, check_binary)
          (ground (
            arith,
            then_run_iff (prerequisite os (os.run_version path v)) next,
            h (os.run_version path v).0,
          ))
  ]

  -- CheckPrerequisites of the Firecracker backend passes exactly if /dev/kvm opens, the binary is
  -- found, its trial run succeeds, and no look at the kernel or at the root file system finds that
  -- it does not exist; a look that fails for another reason, such as the permissions, passes.
  pub check_prerequisites_iff :
      (m : Machine) (v : V)
      → ((check_prerequisites os m v).1 ≡ none) ↔ (
          ((os.open_kvm v).1 ≡ none)
          × IsUsable m (os.open_kvm v).0 (os.look_path m.bin_path (os.open_kvm v).0))
  unfolding check_prerequisites
  check_prerequisites_iff m v = ground (
    arith,
    then_run_iff (prerequisite os (os.open_kvm v)) (λ v₁.
        then_run (check_binary os m v₁)
          (λ v₂. then_run (check_image os m.kernel_path v₂) (check_image os m.rootfs_path))),
    check_binary_iff m (os.open_kvm v).0
        (λ v₂. then_run (check_image os m.kernel_path v₂) (check_image os m.rootfs_path))
        (check_images_iff m),
  )
