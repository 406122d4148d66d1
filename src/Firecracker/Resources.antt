-- ===== src/Firecracker/Resources.antt =====
-- The work directories and the Firecracker processes on the host, and what the calls of firecracker.go
-- do to them.
use docpine.Base.{
  ℕ, zero, suc, ◌+◌, ◌≡◌, refl, ◌∙◌, ◌↔◌, inl, inr, Bool, true, false, ◌&&◌, ◌||◌, not, ◌==◌,
  ==_iff, Option, none, some, Option-cases, List, [], ◌∷◌, Bytes, str_eq, str_eq_iff, arith,
}
use docpine.Http.{Json}
use docpine.Runtime.{Error, Result, ok, err, SandboxOptions}
use docpine.Firecracker.{Host, Machine, Vm, socket_path, under, then_run, requests}
use docpine.Firecracker.Boot.{
  poll_interval, socket_timeout, closing, copy_file, wait_loop, wait_for_socket, put_api, configure,
  prepare, await_socket, boot,
}

pub data Resource : Type 0 where
  directory : Bytes → Resource
  process : ℕ → Resource

unfoldable pub same : Resource → Resource → Bool
same (directory a) (directory b) = str_eq a b
same (directory a) (process q) = false
same (process p) (directory b) = false
same (process p) (process q) = p == q

-- The behaviour of the host that the code relies on, by the work directories and processes that
-- are there: only MkdirTemp and Start add one, under a fresh name; Wait after Kill ends the
-- process, and RemoveAll deletes the directory.
pub record IsDocumented {V P : Type 0} (os : Host V P) (has : Resource → V → Bool) : Type 0 where
  pub reads_time : (x : Resource) (v : V) → has x (os.now v).0 ≡ has x v
  pub sleeps : (x : Resource) (d : ℕ) (v : V) → has x (os.sleep d v) ≡ has x v
  pub stats : (x : Resource) (path : Bytes) (v : V) → has x (os.stat path v).0 ≡ has x v
  pub makes_fifo : (x : Resource) (path : Bytes) (v : V) → has x (os.mkfifo path v).0 ≡ has x v
  pub opens : (x : Resource) (path : Bytes) (v : V) → has x (os.open_file path v).0 ≡ has x v
  pub creates_file :
      (x : Resource) (path : Bytes) (v : V) → has x (os.create_file path v).0 ≡ has x v
  pub copies :
      (x : Resource) (to from : Bytes) (v : V) → has x (os.copy_bytes to from v).0 ≡ has x v
  pub syncs : (x : Resource) (path : Bytes) (v : V) → has x (os.sync_file path v).0 ≡ has x v
  pub closes_file : (x : Resource) (path : Bytes) (v : V) → has x (os.close_file path v) ≡ has x v
  pub puts :
      (x : Resource) (socket path : Bytes) (body : Json) (v : V)
      → has x (os.put socket path body v).0 ≡ has x v
  pub opens_reader :
      (x : Resource) (path : Bytes) (v : V) → has x (os.open_reader path v).0 ≡ has x v
  pub opens_writer :
      (x : Resource) (path : Bytes) (v : V) → has x (os.open_writer path v).0 ≡ has x v
  pub closes_stream : (x : Resource) (p : P) (v : V) → has x (os.close_stream p v) ≡ has x v
  pub refuses_directory :
      (x : Resource) (pattern : Bytes) (v : V) (e : Error)
      → (os.mkdir_temp pattern v).1 ≡ err e
      → has x (os.mkdir_temp pattern v).0 ≡ has x v
  pub makes_directory :
      (x : Resource) (pattern : Bytes) (v : V) (dir : Bytes)
      → (os.mkdir_temp pattern v).1 ≡ ok dir
      → has x (os.mkdir_temp pattern v).0 ≡ (same (directory dir) x || has x v)
  pub fresh_directory :
      (pattern : Bytes) (v : V) (dir : Bytes)
      → (os.mkdir_temp pattern v).1 ≡ ok dir
      → has (directory dir) v ≡ false
  pub refuses_process :
      (x : Resource) (bin socket dir : Bytes) (v : V) (e : Error)
      → (os.start_process bin socket dir v).1 ≡ err e
      → has x (os.start_process bin socket dir v).0 ≡ has x v
  pub starts_process :
      (x : Resource) (bin socket dir : Bytes) (v : V) (p : ℕ)
      → (os.start_process bin socket dir v).1 ≡ ok p
      → has x (os.start_process bin socket dir v).0 ≡ (same (process p) x || has x v)
  pub fresh_process :
      (bin socket dir : Bytes) (v : V) (p : ℕ)
      → (os.start_process bin socket dir v).1 ≡ ok p
      → has (process p) v ≡ false
  pub stops :
      (x : Resource) (p : ℕ) (v : V)
      → has x (os.wait p (os.kill p v)) ≡ (not (same (process p) x) && has x v)
  pub removes :
      (x : Resource) (dir : Bytes) (v : V)
      → has x (os.remove_all dir v) ≡ (not (same (directory dir) x) && has x v)

-- Whether a result hands out the resource.
unfoldable pub hands_out : Result Vm → Resource → Bool
hands_out (err e) x = false
hands_out (ok s) x = same (process s.process) x || same (directory s.work_dir) x

-- What is there after a call is what it hands out, all of it new, and what was there before.
abbrev pub Leaves : {V : Type 0} → (Resource → V → Bool) → Resource → V → V × Result Vm → Type 0
Leaves has x v (v', made) =
    (has x v' ≡ (hands_out made x || has x v)) × (hands_out made x ≡ true → has x v ≡ false)

pub same_iff : (x y : Resource) → (same x y ≡ true) ↔ (x ≡ y)
unfolding same
same_iff (directory a) (directory b) = ground (arith, str_eq_iff a b)
same_iff (directory a) (process q) = ground arith
same_iff (process p) (directory b) = ground arith
same_iff (process p) (process q) = ground (arith, ==_iff p q)

module _ {V P : Type 0} (os : Host V P) (has : Resource → V → Bool) (law : IsDocumented os has)
    (x : Resource) where
  has-under :
      (message : Bytes) (r : V × Option Error) (b : Bool)
      → has x r.0 ≡ b
      → has x (under message r).0 ≡ b
  unfolding under
  has-under message (v, failed) b e = e

  has-then_run :
      (r : V × Option Error) (next : V → V × Option Error) (b : Bool)
      → has x r.0 ≡ b
      → ((v : V) → has x v ≡ b → has x (next v).0 ≡ b)
      → has x (then_run r next).0 ≡ b
  unfolding then_run
  has-then_run (v, none) next b e h = h v e
  has-then_run (v, some failed) next b e h = e

  has-closing :
      (path : Bytes) (r : V × Option Error) (b : Bool)
      → has x r.0 ≡ b
      → has x (closing os path r).0 ≡ b
  unfolding closing
  has-closing path (v, result) b e = law.closes_file x path v ∙ e

  has-copy_file : (src dst : Bytes) (v : V) → has x (copy_file os src dst v).0 ≡ has x v
  unfolding copy_file
  has-copy_file src dst v = has-then_run _ _ _ (law.opens x src v) (λ v₁ e₁. has-closing _ _ _ (
      has-then_run _ _ _ (law.creates_file x dst v₁ ∙ e₁) (λ v₂ e₂.
        has-closing _ _ _
          (has-then_run _ _ _ (law.copies x dst src v₂ ∙ e₂) (λ v₃ e₃. law.syncs x dst v₃ ∙ e₃)))))

  pub has-prepare : (m : Machine) (dir : Bytes) (v : V) → has x (prepare os m dir v).0 ≡ has x v
  unfolding prepare
  has-prepare m dir v = has-then_run _ _ _ (has-under _ _ _ (law.makes_fifo x _ v)) (λ v₁ e₁.
      has-then_run _ _ _ (has-under _ _ _ (law.makes_fifo x _ v₁ ∙ e₁))
        (λ v₂ e₂. has-under _ _ _ (has-copy_file _ _ v₂ ∙ e₂)))

  -- `b` where the loop ends; `none` has no state.
  has_after : V → Option (V × Option Error) → Bool
  has_after v none = has x v
  has_after v (some r) = has x r.0

  has-wait_loop :
      (fuel deadline : ℕ) (path : Bytes) (v u : V)
      → has x v ≡ has x u
      → has_after u (wait_loop os fuel deadline path v) ≡ has x u
  unfolding wait_loop has_after
  has-wait_loop zero deadline path v u e = refl
  has-wait_loop (suc fuel) deadline path v u e =
      let v₁ = (os.now v).0 in
      let v₂ = (os.stat path v₁).0 in
      ground (
        arith,
        law.reads_time x v,
        law.stats x path v₁,
        law.sleeps x poll_interval v₂,
        has-wait_loop fuel deadline path (os.sleep poll_interval v₂) u,
      )

  has-wait_for_socket :
      (path : Bytes) (timeout : ℕ) (v : V)
      → has_after v (wait_for_socket os path timeout v) ≡ has x v
  unfolding wait_for_socket
  has-wait_for_socket path timeout v =
      has-wait_loop _ ((os.now v).1 + timeout) path (os.now v).0 v (law.reads_time x v)

  has-await_socket : (dir : Bytes) (v : V) → has x (await_socket os dir v).0 ≡ has x v
  unfolding has_after await_socket
  has-await_socket dir v =
      let kept = has-wait_for_socket (socket_path dir) socket_timeout v in
      elim (Option-cases (wait_for_socket os (socket_path dir) socket_timeout v)) [
        | inl e ↦ rw (e, await_socket) refl
        | inr (r, e) ↦ rw (e, await_socket) (rw (e) at kept)
      ]

  has-configure :
      (dir : Bytes) (rs : List (Bytes × Json × Bytes)) (v : V)
      → has x (configure os dir rs v).0 ≡ has x v
  unfolding configure put_api
  has-configure dir [] v = refl
  has-configure dir ((path, body, message) ∷ rest) v =
      has-then_run _ _ _ (has-under _ _ _ (law.puts x (socket_path dir) path body v))
        (λ v' e. has-configure dir rest v' ∙ e)

  pub has-boot :
      (m : Machine) (opts : SandboxOptions) (dir : Bytes) (v : V)
      → has x (boot os m opts dir v).0 ≡ has x v
  unfolding boot
  has-boot m opts dir v =
      has-then_run _ _ _ (has-under _ _ _ (has-await_socket dir v))
        (λ v' e. has-configure dir (requests m opts dir) v' ∙ e)
