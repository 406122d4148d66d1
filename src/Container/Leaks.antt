-- ===== src/Container/Leaks.antt =====
-- What a creation leaves behind in the Docker daemon, in CreateSandbox of docker.go and gvisor.go.
use mathlib.Core.Path.{subst}
use docpine.Base.{
  Bool-cases, none, ◌||◌, ◌&&◌, not, ◌≡◌, inl, inr, str_eq, str_eq_iff, arith, Bool, true, false,
  Bytes,
}
use docpine.Runtime.{Error, Result, ok, err, SandboxOptions, Result-cases}
use docpine.Container.{
  Daemon, Host, Flavor, ContainerConfig, ensure_image, start_or_remove, create_and_start,
  create_container, container_config, container_name, new_sandbox, create_sandbox,
}

-- The documented behaviour of the daemon that the code relies on, by the containers that are there
-- (running or not): only a creation adds one, under a fresh id; a forced removal that reports no
-- error has deleted its container, and no removal touches another one.
pub record IsDocumented {D P : Type 0} (api : Daemon D P) (has : Bytes → D → Bool) : Type 0 where
  pub inspects : (x img : Bytes) (d : D) → has x (api.image_inspect img d).0 ≡ has x d
  pub pulls : (x img : Bytes) (d : D) → has x (api.image_pull img d).0 ≡ has x d
  pub starts : (x id : Bytes) (d : D) → has x (api.container_start id d).0 ≡ has x d
  pub refuses :
      (x : Bytes) (cfg : ContainerConfig) (name : Bytes) (d : D) (e : Error)
      → (api.container_create cfg name d).1 ≡ err e
      → has x (api.container_create cfg name d).0 ≡ has x d
  pub fresh :
      (cfg : ContainerConfig) (name : Bytes) (d : D) (id : Bytes)
      → (api.container_create cfg name d).1 ≡ ok id
      → has id d ≡ false
  pub creates :
      (x : Bytes) (cfg : ContainerConfig) (name : Bytes) (d : D) (id : Bytes)
      → (api.container_create cfg name d).1 ≡ ok id
      → has x (api.container_create cfg name d).0 ≡ (str_eq id x || has x d)
  pub removes :
      (id : Bytes) (volumes : Bool) (d : D)
      → (api.container_remove id true volumes d).1 ≡ none
      → has id (api.container_remove id true volumes d).0 ≡ false
  pub spares :
      (x id : Bytes) (volumes : Bool) (d : D)
      → str_eq id x ≡ false
      → has x (api.container_remove id true volumes d).0 ≡ has x d

-- The daemon can remove: it is up, and no removal meets an error or the end of its context.
pub record CanRemove {D P : Type 0} (api : Daemon D P) : Type 0 where
  pub succeeds :
      (id : Bytes) (volumes : Bool) (d : D) → (api.container_remove id true volumes d).1 ≡ none

-- Whether a result hands out the container.
abbrev pub hands_out : Result Bytes → Bytes → Bool
hands_out (err e) x = false
hands_out (ok id) x = str_eq id x

module _ {D P : Type 0} (api : Daemon D P) (has : Bytes → D → Bool)
    (law : IsDocumented api has) where
  -- What a removal that reports no error leaves.
  pub has-removed :
      (x id : Bytes) (volumes : Bool) (d : D)
      → (api.container_remove id true volumes d).1 ≡ none
      → has x (api.container_remove id true volumes d).0 ≡ (not (str_eq id x) && has x d)
  has-removed x id volumes d quiet = elim (Bool-cases (str_eq id x)) [
    | inl own ↦ rw own (
        subst (λ y. has y (api.container_remove id true volumes d).0 ≡ false)
          ((str_eq_iff id x).0 own) (law.removes id volumes d quiet))
    | inr other ↦ rw other (law.spares x id volumes d other)
  ]

  pub has-ensure_image : (x img : Bytes) (d : D) → has x (ensure_image api img d).0 ≡ has x d
  unfolding ensure_image
  has-ensure_image x img d =
      ground (arith, law.inspects x img d, law.pulls x img (api.image_inspect img d).0)

module _ {D P : Type 0} (api : Daemon D P) (has : Bytes → D → Bool) (law : IsDocumented api has)
    (able : CanRemove api) where
  has-start_or_remove :
      (x id : Bytes) (d d' : D)
      → has id d ≡ false
      → has x d' ≡ (str_eq id x || has x d)
      → has x (start_or_remove api id d').0 ≡ (hands_out (start_or_remove api id d').1 x || has x d)
  unfolding start_or_remove
  has-start_or_remove x id d d' new one = ground (
    arith,
    str_eq_iff id x,
    law.starts x id d',
    has-removed api has law x id false (api.container_start id d').0
        (able.succeeds id false (api.container_start id d').0),
  )

  has-create_and_start :
      (x : Bytes) (cfg : ContainerConfig) (name : Bytes) (d : D)
      → has x (create_and_start api cfg name d).0
        ≡ (hands_out (create_and_start api cfg name d).1 x || has x d)
  unfolding create_and_start
  has-create_and_start x cfg name d = elim (Result-cases (api.container_create cfg name d).1) [
    | inl (id, made) ↦
        rw (made, create_and_start)
          (has-start_or_remove x id d (api.container_create cfg name d).0
            (law.fresh cfg name d id made) (law.creates x cfg name d id made))
    | inr (e, refused) ↦ rw (refused, create_and_start) (law.refuses x cfg name d e refused)
  ]

  has-create_container :
      (x : Bytes) (f : Flavor) (opts : SandboxOptions) (d : D)
      → has x (create_container api f opts d).0
        ≡ (hands_out (create_container api f opts d).1 x || has x d)
  unfolding create_container
  has-create_container x f opts d = ground (
    arith,
    has-ensure_image api has law x (container_config f opts).image d,
    has-create_and_start x (container_config f opts) (container_name f opts)
        (ensure_image api (container_config f opts).image d).0,
  )

  has-new_sandbox :
      (x : Bytes) (h : Host D) (made : D × Result Bytes)
      → has x made.0 ≡ (hands_out made.1 x || has x h.daemon)
      → has x (new_sandbox api h made).0.daemon
        ≡ (hands_out (new_sandbox api h made).1 x || has x h.daemon)
  unfolding new_sandbox
  has-new_sandbox x h (d, err e) eq = eq
  has-new_sandbox x h (d, ok id) eq = eq

  -- CreateSandbox leaks no container: where it fails, exactly the containers are there that were
  -- there before, also where the container was created and did not start; and where it succeeds,
  -- those and the one that it returns. The daemon behaves as `IsDocumented` states, and `CanRemove`.
  pub create_sandbox_leaks_none :
      (x : Bytes) (f : Flavor) (opts : SandboxOptions) (h : Host D)
      → has x (create_sandbox api f opts h).0.daemon
        ≡ (hands_out (create_sandbox api f opts h).1 x || has x h.daemon)
  unfolding create_sandbox
  create_sandbox_leaks_none x f opts h =
      has-new_sandbox x h _ (has-create_container x f opts h.daemon)
