-- ===== src/Runtime/Tidy.antt =====
-- What a backend promises of the resources of its sandboxes: containers, processes, directories.
-- `has` tells which are there, `owns` which belong to a sandbox, and `live` whether a sandbox has not
-- been destroyed. A backend proves `IsTidy`, and its clients count on it.
use docpine.Base.{
  ℕ, ◌+◌, ◌≤◌, ◌≡◌, refl, Bool, true, false, ◌&&◌, ◌||◌, not, List, [], ◌∷◌, arith, total,
}
use docpine.Runtime.{Error, ok, err, SandboxOptions, Runtime}

pub record IsTidy {H S P X : Type 0} (rt : Runtime H S P) (has : X → H → Bool) (owns : S → X → Bool)
    (live : S → H → Bool) : Type 0 where
  pub refuses :
      (x : X) (opts : SandboxOptions) (h : H) (e : Error)
      → (rt.create_sandbox opts h).1 ≡ err e
      → has x (rt.create_sandbox opts h).0 ≡ has x h
  pub creates :
      (x : X) (opts : SandboxOptions) (h : H) (s : S)
      → (rt.create_sandbox opts h).1 ≡ ok s
      → has x (rt.create_sandbox opts h).0 ≡ (owns s x || has x h)
  pub fresh :
      (x : X) (opts : SandboxOptions) (h : H) (s : S)
      → (rt.create_sandbox opts h).1 ≡ ok s
      → owns s x ≡ true
      → has x h ≡ false
  pub starts_live :
      (opts : SandboxOptions) (h : H) (s : S)
      → (rt.create_sandbox opts h).1 ≡ ok s
      → live s (rt.create_sandbox opts h).0 ≡ true
  pub create_spares :
      (opts : SandboxOptions) (h : H) (t : S)
      → live t h ≡ true
      → live t (rt.create_sandbox opts h).0 ≡ true
  pub attaches : (x : X) (s : S) (h : H) → has x (rt.attach_pty s h).0 ≡ has x h
  pub attach_spares : (s t : S) (h : H) → live t h ≡ true → live t (rt.attach_pty s h).0 ≡ true
  pub destroys :
      (x : X) (s : S) (h : H)
      → live s h ≡ true
      → has x (rt.destroy s h).0 ≡ (not (owns s x) && has x h)
  pub destroy_spares :
      (s t : S) (h : H)
      → ((x : X) → owns s x ≡ true → owns t x ≡ false)
      → live t h ≡ true
      → live t (rt.destroy s h).0 ≡ true

abbrev pub bit : Bool → ℕ
bit true = 1
bit false = 0

module _ {H S X : Type 0} (has : X → H → Bool) (owns : S → X → Bool) (live : S → H → Bool) where
  -- The sandboxes are live, no two of them own the same, and what is there is theirs or was there
  -- before them.
  pub record Exact (base : X → Bool) (ss : List S) (h : H) : Type 0 where
    pub counted : (x : X) → total (λ s. bit (owns s x)) ss + bit (base x) ≡ bit (has x h)
    pub alive : total (λ s. bit (not (live s h))) ss ≡ 0

module _ {H S X : Type 0} (has : X → H → Bool) (owns : S → X → Bool) (live : S → H → Bool) where
  -- Sandboxes that have the same totals are the same ones in another order.
  pub reorder-Exact :
      (base : X → Bool) (ss ts : List S) (h : H)
      → ((w : S → ℕ) → total w ts ≡ total w ss)
      → Exact has owns live base ss h
      → Exact has owns live base ts h
  reorder-Exact base ss ts h same v = record {
    counted = λ x. rw (same (λ s. bit (owns s x))) (v.counted x);
    alive = rw (same (λ s. bit (not (live s h)))) v.alive;
  }

module _ {H S P X : Type 0} (rt : Runtime H S P) (has : X → H → Bool) (owns : S → X → Bool)
    (live : S → H → Bool) (tidy : IsTidy rt has owns live) where
  all_live :
      (ss : List S) (h h' : H)
      → ((t : S) → live t h ≡ true → live t h' ≡ true)
      → total (λ s. bit (not (live s h))) ss ≡ 0
      → total (λ s. bit (not (live s h'))) ss ≡ 0
  all_live [] h h' keeps e = refl
  all_live (t ∷ ss) h h' keeps e = ground (arith, keeps t, all_live ss h h' keeps)

  spared :
      (s : S) (ss : List S) (h : H)
      → ((x : X) → bit (owns s x) + total (λ t. bit (owns t x)) ss ≤ 1)
      → total (λ t. bit (not (live t h))) ss ≡ 0
      → total (λ t. bit (not (live t (rt.destroy s h).0))) ss ≡ 0
  spared s [] h apart e = refl
  spared s (t ∷ ss) h apart e =
      let other = tidy.destroy_spares s t h (λ x own. ground (arith, own, apart x)) in
      ground (arith, other, spared s ss h (λ x. omega (arith, apart x)))

  pub create-Exact :
      (base : X → Bool) (ss : List S) (opts : SandboxOptions) (h : H) (s : S)
      → (rt.create_sandbox opts h).1 ≡ ok s
      → Exact has owns live base ss h
      → Exact has owns live base (s ∷ ss) (rt.create_sandbox opts h).0
  create-Exact base ss opts h s made v = record {
    counted =
        λ x. ground (arith, v.counted x, tidy.creates x opts h s made, tidy.fresh x opts h s made);
    alive = ground (
      arith,
      tidy.starts_live opts h s made,
      all_live ss h (rt.create_sandbox opts h).0 (tidy.create_spares opts h) v.alive,
    );
  }

  pub refuse-Exact :
      (base : X → Bool) (ss : List S) (opts : SandboxOptions) (h : H) (e : Error)
      → (rt.create_sandbox opts h).1 ≡ err e
      → Exact has owns live base ss h
      → Exact has owns live base ss (rt.create_sandbox opts h).0
  refuse-Exact base ss opts h e failed v = record {
    counted = λ x. rw (tidy.refuses x opts h e failed) (v.counted x);
    alive = all_live ss h (rt.create_sandbox opts h).0 (tidy.create_spares opts h) v.alive;
  }

  pub attach-Exact :
      (base : X → Bool) (ss : List S) (s : S) (h : H)
      → Exact has owns live base ss h
      → Exact has owns live base ss (rt.attach_pty s h).0
  attach-Exact base ss s h v = record {
    counted = λ x. rw (tidy.attaches x s h) (v.counted x);
    alive = all_live ss h (rt.attach_pty s h).0 (λ t. tidy.attach_spares s t h) v.alive;
  }

  pub destroy-Exact :
      (base : X → Bool) (s : S) (ss : List S) (h : H)
      → Exact has owns live base (s ∷ ss) h
      → Exact has owns live base ss (rt.destroy s h).0
  destroy-Exact base s ss h v =
      let here : live s h ≡ true = ground (arith, v.alive) in
      record {
        counted = λ x. ground (arith, v.counted x, tidy.destroys x s h here);
        alive = spared s ss h (λ x. ground (arith, v.counted x)) (omega (arith, v.alive));
      }
