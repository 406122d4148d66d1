-- ===== src/App/Sandboxes.antt =====
-- What the calls of the session manager do to the sandboxes, over a backend that is tidy.
use docpine.Base.{
  ℕ, ◌+◌, ◌≡◌, refl, ap, ◌∙◌, inl, inr, Bool, none, some, List, [], ◌∷◌, ◌++◌, map, Bytes, Dict,
  IsDict, lookup, insert, delete, delete_absent, str_eq_iff, total, total-append, Bool-cases,
  Option-cases, arith,
}
use docpine.Runtime.{Runtime}
use docpine.Runtime.Tidy.{IsTidy, Exact, attach-Exact, destroy-Exact, reorder-Exact}
use docpine.Session.{
  Session, notify, destroy, attach, has_expired, expired, remaining, values, reap_each, notify_each,
  destroy_each, reap_expired, close,
}
use docpine.App.{World, App, hosted, on_session_end}
use docpine.App.Consistency.{IsConsistent}

-- The sandboxes of a list of sessions, and of the registry.
abbrev sandboxes : {S : Type 0} → List (Session S) → List S
sandboxes ss = map (λ s. s.sandbox) ss

abbrev pub registered : {S : Type 0} → Dict (Session S) → List S
registered m = map (λ e. e.1.sandbox) m

module _ {S : Type 0} (w : S → ℕ) where
  pub total-insert :
      (k : Bytes) (s : Session S) (m : Dict (Session S))
      → lookup k m ≡ none
      → total w (registered (insert k s m)) ≡ w s.sandbox + total w (registered m)
  unfolding insert lookup
  total-insert k s [] h = refl
  total-insert k s ((j, t) ∷ m) h = ground (arith, total-insert k s m)

  total-delete :
      (k : Bytes) (s : Session S) (m : Dict (Session S))
      → IsDict m
      → lookup k m ≡ some s
      → w s.sandbox + total w (registered (delete k m)) ≡ total w (registered m)
  unfolding delete lookup
  total-delete k s [] d h = cc
  total-delete k s ((j, t) ∷ m) d h =
      ground (arith, str_eq_iff j k, delete_absent k m, total-delete k s m)

  total-expired :
      (now : ℕ) (m : Dict (Session S))
      → total w (sandboxes (expired now m) ++ registered (remaining now m)) ≡ total w (registered m)
  unfolding expired remaining
  total-expired now [] = refl
  total-expired now ((j, t) ∷ m) = ground (
    arith,
    total-expired now m,
    total-append w (sandboxes (expired now m)) (registered (remaining now m)),
    total-append w (sandboxes (expired now m)) (t.sandbox ∷ registered (remaining now m)),
  )

registered-values : {S : Type 0} (m : Dict (Session S)) → sandboxes (values m) ++ [] ≡ registered m
unfolding values
registered-values [] = refl
registered-values ((j, t) ∷ m) = ap (λ ss. t.sandbox ∷ ss) (registered-values m)

host-notify :
    {L H : Type 0} (id : Bytes) (w : World L H) (fns : List (Bytes → World L H → World L H))
    → fns ≡ on_session_end ∷ []
    → (notify fns id w).host ≡ w.host
unfolding notify on_session_end
host-notify id w fns e = rw (e, notify) refl

host-notify_each :
    {L H S : Type 0} (ss : List (Session S)) (w : World L H)
    (fns : List (Bytes → World L H → World L H))
    → fns ≡ on_session_end ∷ []
    → (notify_each fns ss w).host ≡ w.host
unfolding notify_each
host-notify_each [] w fns e = refl
host-notify_each (s ∷ ss) w fns e =
    host-notify_each ss (notify fns s.id w) fns e ∙ host-notify s.id w fns e

-- What is there on the host is what the registered sandboxes own, and what was there before.
abbrev pub Keeps :
    {L H S X : Type 0}
    → (X → H → Bool)
    → (S → X → Bool)
    → (S → H → Bool)
    → (X → Bool)
    → App L H S
    → Type 0
Keeps has owns live base p = Exact has owns live base (registered p.mngr.sessions) p.env.host

module _ {L H S P X : Type 0} (rt : Runtime H S P) (has : X → H → Bool) (owns : S → X → Bool)
    (live : S → H → Bool) (tidy : IsTidy rt has owns live) (base : X → Bool) where
  reap_each-Owned :
      (fns : List (Bytes → World L H → World L H)) (ss : List (Session S)) (rest : List S)
      (w : World L H)
      → fns ≡ on_session_end ∷ []
      → Exact has owns live base (sandboxes ss ++ rest) w.host
      → Exact has owns live base rest (reap_each (hosted rt) fns ss w).host
  unfolding reap_each
  reap_each-Owned fns [] rest w e v = v
  reap_each-Owned fns (s ∷ ss) rest w e v =
      let told = notify fns s.id w in
      reap_each-Owned fns ss rest ((hosted rt).destroy s.sandbox told).0 e (
        destroy-Exact rt has owns live tidy base s.sandbox (sandboxes ss ++ rest) told.host
          (rw (host-notify s.id w fns e) v))

  destroy_each-Owned :
      (ss : List (Session S)) (rest : List S) (w : World L H)
      → Exact has owns live base (sandboxes ss ++ rest) w.host
      → Exact has owns live base rest (destroy_each (hosted rt) ss w).0.host
  unfolding destroy_each
  destroy_each-Owned [] rest w v = v
  destroy_each-Owned (s ∷ ss) rest w v =
      destroy_each-Owned ss rest ((hosted rt).destroy s.sandbox w).0
        (destroy-Exact rt has owns live tidy base s.sandbox (sandboxes ss ++ rest) w.host v)

  pub destroy-Keeps :
      (id : Bytes) (p : App L H S)
      → IsConsistent 0 p
      → Keeps has owns live base p
      → Keeps has owns live base (destroy (hosted rt) id p).0
  unfolding destroy
  destroy-Keeps id p c v = elim (Option-cases (lookup id p.mngr.sessions)) [
    | inl e ↦ rw (e, destroy) v
    | inr (s, e) ↦
        let told = notify p.mngr.on_destroy id p.env in
        let rest = registered (delete id p.mngr.sessions) in
        let picked : Exact has owns live base (s.sandbox ∷ rest) p.env.host =
          reorder-Exact has owns live base (registered p.mngr.sessions) (s.sandbox ∷ rest)
            p.env.host (λ w. total-delete w id s p.mngr.sessions c.agrees.distinct e) v in
        rw (e, destroy)
          (destroy-Exact rt has owns live tidy base s.sandbox rest told.host
            (rw (host-notify id p.env p.mngr.on_destroy c.wired) picked))
  ]

  pub attach-Keeps :
      (id : Bytes) (now : ℕ) (p : App L H S)
      → IsConsistent 0 p
      → Keeps has owns live base p
      → Keeps has owns live base (attach (hosted rt) id now p).0
  unfolding attach
  attach-Keeps id now p c v = elim (Option-cases (lookup id p.mngr.sessions)) [
    | inl e ↦ rw (e, attach) v
    | inr (s, e) ↦ elim (Bool-cases (has_expired now s)) [
      | inl late ↦ rw (e, attach) (rw late (destroy-Keeps id p c v))
      | inr fine ↦
          rw (e, attach)
            (rw fine (
              attach-Exact rt has owns live tidy base (registered p.mngr.sessions) s.sandbox
                p.env.host v))
    ]
  ]

  pub reap_expired-Keeps :
      (now : ℕ) (p : App L H S)
      → IsConsistent 0 p
      → Keeps has owns live base p
      → Keeps has owns live base (reap_expired (hosted rt) now p)
  unfolding reap_expired
  reap_expired-Keeps now p c v =
      let m = p.mngr.sessions in
      reap_each-Owned p.mngr.on_destroy (expired now m) (registered (remaining now m)) p.env c.wired
        (reorder-Exact has owns live base (registered m)
          (sandboxes (expired now m) ++ registered (remaining now m)) p.env.host
          (λ w. total-expired w now m) v)

  pub close-Keeps :
      (p : App L H S)
      → IsConsistent 0 p
      → Keeps has owns live base p
      → Keeps has owns live base (close (hosted rt) p).0
  unfolding close
  close-Keeps p c v =
      let doomed = values p.mngr.sessions in
      destroy_each-Owned doomed [] (notify_each p.mngr.on_destroy doomed p.env) (
        rw
          (
            registered-values p.mngr.sessions,
            host-notify_each doomed p.env p.mngr.on_destroy c.wired,
          )
          v)
