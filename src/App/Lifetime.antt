-- ===== src/App/Lifetime.antt =====
-- No sandbox outlives its session, over a backend that is tidy.
use docpine.Base.{
  ℕ, ◌+◌, ◌≡◌, refl, inl, inr, Bool, false, ◌||◌, none, List, [], ◌∷◌, Bytes, lookup, insert, total,
  Bool-cases, arith, ℤ,
}
use docpine.Runtime.{Runtime, Result-cases}
use docpine.Runtime.Tidy.{IsTidy, bit, create-Exact, refuse-Exact, reorder-Exact}
use docpine.Http.{Request, Response}
use docpine.Session.{new_manager, register_callback, create_options, new_session, close}
use docpine.Session.Lifecycle.{create_made, create_failed}
use docpine.Abuse.Guard.{Settings, Peers, Clocks, check_anonymous_create}
use docpine.App.{
  App, hosted, start, Payload, malformed, token_of, is_passed, provision, answer_create,
  create_session, evict_stale,
}
use docpine.App.Consistency.{IsConsistent, start-IsConsistent}
use docpine.App.Serial.{
  Serial, begin, creates, attaches, ends, reaps, evicts, closes, Serial-IsConsistent,
}
use docpine.App.Sandboxes.{
  registered, Keeps, total-insert, destroy-Keeps, attach-Keeps, reap_expired-Keeps, close-Keeps,
}

module _ {L R H S P X : Type 0} (peers : Peers L R) (rt : Runtime H S P) (has : X → H → Bool)
    (owns : S → X → Bool) (live : S → H → Bool) (tidy : IsTidy rt has owns live)
    (base : X → Bool) where
  provision-Keeps :
      (d uuid : Bytes) (now : ℕ) (p : App L H S) (w : Response)
      → lookup uuid p.mngr.sessions ≡ none
      → Keeps has owns live base p
      → Keeps has owns live base (provision peers rt d uuid now p w).0
  unfolding provision answer_create
  provision-Keeps d uuid now p w fresh v =
      let m = p.mngr.sessions in
      let h = p.env.host in
      elim (Result-cases (rt.create_sandbox (create_options uuid) h).1) [
        | inl (s, made) ↦
            rw (create_made (hosted rt) uuid now p s made, provision)
              (reorder-Exact has owns live base (s ∷ registered m)
                (registered (insert uuid (new_session p.mngr.ttl uuid s now) m))
                (rt.create_sandbox (create_options uuid) h).0
                (λ f. total-insert f uuid (new_session p.mngr.ttl uuid s now) m fresh)
                (create-Exact rt has owns live tidy base (registered m) (create_options uuid) h s
                  made v))
        | inr (e, failed) ↦
            rw (create_failed (hosted rt) uuid now p e failed, provision)
              (refuse-Exact rt has owns live tidy base (registered m) (create_options uuid) h e
                failed v)
      ]

  create_session-Keeps :
      (r : Request) (payload : Payload) (device_uuid uuid : Bytes) (clocks : Clocks) (now : ℕ)
      (p : App L H S) (w : Response)
      → lookup uuid p.mngr.sessions ≡ none
      → Keeps has owns live base p
      → Keeps has owns live base
          (create_session peers rt r payload device_uuid uuid clocks now p w).0
  unfolding create_session
  create_session-Keeps r malformed du uuid clocks now p w fresh v = v
  create_session-Keeps r payload du uuid clocks now p w fresh v =
      let o = check_anonymous_create peers r (token_of payload) du clocks p.env.guard w in
      elim (Bool-cases (is_passed o.verdict)) [
        | inl go ↦
            rw (go, create_session)
              (provision-Keeps o.device_id uuid now
                (record p { env = record (p.env) { guard = o.guard } }) o.response fresh v)
        | inr stopped ↦ rw (stopped, create_session) v
      ]

  Serial-Keeps :
      {p₀ p : App L H S}
      → IsConsistent 0 p₀
      → Keeps has owns live base p₀
      → Serial peers rt p₀ p
      → Keeps has owns live base p
  unfolding evict_stale
  Serial-Keeps c v begin = v
  Serial-Keeps c v (creates {p} r payload du uuid clocks now w blank fresh s) =
      create_session-Keeps r payload du uuid clocks now p w fresh (Serial-Keeps c v s)
  Serial-Keeps c v (attaches {p} id now s) =
      attach-Keeps rt has owns live tidy base id now p (Serial-IsConsistent peers rt c s)
        (Serial-Keeps c v s)
  Serial-Keeps c v (ends {p} id s) =
      destroy-Keeps rt has owns live tidy base id p (Serial-IsConsistent peers rt c s)
        (Serial-Keeps c v s)
  Serial-Keeps c v (reaps {p} now s) =
      reap_expired-Keeps rt has owns live tidy base now p (Serial-IsConsistent peers rt c s)
        (Serial-Keeps c v s)
  Serial-Keeps c v (evicts now s) = Serial-Keeps c v s
  Serial-Keeps c v (closes {p} s) =
      close-Keeps rt has owns live tidy base p (Serial-IsConsistent peers rt c s)
        (Serial-Keeps c v s)

module _ {S X : Type 0} (owns : S → X → Bool) where
  -- Whether one of some sandboxes owns a resource.
  abbrev pub is_owned : X → List S → Bool
  is_owned x [] = false
  is_owned x (s ∷ ss) = owns s x || is_owned x ss

  owned_or_before :
      (x : X) (ss : List S) (before now : Bool)
      → total (λ s. bit (owns s x)) ss + bit before ≡ bit now
      → now ≡ (is_owned x ss || before)
  owned_or_before x [] before now e = ground arith
  owned_or_before x (s ∷ ss) before now e =
      ground (arith, owned_or_before x ss before now, owned_or_before x ss before false)

module _ {L R H S P X : Type 0} (peers : Peers L R) (rt : Runtime H S P) (has : X → H → Bool)
    (owns : S → X → Bool) (live : S → H → Bool) (tidy : IsTidy rt has owns live) where
  start-Keeps :
      (cfg : Settings) (ttl : ℤ) (host : H)
      → Keeps {L = L} has owns live (λ x. has x host) (start cfg ttl host)
  unfolding start new_manager register_callback
  start-Keeps cfg ttl host = record { counted = λ x. omega arith; alive = refl }

  -- From the start of the server on, while no call overlaps another one or the shutdown, over a
  -- backend that is tidy, so that every Destroy of a live sandbox frees what it owns: a container,
  -- process or directory is there exactly if it belongs to a sandbox of a registered session or was
  -- there before the server started; and the shutdown leaves exactly what was there before. So
  -- nothing is left of a request that failed or of a session that has ended, and no sandbox is lost
  -- while its session is registered.
  pub no_sandbox_outlives :
      (cfg : Settings) (ttl : ℤ) (host : H) (p : App L H S) (x : X)
      → Serial peers rt (start cfg ttl host) p
      → (has x p.env.host ≡ (is_owned owns x (registered p.mngr.sessions) || has x host))
        × (has x (close (hosted rt) p).0.env.host ≡ has x host)
  unfolding close
  no_sandbox_outlives cfg ttl host p x s =
      let c = start-IsConsistent cfg ttl host in
      let base = λ (y : X). has y host in
      let kept = Serial-Keeps peers rt has owns live tidy base c (start-Keeps cfg ttl host) s in
      let shut = close-Keeps rt has owns live tidy base p (Serial-IsConsistent peers rt c s) kept in
      (
        owned_or_before owns x (registered p.mngr.sessions) (has x host) (has x p.env.host)
            (kept.counted x),
        owned_or_before owns x [] (has x host) (has x (close (hosted rt) p).0.env.host)
            (shut.counted x),
      )
