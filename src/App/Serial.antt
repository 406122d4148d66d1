-- ===== src/App/Serial.antt =====
-- The server under calls that run one after the other: requests, attachments, ends of sessions,
-- rounds of the reaper and the shutdown.
use docpine.Base.{
  ℕ, ◌≤◌, ◌≡◌, refl, ap, ◌∙◌, ◌↔◌, inl, inr, false, Option, none, some, List, [], ◌∷◌, ◌++◌,
  append_assoc, Bytes, Dict, lookup, length, All, delete_middle, lookup_middle_eq, Bool-cases,
  Option-cases, arith, ℤ, pos, magnitude,
}
use docpine.Runtime.{Runtime}
use docpine.Http.{Request, Response}
use docpine.Session.{
  Session, notify, destroy, attach, has_expired, expired, remaining, values, reap_each, notify_each,
  destroy_each, reap_expired, close,
}
use docpine.Abuse.Guard.{Guard, Settings, Peers, Clocks, has_active_device_session}
use docpine.App.{World, App, hosted, on_session_end, start, Payload, create_session, evict_stale}
use docpine.App.Agreement.{Agrees, ended, ended-Agrees}
use docpine.App.Consistency.{
  IsKeyed, IsConsistent, guard-notify, start-IsConsistent, destroy-IsConsistent,
  attach-IsConsistent, create_session-IsConsistent,
}

All-cut {ℓ κ} :
    {A : Type ℓ} (P : A → Type κ) (xs ys : List A) → All P (xs ++ ys) → All P xs × All P ys
All-cut P [] ys h = (tt, h)
All-cut P (x ∷ xs) ys h = let (a, b) = All-cut P xs ys h.1 in ((h.0, a), b)

All-join {ℓ κ} :
    {A : Type ℓ} (P : A → Type κ) (xs ys : List A) → All P xs → All P ys → All P (xs ++ ys)
All-join P [] ys a b = b
All-join P (x ∷ xs) ys a b = (a.0, All-join P xs ys a.1 b)

All-remaining :
    {S : Type 0} (now : ℕ) (m : Dict (Session S)) → All IsKeyed m → All IsKeyed (remaining now m)
unfolding remaining
All-remaining now [] k = tt
All-remaining now ((id, s) ∷ m) k = ground (arith, All-remaining now m)

clash : {o : Option Bytes} {d : Bytes} → o ≡ none → o ≡ some d → ⊥
clash h k = cc

module _ {L H S P : Type 0} (rt : Runtime H S P) where
  -- Ending the sessions that the reaper has collected from the rest of the map, one by one.
  reap_each-Agrees :
      (now : ℕ) (fns : List (Bytes → World L H → World L H)) (kept m : Dict (Session S))
      (w : World L H)
      → fns ≡ on_session_end ∷ []
      → All IsKeyed m
      → Agrees 0 w.guard (kept ++ m)
      → Agrees 0 (reap_each (hosted rt) fns (expired now m) w).guard (kept ++ remaining now m)
  unfolding reap_each expired remaining
  reap_each-Agrees now fns kept [] w e k a = a
  reap_each-Agrees now fns kept ((id, s) ∷ m) w e k a = elim (Bool-cases (has_expired now s)) [
    | inl late ↦
        let next = (hosted {L = L} rt).destroy s.sandbox (notify fns s.id w) in
        let gone : Agrees 0 (ended id w.guard) (kept ++ m) =
          rw (delete_middle id s kept m a.distinct) at (
            ended-Agrees id s w.guard (kept ++ ((id, s) ∷ m)) a
              (lookup_middle_eq id s kept m a.distinct)) in
        let same : next.0.guard ≡ ended id w.guard =
          guard-notify s.id w fns e ∙ ap (λ i. ended i w.guard) k.0 in
        rw late (reap_each-Agrees now fns kept m next.0 e k.1 (rw same gone))
    | inr live ↦ rw live (
        rw (append_assoc kept ((id, s) ∷ []) (remaining now m)) at (
          reap_each-Agrees now fns (kept ++ ((id, s) ∷ [])) m w e k.1
            (rw (append_assoc kept ((id, s) ∷ []) m) a)))
  ]

  pub reap_expired-IsConsistent :
      (now : ℕ) (p : App L H S) → IsConsistent 0 p → IsConsistent 0 (reap_expired (hosted rt) now p)
  unfolding reap_expired
  reap_expired-IsConsistent now p c = record {
    agrees =
        reap_each-Agrees now p.mngr.on_destroy [] p.mngr.sessions p.env c.wired c.keyed c.agrees;
    keyed = All-remaining now p.mngr.sessions c.keyed;
    wired = c.wired;
  }

  -- Ending all sessions at the shutdown.
  notify_each-Agrees :
      (fns : List (Bytes → World L H → World L H)) (m : Dict (Session S)) (w : World L H)
      → fns ≡ on_session_end ∷ []
      → All IsKeyed m
      → Agrees 0 w.guard m
      → Agrees {L = L} {S = S} 0 (notify_each fns (values m) w).guard []
  unfolding notify_each values
  notify_each-Agrees fns [] w e k a = a
  notify_each-Agrees fns ((id, s) ∷ m) w e k a =
      let gone : Agrees 0 (ended id w.guard) m =
        rw (delete_middle id s [] m a.distinct) at
          (ended-Agrees id s w.guard ((id, s) ∷ m) a (lookup_middle_eq id s [] m a.distinct)) in
      let same : (notify fns s.id w).guard ≡ ended id w.guard =
        guard-notify s.id w fns e ∙ ap (λ i. ended i w.guard) k.0 in
      notify_each-Agrees fns m (notify fns s.id w) e k.1 (rw same gone)

  pub guard-destroy_each :
      (ss : List (Session S)) (w : World L H) → (destroy_each (hosted rt) ss w).0.guard ≡ w.guard
  unfolding destroy_each
  guard-destroy_each [] w = refl
  guard-destroy_each (s ∷ ss) w = guard-destroy_each ss ((hosted rt).destroy s.sandbox w).0

  close-IsConsistent : (p : App L H S) → IsConsistent 0 p → IsConsistent 0 (close (hosted rt) p).0
  unfolding close
  close-IsConsistent p c = record {
    agrees =
        rw
          (guard-destroy_each (values p.mngr.sessions)
            (notify_each p.mngr.on_destroy (values p.mngr.sessions) p.env))
          (notify_each-Agrees p.mngr.on_destroy p.mngr.sessions p.env c.wired c.keyed c.agrees);
    keyed = tt;
    wired = c.wired;
  }

  idle_device :
      (g : Guard L) → Agrees {S = S} 0 g [] → (d : Bytes) → has_active_device_session d g ≡ false
  unfolding has_active_device_session lookup
  idle_device g a d = elim (Option-cases (lookup d g.device_sessions)) [
    | inl e ↦ rw (e, has_active_device_session)
    | inr (id, e) ↦ absurd (clash ((a.live id).1 refl) ((a.paired d id).0 e))
  ]

  -- The shutdown of a consistent server frees every slot and every device, and leaves no session.
  close_frees :
      (p : App L H S) (d : Bytes)
      → IsConsistent 0 p
      → let q = (close (hosted rt) p).0 in
        (q.mngr.sessions ≡ [])
        × (q.env.guard.concurrency.active ≡ pos 0)
        × (has_active_device_session d q.env.guard ≡ false)
  unfolding close
  close_frees p d c =
      let a = (close-IsConsistent p c).agrees in
      (refl, a.balanced, idle_device (close (hosted rt) p).0.env.guard a d)

evict_stale-IsConsistent :
    {L H S : Type 0} (now : ℕ) (p : App L H S)
    → IsConsistent 0 p
    → IsConsistent 0 (evict_stale now p)
unfolding evict_stale
evict_stale-IsConsistent now p c = record {
  agrees = record {
    distinct = c.agrees.distinct;
    paired = c.agrees.paired;
    bounded = c.agrees.bounded;
    balanced = c.agrees.balanced;
    live = c.agrees.live;
  };
  keyed = c.keyed;
  wired = c.wired;
}

module _ {L R H S P : Type 0} (peers : Peers L R) (rt : Runtime H S P) where
  -- The states that calls lead to, one after the other, from a given one. The UUID of a new session
  -- is that of no registered one.
  pub data Serial (p₀ : App L H S) : App L H S → Type 0 where
    begin : Serial p₀ p₀
    creates :
        {p : App L H S} (r : Request) (payload : Payload) (device_uuid uuid : Bytes)
        (clocks : Clocks) (now : ℕ) (w : Response)
        → w.status ≡ none
        → lookup uuid p.mngr.sessions ≡ none
        → Serial p₀ p
        → Serial p₀ (create_session peers rt r payload device_uuid uuid clocks now p w).0
    attaches :
        {p : App L H S} (id : Bytes) (now : ℕ)
        → Serial p₀ p
        → Serial p₀ (attach (hosted rt) id now p).0
    ends : {p : App L H S} (id : Bytes) → Serial p₀ p → Serial p₀ (destroy (hosted rt) id p).0
    reaps : {p : App L H S} (now : ℕ) → Serial p₀ p → Serial p₀ (reap_expired (hosted rt) now p)
    evicts : {p : App L H S} (now : ℕ) → Serial p₀ p → Serial p₀ (evict_stale now p)
    closes : {p : App L H S} → Serial p₀ p → Serial p₀ (close (hosted rt) p).0

  pub Serial-IsConsistent : {p₀ p : App L H S} → IsConsistent 0 p₀ → Serial p₀ p → IsConsistent 0 p
  Serial-IsConsistent c begin = c
  Serial-IsConsistent c (creates {p} r payload du uuid clocks now w blank fresh s) =
      create_session-IsConsistent peers rt r payload du uuid clocks now p w
        (Serial-IsConsistent c s) blank fresh
  Serial-IsConsistent c (attaches {p} id now s) =
      attach-IsConsistent rt id now p (Serial-IsConsistent c s)
  Serial-IsConsistent c (ends {p} id s) = destroy-IsConsistent rt id p (Serial-IsConsistent c s)
  Serial-IsConsistent c (reaps {p} now s) =
      reap_expired-IsConsistent rt now p (Serial-IsConsistent c s)
  Serial-IsConsistent c (evicts {p} now s) =
      evict_stale-IsConsistent now p (Serial-IsConsistent c s)
  Serial-IsConsistent c (closes {p} s) = close-IsConsistent rt p (Serial-IsConsistent c s)

  -- From the start of the server on, while calls do not overlap: every registered session is bound
  -- to a device, no two of them to the same one, no session that has ended is still bound, and the
  -- counter is the number of sessions, which is at most the ceiling.
  pub one_session_per_device :
      (cfg : Settings) (ttl : ℤ) (host : H) (p : App L H S)
      → Serial (start cfg ttl host) p
      → ((id : Bytes)
          → (lookup id p.env.guard.session_devices ≡ none) ↔ (lookup id p.mngr.sessions ≡ none))
        × ((id id' d : Bytes)
            → lookup id p.env.guard.session_devices ≡ some d
            → lookup id' p.env.guard.session_devices ≡ some d
            → id ≡ id')
        × (p.env.guard.concurrency.active ≡ pos (length p.mngr.sessions))
        × (length p.mngr.sessions ≤ magnitude p.env.guard.concurrency.max_concurrent)
  one_session_per_device cfg ttl host p s =
      let a = (Serial-IsConsistent (start-IsConsistent cfg ttl host) s).agrees in
      (
        a.live,
        λ id id' d h h'. ground (arith, (a.paired d id).1 h, (a.paired d id').1 h'),
        a.balanced ∙ ap pos (omega arith),
        ground (arith, a.balanced, a.bounded),
      )
