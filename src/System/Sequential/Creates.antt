-- ===== src/System/Sequential/Creates.antt =====
-- A call of the create handler as the accesses of one thread.
use docpine.Base.{
  ◌≡◌, ◌≢◌, refl, sym, ap, ◌∙◌, inl, inr, true, false, none, Bytes, lookup, ℕ, Bool, if◌then◌else◌,
}
use mathlib.Core.Path.{subst}
use docpine.Runtime.{Runtime, Result-cases}
use docpine.Http.{Request, Response}
use docpine.Session.{create_options, new_session}
use docpine.Session.Lifecycle.{create_made, create_failed}
use docpine.Abuse.Concurrency.{ConcurrencyLimiter, loading, released, try_acquire}
use docpine.Abuse.RateLimiter.{RateLimiter}
use docpine.Abuse.Guard.{
  Guard, Peers, Verdict, proceeds, Clocks, has_active_device_session, register_session,
  release_slot, check_anonymous_create,
}
use docpine.Abuse.Guard.Slots.{device_of, is_proceeds, check-cases}
use docpine.Abuse.Guard.Frame.{seen, check-SameRest, check-frame}
use docpine.App.Answers.{create_session_read}
use docpine.App.{
  App, hosted, Payload, malformed, null, token, token_of, is_passed, provision, answer_create,
  create_session,
}
use docpine.System.{
  Thread, checking, acquiring, holding, provisioning, releasing, Shared, limited, starts, find_free,
  refuse, pass, provision_failed, provisioned, bind,
}
use docpine.System.Progress.{is_done}
use docpine.System.Solo.{Moves, stays, moves, Moves-trans, solo_acquire, solo_release}
use docpine.System.Sequential.{view, Runs}

-- A test that the handler makes on a verdict, and the guard's.
passes_as : (v : Verdict) → is_passed v ≡ is_proceeds v
passes_as proceeds = refl
passes_as _ = refl

module _ {L R H S P : Type 0} (rl : RateLimiter L) (peers : Peers L R) (rt : Runtime H S P) where
  provision-Moves :
      (d uuid : Bytes) (now : ℕ) (p : App L H S) (w : Response)
      → lookup uuid p.mngr.sessions ≡ none
      → (t : Thread) × (is_done t ≡ true)
        × Moves (view rl p) (provisioning d) (view rl (provision peers rt d uuid now p w).0) t
  unfolding provision answer_create register_session release_slot
  provision-Moves d uuid now p w fresh =
      elim (Result-cases (rt.create_sandbox (create_options uuid) p.env.host).1) [
        | inl (s, made) ↦
            rw (create_made (hosted rt) uuid now p s made, provision)
              (
                releasing released,
                refl,
                moves (provisioned d (new_session p.mngr.ttl uuid s now) fresh)
                    (moves (bind d uuid) stays),
              )
        | inr (e, failed) ↦
            rw (create_failed (hosted rt) uuid now p e failed, provision)
              (releasing released, refl, moves (provision_failed d) (solo_release (view rl p)))
      ]

  seen-idle :
      (d : Bytes) (g : Guard L)
      → has_active_device_session d g ≡ false
      → has_active_device_session d (seen rl g) ≡ false
  unfolding has_active_device_session
  seen-idle d g idle = idle

  -- The way of a request to a slot, or to its refusal.
  free-Moves :
      (d : Bytes) (s : Shared L S) (granted : Bool)
      → has_active_device_session d s.guard ≡ false
      → (try_acquire s.guard.concurrency).1 ≡ granted
      → Moves s
          (checking d)
          (limited s (try_acquire s.guard.concurrency).0)
          (if granted then holding d else releasing released)
  free-Moves d s granted idle e = moves (find_free d idle) (
      subst
        (λ b.
          Moves s (acquiring d loading) (limited s (try_acquire s.guard.concurrency).0)
            (if b then holding d else releasing released))
        e (solo_acquire d s))

  -- A call whose check leaves the limiter as one of the ways to a refusal does.
  refused-Runs :
      (p q : App L H S) (t : Thread) (c : ConcurrencyLimiter)
      → starts t ≡ true
      → Moves (view rl p) t (limited (view rl p) c) (releasing released)
      → view rl q ≡ limited (view rl p) c
      → Runs rl p q
  refused-Runs p q t c h ms e = inr (
    t,
    releasing released,
    h,
    refl,
    subst (λ x. Moves (view rl p) t x (releasing released)) (sym e) ms,
  )

  passed-Runs :
      (d uuid : Bytes) (now : ℕ) (p q : App L H S) (w : Response)
      → has_active_device_session d p.env.guard ≡ false
      → (try_acquire p.env.guard.concurrency).1 ≡ true
      → view rl q ≡ limited (view rl p) (try_acquire p.env.guard.concurrency).0
      → lookup uuid q.mngr.sessions ≡ none
      → Runs rl p (provision peers rt d uuid now q w).0
  passed-Runs d uuid now p q w idle granted e fresh =
      let (t, done, ms) = provision-Moves d uuid now q w fresh in
      let there : Moves (view rl p) (checking d) (view rl q) (holding d) =
        subst (λ x. Moves (view rl p) (checking d) x (holding d)) (sym e)
          (free-Moves d (view rl p) true (seen-idle d p.env.guard idle) granted) in
      inr (checking d, t, refl, done, Moves-trans there (moves (pass d) ms))

  well_formed-Runs :
      (r : Request) (payload : Payload) (du uuid : Bytes) (clocks : Clocks) (now : ℕ)
      (p : App L H S) (w : Response)
      → payload ≢ malformed
      → lookup uuid p.mngr.sessions ≡ none
      → Runs rl p (create_session peers rt r payload du uuid clocks now p w).0
  well_formed-Runs r payload du uuid clocks now p w n fresh =
      let g = p.env.guard in
      let t = token_of payload in
      let s = view rl p in
      let d = device_of peers r du clocks g in
      let o = check_anonymous_create peers r t du clocks g w in
      let q : App L H S = record p { env = record (p.env) { guard = o.guard } } in
      let shown : view rl q ≡ limited s o.guard.concurrency =
        ap (λ x. record s { guard = x }) (check-SameRest peers rl r t du clocks g w) in
      let device : o.device_id ≡ d = (check-frame peers r t du clocks g w).1 in
      let read = create_session_read peers rt r payload du uuid clocks now p w in
      elim (check-cases peers r t du clocks g w) [
        | inl (busy, refused, same) ↦
            subst (Runs rl p) (sym (ap (λ x. x.0) (read false n (passes_as o.verdict ∙ refused))))
              (inl (shown ∙ ap (limited s) same))
        | inr (inl (idle, full, refused, same)) ↦
            subst (Runs rl p) (sym (ap (λ x. x.0) (read false n (passes_as o.verdict ∙ refused)))) (
              refused-Runs p q (checking d) _ refl (free-Moves d s false (seen-idle d g idle) full)
                (shown ∙ ap (limited s) same))
        | inr (inr (inl (idle, granted, passed, same))) ↦
            subst (Runs rl p) (sym (ap (λ x. x.0) (read true n (passes_as o.verdict ∙ passed)))) (
              rw device (
                passed-Runs d uuid now p q o.response idle granted (shown ∙ ap (limited s) same)
                  fresh))
        | inr (inr (inr (idle, granted, refused, same))) ↦
            subst (Runs rl p) (sym (ap (λ x. x.0) (read false n (passes_as o.verdict ∙ refused)))) (
              refused-Runs p q (checking d) _ refl
                (Moves-trans (free-Moves d s true (seen-idle d g idle) granted)
                  (moves (refuse d) (solo_release (limited s (try_acquire g.concurrency).0))))
                (shown ∙ ap (limited s) same))
      ]

  pub create_session-Runs :
      (r : Request) (payload : Payload) (du uuid : Bytes) (clocks : Clocks) (now : ℕ)
      (p : App L H S) (w : Response)
      → lookup uuid p.mngr.sessions ≡ none
      → Runs rl p (create_session peers rt r payload du uuid clocks now p w).0
  unfolding create_session
  create_session-Runs r malformed du uuid clocks now p w fresh = inl refl
  create_session-Runs r null du uuid clocks now p w fresh =
      well_formed-Runs r null du uuid clocks now p w (λ e. cc) fresh
  create_session-Runs r (token t) du uuid clocks now p w fresh =
      well_formed-Runs r (token t) du uuid clocks now p w (λ e. cc) fresh
