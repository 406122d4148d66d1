-- ===== src/App/Consistency.antt =====
-- Calls that run one after the other keep the guard and the registry in agreement.
use docpine.Base.{
  ℕ, ◌≡◌, refl, ap, ◌∙◌, ◌≢◌, inl, inr, true, false, none, List, [], ◌∷◌, Bytes, lookup, All,
  All-insert, All-delete, Bool-cases, Option-cases, arith, ℤ, pos,
}
use docpine.Runtime.{Runtime, Result-cases}
use docpine.Http.{Response, Request}
use docpine.Session.{
  Session, new_manager, register_callback, notify, create_options, new_session, destroy, attach,
  has_expired,
}
use docpine.Session.Lifecycle.{create_made, create_failed}
use docpine.Abuse.Concurrency.{new_concurrency_limiter}
use docpine.Abuse.Concurrency.Bounds.{new_concurrency_limiter-IsBounded}
use docpine.Abuse.Guard.{
  Guard, Settings, Peers, Verdict, proceeds, Clocks, new_guard, has_active_device_session,
  check_anonymous_create,
}
use docpine.Abuse.Guard.Slots.{device_of}
use docpine.Abuse.Guard.Frame.{check-frame}
use docpine.Abuse.Guard.Verdicts.{check-verdict}
use docpine.App.{
  World, App, hosted, on_session_end, start, Payload, malformed, token_of, is_passed, provision,
  answer_create, create_session,
}
use docpine.App.Agreement.{
  Agrees, ended, register-Agrees, ended-Agrees, release_slot-Agrees, check-Agrees,
}

-- The session under a key has that key as its id.
abbrev pub IsKeyed : {S : Type 0} → Bytes × Session S → Type 0
IsKeyed e = e.1.id ≡ e.0

pub record IsConsistent {L H S : Type 0} (n : ℕ) (p : App L H S) : Type 0 where
  pub agrees : Agrees n p.env.guard p.mngr.sessions
  pub keyed : All IsKeyed p.mngr.sessions
  pub wired : p.mngr.on_destroy ≡ on_session_end ∷ []

pub guard-notify :
    {L H : Type 0} (id : Bytes) (w : World L H) (fns : List (Bytes → World L H → World L H))
    → fns ≡ on_session_end ∷ []
    → (notify fns id w).guard ≡ ended id w.guard
unfolding notify on_session_end
guard-notify id w fns e = rw (e, notify)

active-new : (n : ℤ) → (new_concurrency_limiter n).active ≡ pos 0
unfolding new_concurrency_limiter
active-new n = refl

has_active-same :
    {L : Type 0} (d : Bytes) (g g' : Guard L)
    → g'.device_sessions ≡ g.device_sessions
    → has_active_device_session d g' ≡ has_active_device_session d g
unfolding has_active_device_session
has_active-same d g g' e = rw (e, has_active_device_session)

pub passed-proceeds : (v : Verdict) → is_passed v ≡ true → v ≡ proceeds
passed-proceeds proceeds h = refl
passed-proceeds _ h = cc

pub not_passed-proceeds : (v : Verdict) → is_passed v ≡ false → v ≢ proceeds
not_passed-proceeds v h e = ground (arith, ap is_passed e)

module _ {L H S : Type 0} where
  -- The server is consistent as it starts.
  pub start-IsConsistent :
      (cfg : Settings) (ttl : ℤ) (host : H)
      → IsConsistent {L = L} {H = H} {S = S} 0 (start cfg ttl host)
  unfolding start new_guard new_manager register_callback lookup
  start-IsConsistent cfg ttl host = record {
    agrees = record {
      distinct = tt;
      paired = λ d s. (λ h. absurd (cc), λ h. absurd (cc));
      bounded = new_concurrency_limiter-IsBounded cfg.max_concurrent;
      balanced = active-new cfg.max_concurrent;
      live = λ id. (λ h. refl, λ h. refl);
    };
    keyed = tt;
    wired = refl;
  }

module _ {L H S P : Type 0} (rt : Runtime H S P) where
  -- Ending a session keeps the server consistent.
  pub destroy-IsConsistent :
      (id : Bytes) (p : App L H S) → IsConsistent 0 p → IsConsistent 0 (destroy (hosted rt) id p).0
  unfolding destroy
  destroy-IsConsistent id p c = elim (Option-cases (lookup id p.mngr.sessions)) [
    | inl e ↦ rw (e, destroy) c
    | inr (s, e) ↦
        rw (e, destroy)
          (record {
            agrees =
                rw (guard-notify id p.env p.mngr.on_destroy c.wired)
                  (ended-Agrees id s p.env.guard p.mngr.sessions c.agrees e);
            keyed = All-delete (IsKeyed {S = S}) id p.mngr.sessions c.keyed;
            wired = c.wired;
          })
  ]

  pub attach-IsConsistent :
      (id : Bytes) (now : ℕ) (p : App L H S)
      → IsConsistent 0 p
      → IsConsistent 0 (attach (hosted rt) id now p).0
  unfolding attach
  attach-IsConsistent id now p c = elim (Option-cases (lookup id p.mngr.sessions)) [
    | inl e ↦ rw (e, attach) c
    | inr (s, e) ↦ elim (Bool-cases (has_expired now s)) [
      | inl late ↦ rw (e, attach) (rw late (destroy-IsConsistent id p c))
      | inr fine ↦
          rw (e, attach) (rw fine (record { agrees = c.agrees; keyed = c.keyed; wired = c.wired }))
    ]
  ]

module _ {L R H S P : Type 0} (peers : Peers L R) (rt : Runtime H S P) where
  provision-IsConsistent :
      (d uuid : Bytes) (now : ℕ) (p : App L H S) (w : Response)
      → IsConsistent 1 p
      → has_active_device_session d p.env.guard ≡ false
      → lookup uuid p.mngr.sessions ≡ none
      → IsConsistent 0 (provision peers rt d uuid now p w).0
  unfolding provision answer_create
  provision-IsConsistent d uuid now p w c idle fresh =
      elim (Result-cases (rt.create_sandbox (create_options uuid) p.env.host).1) [
        | inl (s, made) ↦
            rw (create_made (hosted rt) uuid now p s made, provision)
              (record {
                agrees =
                    register-Agrees d uuid (new_session p.mngr.ttl uuid s now) p.env.guard
                      p.mngr.sessions c.agrees idle fresh;
                keyed =
                    All-insert (IsKeyed {S = S}) uuid (new_session p.mngr.ttl uuid s now)
                      p.mngr.sessions refl c.keyed;
                wired = c.wired;
              })
        | inr (e, failed) ↦
            rw (create_failed (hosted rt) uuid now p e failed, provision)
              (record {
                agrees = release_slot-Agrees p.env.guard p.mngr.sessions c.agrees;
                keyed = c.keyed;
                wired = c.wired;
              })
      ]

  -- A create request keeps a consistent server consistent, whatever its outcome, if the UUID is
  -- that of no registered session.
  pub create_session-IsConsistent :
      (r : Request) (payload : Payload) (device_uuid uuid : Bytes) (clocks : Clocks) (now : ℕ)
      (p : App L H S) (w : Response)
      → IsConsistent 0 p
      → w.status ≡ none
      → lookup uuid p.mngr.sessions ≡ none
      → IsConsistent 0 (create_session peers rt r payload device_uuid uuid clocks now p w).0
  unfolding create_session
  create_session-IsConsistent r malformed du uuid clocks now p w c blank fresh = c
  create_session-IsConsistent r payload du uuid clocks now p w c blank fresh =
      let o = check_anonymous_create peers r (token_of payload) du clocks p.env.guard w in
      let (passes, fails) =
        check-Agrees peers r (token_of payload) du clocks p.env.guard w p.mngr.sessions c.agrees in
      elim (Bool-cases (is_passed o.verdict)) [
        | inl go ↦
            let v = passed-proceeds o.verdict go in
            let (same, device) = check-frame peers r (token_of payload) du clocks p.env.guard w in
            let idle =
              ((check-verdict peers r (token_of payload) du clocks p.env.guard w blank).0.0 v).0 in
            let q : App L H S = record p { env = record (p.env) { guard = o.guard } } in
            rw (go, create_session)
              (provision-IsConsistent o.device_id uuid now q o.response
                (record { agrees = passes v; keyed = c.keyed; wired = c.wired })
                (rw device (
                  has_active-same (device_of peers r du clocks p.env.guard) p.env.guard o.guard
                    same.0
                  ∙ idle))
                fresh)
        | inr stop ↦
            rw (stop, create_session)
              (record {
                agrees = fails (not_passed-proceeds o.verdict stop);
                keyed = c.keyed;
                wired = c.wired;
              })
      ]
