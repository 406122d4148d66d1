-- ===== src/App/Answers.antt =====
-- What POST /sessions answers, and what it has done then.
use mathlib.Core.Path.{subst}
use docpine.Base.{
  ℕ, suc, ◌≡◌, ◌≢◌, refl, sym, ap, ◌∙◌, ◌⊎◌, inl, inr, Bool, true, false, none, some, Bytes, lookup,
  insert, length, lookup-insert_self, length-insert_fresh, ◌+◌, if◌then◌else◌, arith, Bool-cases,
  pos,
}
use docpine.Runtime.{Error, Runtime, ok, err, Result-cases}
use docpine.Http.{Request, Response, write_header, send_json, send_error}
use docpine.Session.{Session, create_options, new_session}
use docpine.Session.Lifecycle.{create_made, create_failed}
use docpine.Abuse.Guard.{
  Peers, Clocks, proceeds, Outcome, register_session, release_slot, check_anonymous_create,
}
use docpine.Abuse.Guard.Slots.{device_of}
use docpine.Abuse.Guard.Frame.{SameBindings, check-frame}
use docpine.Abuse.Guard.Verdicts.{status_of, check-verdict}
use docpine.App.{
  App, hosted, Payload, malformed, null, token, token_of, is_passed, answer_create, provision,
  create_session,
}
use docpine.App.Consistency.{
  IsConsistent, passed-proceeds, not_passed-proceeds, create_session-IsConsistent,
}

status-write_header :
    (code : ℕ) (w : Response) → w.status ≡ none → (write_header code w).status ≡ some code
status-write_header code w blank = rw (blank, write_header) refl

module _ {L R H S P : Type 0} (peers : Peers L R) (rt : Runtime H S P) where
  -- The world after the check.
  abbrev checked : Outcome L → App L H S → App L H S
  checked o p = record p { env = record (p.env) { guard = o.guard } }

  -- A request whose body can be read, by what its check says.
  pub create_session_read :
      (r : Request) (payload : Payload) (du uuid : Bytes) (clocks : Clocks) (now : ℕ)
      (p : App L H S) (w : Response) (b : Bool)
      → payload ≢ malformed
      → let o = check_anonymous_create peers r (token_of payload) du clocks p.env.guard w in
        is_passed o.verdict ≡ b
        → create_session peers rt r payload du uuid clocks now p w ≡ (
            if b
            then provision peers rt o.device_id uuid now (checked o p) o.response
            else (checked o p, o.response))
  unfolding create_session
  create_session_read r malformed du uuid clocks now p w b n e = absurd (n refl)
  create_session_read r null du uuid clocks now p w b n e = rw (e, create_session) refl
  create_session_read r (token t) du uuid clocks now p w b n e = rw (e, create_session) refl

  -- The sandbox could not be made.
  abbrev Fails : Bytes → App L H S → App L H S × Response → Type 0
  Fails uuid p x =
      ((e : Error) × ((rt.create_sandbox (create_options uuid) p.env.host).1 ≡ err e))
      × (x.1.status ≡ some 500)
      × (x.0.mngr ≡ p.mngr)
      × SameBindings p.env.guard x.0.env.guard

  -- The session is registered, and bound to its device.
  abbrev Makes : Bytes → Bytes → ℕ → App L H S → App L H S × Response → Type 0
  Makes d uuid now p x =
      ((s : S) × ((rt.create_sandbox (create_options uuid) p.env.host).1 ≡ ok s)
        × (x.0.mngr.sessions ≡ insert uuid (new_session p.mngr.ttl uuid s now) p.mngr.sessions))
      × (x.1.status ≡ some 201)
      × (lookup d x.0.env.guard.device_sessions ≡ some uuid)
      × (lookup uuid x.0.env.guard.session_devices ≡ some d)

  provision_cases :
      (d uuid : Bytes) (now : ℕ) (p : App L H S) (w : Response)
      → w.status ≡ none
      → Fails uuid p (provision peers rt d uuid now p w)
        ⊎ Makes d uuid now p (provision peers rt d uuid now p w)
  unfolding provision answer_create register_session release_slot send_json send_error
  provision_cases d uuid now p w blank =
      elim (Result-cases (rt.create_sandbox (create_options uuid) p.env.host).1) [
        | inl (s, made) ↦ inr (
            rw (create_made (hosted rt) uuid now p s made, provision)
              (
                (s, made, refl),
                status-write_header 201 _ blank,
                lookup-insert_self d uuid p.env.guard.device_sessions,
                lookup-insert_self uuid d p.env.guard.session_devices,
              ))
        | inr (e, failed) ↦ inl (
            rw (create_failed (hosted rt) uuid now p e failed, provision)
              ((e, failed), status-write_header 500 _ blank, refl, (refl, refl)))
      ]

  -- The request changed nothing but the buckets and the count of rejections.
  abbrev Unchanged : App L H S → App L H S → Type 0
  Unchanged p q =
      (q.mngr ≡ p.mngr)
      × SameBindings p.env.guard q.env.guard
      × (q.env.guard.concurrency.active ≡ p.env.guard.concurrency.active)

  same_count :
      (p q : App L H S)
      → IsConsistent 0 p
      → IsConsistent 0 q
      → q.mngr ≡ p.mngr
      → q.env.guard.concurrency.active ≡ p.env.guard.concurrency.active
  same_count p q c c' e =
      c'.agrees.balanced ∙ ap (λ m. pos (length m.sessions + 0)) e ∙ sym c.agrees.balanced

  one_more :
      (uuid : Bytes) (s : Session S) (p q : App L H S)
      → IsConsistent 0 q
      → lookup uuid p.mngr.sessions ≡ none
      → q.mngr.sessions ≡ insert uuid s p.mngr.sessions
      → q.env.guard.concurrency.active ≡ pos (suc (length p.mngr.sessions))
  one_more uuid s p q c fresh e =
      c.agrees.balanced
      ∙ ap pos (
          ap (λ m. length m + 0) e
          ∙ omega (arith, length-insert_fresh uuid s p.mngr.sessions fresh))

  read_cases :
      (r : Request) (payload : Payload) (du uuid : Bytes) (clocks : Clocks) (now : ℕ)
      (p : App L H S) (w : Response)
      → payload ≢ malformed
      → w.status ≡ none
      → let o = check_anonymous_create peers r (token_of payload) du clocks p.env.guard w in
        let x = create_session peers rt r payload du uuid clocks now p w in
        ((o.verdict ≢ proceeds)
          × (x.1.status ≡ status_of o.verdict)
          × (x.0.mngr ≡ p.mngr)
          × SameBindings p.env.guard x.0.env.guard)
        ⊎ ((o.verdict ≡ proceeds)
            × (Fails uuid p x ⊎ Makes (device_of peers r du clocks p.env.guard) uuid now p x))
  read_cases r payload du uuid clocks now p w n blank =
      let g = p.env.guard in
      let t = token_of payload in
      let o = check_anonymous_create peers r t du clocks g w in
      let (same, device) = check-frame peers r t du clocks g w in
      let (_, status) = check-verdict peers r t du clocks g w blank in
      elim (Bool-cases (is_passed o.verdict)) [
        | inl passed ↦
            let v = passed-proceeds o.verdict passed in
            let made : (p' : App L H S) × Response =
              provision peers rt o.device_id uuid now (checked o p) o.response in
            let run = create_session_read r payload du uuid clocks now p w true n passed in
            inr (
              v,
              subst (λ x. Fails uuid p x ⊎ Makes (device_of peers r du clocks g) uuid now p x)
                  (sym run)
                  (elim (provision_cases o.device_id uuid now (checked o p) o.response
                    (status ∙ ap status_of v)) [
                      | inl (e, st, m, b) ↦ inl (e, st, m, (b.0 ∙ same.0, b.1 ∙ same.1))
                      | inr good ↦ inr (subst (λ d. Makes d uuid now p made) device good)
                    ]),
            )
        | inr refused ↦ inl (
            rw (create_session_read r payload du uuid clocks now p w false n refused)
              (not_passed-proceeds o.verdict refused, status, refl, same))
      ]

  -- The four ways of a create request that ends with the server `x.0` and the answer `x.1`.
  abbrev pub Answered :
      Request
      → Payload
      → Bytes
      → Bytes
      → Clocks
      → ℕ
      → App L H S
      → Response
      → App L H S × Response
      → Type 0
  Answered r payload du uuid clocks now p w x =
      let v = (check_anonymous_create peers r (token_of payload) du clocks p.env.guard w).verdict in
      let d = device_of peers r du clocks p.env.guard in
      let made = (rt.create_sandbox (create_options uuid) p.env.host).1 in
      ((payload ≡ malformed) × (x.1.status ≡ some 400) × (x.0 ≡ p))
      ⊎ ((payload ≢ malformed) × (v ≢ proceeds) × (x.1.status ≡ status_of v) × Unchanged p x.0)
      ⊎ ((payload ≢ malformed)
          × (v ≡ proceeds)
          × ((e : Error) × (made ≡ err e))
          × (x.1.status ≡ some 500)
          × Unchanged p x.0)
      ⊎ ((payload ≢ malformed)
          × (v ≡ proceeds)
          × ((s : S) × (made ≡ ok s)
              × (x.0.mngr.sessions
                  ≡ insert uuid (new_session p.mngr.ttl uuid s now) p.mngr.sessions))
          × (x.1.status ≡ some 201)
          × (lookup d x.0.env.guard.device_sessions ≡ some uuid)
          × (lookup uuid x.0.env.guard.session_devices ≡ some d)
          × (x.0.env.guard.concurrency.active ≡ pos (suc (length p.mngr.sessions))))

  -- What a create request comes to, from a consistent server, with a blank answer and a fresh id:
  -- a body that cannot be read is answered with 400 and changes nothing; a request that a layer of
  -- the guard refuses gets the status of that layer, one whose sandbox cannot be made gets 500, and
  -- both leave sessions, bindings and the slot count as they were; any other is answered with 201,
  -- and its session is registered, bound to its device and counted.
  pub create_session_cases :
      (r : Request) (payload : Payload) (du uuid : Bytes) (clocks : Clocks) (now : ℕ)
      (p : App L H S) (w : Response)
      → IsConsistent 0 p
      → w.status ≡ none
      → lookup uuid p.mngr.sessions ≡ none
      → Answered r payload du uuid clocks now p w
          (create_session peers rt r payload du uuid clocks now p w)
  unfolding create_session send_error
  create_session_cases r malformed du uuid clocks now p w c blank fresh =
      inl (refl, status-write_header 400 _ blank, refl)
  create_session_cases r payload du uuid clocks now p w c blank fresh =
      let q = (create_session peers rt r payload du uuid clocks now p w).0 in
      let n : payload ≢ malformed = λ e. cc in
      let c' =
        create_session-IsConsistent peers rt r payload du uuid clocks now p w c blank fresh in
      elim (read_cases r payload du uuid clocks now p w n blank) [
        | inl (v, st, m, b) ↦ inr (inl (n, v, st, (m, b, same_count p q c c' m)))
        | inr (v, inl (e, st, m, b)) ↦ inr (inr (inl (n, v, e, st, (m, b, same_count p q c c' m))))
        | inr (v, inr ((s, made, e), st, by_device, by_session)) ↦ inr (
            inr
              (inr (n, v, (s, made, e), st, by_device, by_session, one_more uuid _ p q c' fresh e)))
      ]
