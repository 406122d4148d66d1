-- ===== src/Session/Lifecycle.antt =====
-- A session from `Create` over `Attach` to `Destroy`.
use docpine.Base.{
  ℕ, ◌+◌, ◌≡◌, sym, ◌≢◌, ◌⊎◌, inl, inr, none, Bytes, lookup, insert, delete, lookup-insert,
  lookup-delete, ltb, if◌then◌else◌, str_eq, str_eq_refl, str_eq_ne, Bool-cases, Option-cases,
  arith, codes, delete_absent,
}
use docpine.Runtime.{
  Error, session_not_found, session_expired, wrap, ok, err, Runtime, Result-cases,
}
use docpine.Session.{
  Session, Process, has_expired, create_options, new_session, create, destroy, attach, get,
}

module _ {W S P : Type 0} (rt : Runtime W S P) where
  pub create_made :
      (uuid : Bytes) (now : ℕ) (p : Process W S) (s : S)
      → (rt.create_sandbox (create_options uuid) p.env).1 ≡ ok s
      → create rt uuid now p ≡ (
        record {
          mngr = record (p.mngr) {
            sessions = insert uuid (new_session p.mngr.ttl uuid s now) p.mngr.sessions;
          };
          env = (rt.create_sandbox (create_options uuid) p.env).0;
        },
        ok uuid,
      )
  unfolding create
  create_made uuid now p s e = rw (e, create)

  pub create_failed :
      (uuid : Bytes) (now : ℕ) (p : Process W S) (x : Error)
      → (rt.create_sandbox (create_options uuid) p.env).1 ≡ err x
      → create rt uuid now p ≡ (
        record p { env = (rt.create_sandbox (create_options uuid) p.env).0 },
        err (wrap (codes "runtime failed to create sandbox") x),
      )
  unfolding create
  create_failed uuid now p x e = rw (e, create)

  create-eq_ok :
      (uuid : Bytes) (now : ℕ) (p q : Process W S) (id : Bytes)
      → create rt uuid now p ≡ (q, ok id)
      → (s : S) × ((rt.create_sandbox (create_options uuid) p.env).1 ≡ ok s)
        × (id ≡ uuid)
        × (q.mngr.sessions ≡ insert uuid (new_session p.mngr.ttl uuid s now) p.mngr.sessions)
  unfolding create
  create-eq_ok uuid now p q id h =
      elim (Result-cases (rt.create_sandbox (create_options uuid) p.env).1) [
        | inl (s, e) ↦ (s, e, ground arith, ground arith)
        | inr (x, e) ↦ absurd (ground arith)
      ]

  -- A `Create` that succeeds returns the fresh id; from then on `Get` finds under it the session of
  -- the sandbox that the runtime made, up to and including its expiry, and reports it as expired
  -- afterwards; and it finds under every other id what it found before.
  pub create-get :
      (uuid : Bytes) (now : ℕ) (p q : Process W S) (id : Bytes)
      → create rt uuid now p ≡ (q, ok id)
      → (id ≡ uuid)
        × ((s : S) × ((rt.create_sandbox (create_options uuid) p.env).1 ≡ ok s)
            × ((later : ℕ)
                → get uuid later q.mngr ≡ (
                    if ltb (now + p.mngr.ttl) later
                    then err session_expired
                    else ok (new_session p.mngr.ttl uuid s now))))
        × ((j : Bytes) (later : ℕ) → uuid ≢ j → get j later q.mngr ≡ get j later p.mngr)
  unfolding get
  create-get uuid now p q id h =
      let (s, made, same, entries) = create-eq_ok uuid now p q id h in
      (
        same,
        (
          s,
          made,
          λ later. rw (
            entries,
            get,
            lookup-insert uuid uuid (new_session p.mngr.ttl uuid s now) p.mngr.sessions,
            str_eq_refl uuid,
          ),
        ),
        λ j later ne. rw (
          entries,
          get,
          lookup-insert uuid j (new_session p.mngr.ttl uuid s now) p.mngr.sessions,
          str_eq_ne uuid j ne,
        ),
      )

  -- A `Create` that fails registers nothing.
  create-err :
      (uuid : Bytes) (now : ℕ) (p q : Process W S) (x : Error)
      → create rt uuid now p ≡ (q, err x)
      → (q.mngr ≡ p.mngr)
        × ((e : Error) × ((rt.create_sandbox (create_options uuid) p.env).1 ≡ err e))
  unfolding create
  create-err uuid now p q x h =
      elim (Result-cases (rt.create_sandbox (create_options uuid) p.env).1) [
        | inl (s, e) ↦ absurd (ground arith)
        | inr (y, e) ↦ (ground arith, (y, e))
      ]

  sessions-destroy :
      (id : Bytes) (p : Process W S) → (destroy rt id p).0.mngr.sessions ≡ delete id p.mngr.sessions
  unfolding destroy
  sessions-destroy id p = elim (Option-cases (lookup id p.mngr.sessions)) [
    | inl e ↦ rw (e, destroy) (sym (delete_absent id p.mngr.sessions e))
    | inr (s, e) ↦ rw (e, destroy)
  ]

  destroy_absent :
      (id : Bytes) (p : Process W S)
      → lookup id p.mngr.sessions ≡ none
      → destroy rt id p ≡ (p, none)
  unfolding destroy
  destroy_absent id p e = rw (e, destroy)

  lookup-destroy :
      (id j : Bytes) (p : Process W S)
      → lookup j (destroy rt id p).0.mngr.sessions
        ≡ (if str_eq id j then none else lookup j p.mngr.sessions)
  lookup-destroy id j p = rw (sessions-destroy id p) (lookup-delete id j p.mngr.sessions)

  lookup-destroy_self :
      (id : Bytes) (p : Process W S) → lookup id (destroy rt id p).0.mngr.sessions ≡ none
  lookup-destroy_self id p = ground (arith, lookup-destroy id id p, str_eq_refl id)

  -- `Destroy` removes the session and leaves every other one; done twice it is done once, and the
  -- second call reports no error.
  pub destroy_lem :
      (id j : Bytes) (p : Process W S)
      → let q = (destroy rt id p).0 in
        (lookup j q.mngr.sessions ≡ (if str_eq id j then none else lookup j p.mngr.sessions))
        × (destroy rt id q ≡ (q, none))
  destroy_lem id j p =
      (lookup-destroy id j p, destroy_absent id (destroy rt id p).0 (lookup-destroy_self id p))

  -- `Attach` reports a session that is not registered and changes nothing; one past its expiry it
  -- destroys; any other it leaves in place, and answers with what the sandbox answers.
  pub attach_cases :
      (id : Bytes) (now : ℕ) (p : Process W S)
      → ((get id now p.mngr ≡ err session_not_found)
          × (attach rt id now p ≡ (p, err session_not_found)))
        ⊎ ((get id now p.mngr ≡ err session_expired)
            × (attach rt id now p ≡ ((destroy rt id p).0, err session_expired))
            × (lookup id (attach rt id now p).0.mngr.sessions ≡ none))
        ⊎ ((s : Session S) × (get id now p.mngr ≡ ok s)
            × ((attach rt id now p).0.mngr ≡ p.mngr)
            × ((attach rt id now p).1 ≡ (rt.attach_pty s.sandbox p.env).1))
  unfolding attach get
  attach_cases id now p = elim (Option-cases (lookup id p.mngr.sessions)) [
    | inl e ↦ inl (ground arith, ground arith)
    | inr (s, e) ↦ elim (Bool-cases (has_expired now s)) [
      | inl late ↦ inr (inl (ground arith, ground arith, ground (arith, lookup-destroy_self id p)))
      | inr live ↦ inr (inr (s, ground arith, ground arith, ground arith))
    ]
  ]
