-- ===== src/App.antt =====
-- cmd/docpine/main.go, as far as it joins the components, and the handler of `POST /sessions` in
-- internal/transport/http/session_handler.go, which drives them. The world of the session manager
-- is the guard beside the host that the runtime acts on.
pub mod Agreement
pub mod Consistency
pub mod Serial
pub mod Sandboxes
pub mod Lifetime
pub mod Order
pub mod Answers
mod Tests
use docpine.Base.{ℕ, Bool, true, false, [], ◌∷◌, Bytes, codes, if◌then◌else◌, ℤ, pos}
use docpine.Runtime.{Result, ok, err, Runtime}
use docpine.Http.{text, num, Response, Request, send_json, send_error}
use docpine.Session.{Process, new_manager, register_callback, create}
use docpine.Abuse.Concurrency.{release}
use docpine.Abuse.RateLimiter.{evict}
use docpine.Abuse.Guard.{
  Guard, Settings, Peers, Verdict, proceeds, Clocks, new_guard, register_session, release_session,
  release_slot, check_anonymous_create,
}

pub record World (L H : Type 0) : Type 0 where
  pub guard : Guard L
  pub host : H

abbrev pub App : Type 0 → Type 0 → Type 0 → Type 0
App L H S = Process (World L H) S

abbrev on_host : {L H A : Type 0} → World L H → H × A → World L H × A
on_host w (h, a) = (record w { host = h }, a)

-- The runtime acts on the host alone.
abbrev pub hosted : {L H S P : Type 0} → Runtime H S P → Runtime (World L H) S P
hosted rt = record {
  name = rt.name;
  check_prerequisites = λ w. on_host w (rt.check_prerequisites w.host);
  create_sandbox = λ opts w. on_host w (rt.create_sandbox opts w.host);
  close = λ w. on_host w (rt.close w.host);
  id = rt.id;
  cgroup_id = λ s w. on_host w (rt.cgroup_id s w.host);
  attach_pty = λ s w. on_host w (rt.attach_pty s w.host);
  destroy = λ s w. on_host w (rt.destroy s w.host);
}

-- The callback that `main` registers with `mngr.OnDestroy`.
unfoldable pub on_session_end : {L H : Type 0} → Bytes → World L H → World L H
on_session_end session_id w =
    let g = release_session session_id w.guard in
    record w { guard = record g { concurrency = release g.concurrency } }

-- The components as `main` makes them.
unfoldable pub start : {L H S : Type 0} → Settings → ℤ → H → App L H S
start cfg ttl host = record {
  mngr = register_callback on_session_end (new_manager (ttl ∷ []));
  env = record { guard = new_guard cfg; host = host };
}

-- What decoding the body of a create request gives: an error, null, or a payload with its token.
pub data Payload : Type 0 where
  malformed null : Payload
  token : Bytes → Payload

-- The token that the guard reads.
abbrev pub token_of : Payload → Bytes
token_of malformed = []
token_of null = []
token_of (token t) = t

abbrev pub is_passed : Verdict → Bool
is_passed proceeds = true
is_passed _ = false

-- What the handler makes of the result of mngr.Create.
unfoldable pub answer_create :
    {L H S : Type 0} → Bytes → Response → App L H S → Result Bytes → App L H S × Response
answer_create device_id w q (err e) = (
  record q { env = record (q.env) { guard = (release_slot false q.env.guard).1 } },
  send_error (codes "internal server error provisioning sandbox") 500 w,
)
answer_create device_id w q (ok session_id) = (
  record q { env = record (q.env) { guard = register_session device_id session_id q.env.guard } },
  send_json ((codes "session_id", text session_id) ∷ (codes "expires_in_sec", num (pos 300)) ∷ [])
      201 w,
)

-- A round of the goroutine that evicts buckets.
unfoldable pub evict_stale : {L H S : Type 0} → ℕ → App L H S → App L H S
evict_stale now p =
    let g = p.env.guard in
    record p {
      env = record (p.env) { guard = record g { rate_limiter = evict now g.rate_limiter } };
    }

module _ {L R H S P : Type 0} (peers : Peers L R) (rt : Runtime H S P) where
  -- What is left once the guard lets the request pass.
  unfoldable pub provision : Bytes → Bytes → ℕ → App L H S → Response → App L H S × Response
  provision device_id uuid now p w =
      let (q, made) = create (hosted rt) uuid now p in answer_create device_id w q made

  -- SessionHandler.Create. `device_uuid` and `uuid` are the fresh ids for a device and for a
  -- session.
  unfoldable pub create_session :
      Request → Payload → Bytes → Bytes → Clocks → ℕ → App L H S → Response → App L H S × Response
  create_session r malformed device_uuid uuid clocks now p w =
      (p, send_error (codes "invalid request payload") 400 w)
  create_session r payload device_uuid uuid clocks now p w =
      let o = check_anonymous_create peers r (token_of payload) device_uuid clocks p.env.guard w in
      let q = record p { env = record (p.env) { guard = o.guard } } in
      if is_passed o.verdict then provision o.device_id uuid now q o.response else (q, o.response)
