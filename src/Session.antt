-- ===== src/Session.antt =====
-- internal/session/manager.go: the registry of sessions, their expiry and their end. Times are
-- nanoseconds on the clock that `time.Now` reads, an argument of each call; so is the fresh UUID.
-- `W` is the world that the runtime and the callbacks act on.
pub mod Lookup
pub mod Lifecycle
pub mod Reaper
mod Tests
use docpine.Base.{
  ℕ, ◌+◌, ◌*◌, Bool, Option, none, some, List, [], ◌∷◌, ◌++◌, Bytes, codes, Dict, lookup, insert,
  delete, count, ltb, if◌then◌else◌, ℤ, pos, is_nonpos, magnitude,
}
use docpine.Background.{Wake, run_loop}
use docpine.Runtime.{
  Error, session_not_found, session_expired, other, wrap, Result, ok, err, SandboxOptions, Runtime,
}

-- 5 * time.Minute
abbrev pub default_ttl : ℕ
default_ttl = 300 * 1_000_000_000

-- 10 * time.Second
abbrev pub reaper_interval : ℕ
reaper_interval = 10 * 1_000_000_000

pub record Session (S : Type 0) : Type 0 where
  pub id : Bytes
  pub sandbox : S
  pub created_at : ℕ
  pub expires_at : ℕ

pub record Manager (W S : Type 0) : Type 0 where
  pub ttl : ℕ
  pub sessions : Dict (Session S)
  pub on_destroy : List (Bytes → W → W)

-- The manager and the world beside it.
pub record Process (W S : Type 0) : Type 0 where
  pub mngr : Manager W S
  pub env : W

-- now.After(s.ExpiresAt)
abbrev pub has_expired : {S : Type 0} → ℕ → Session S → Bool
has_expired now s = ltb s.expires_at now

-- The optional argument of `NewManager`: only the first is read, and only a positive one counts.
session_ttl : List ℤ → ℕ
session_ttl [] = default_ttl
session_ttl (t ∷ rest) = if is_nonpos t then default_ttl else magnitude t

unfoldable pub new_manager : {W S : Type 0} → List ℤ → Manager W S
unfolding session_ttl
new_manager ttl = record { ttl = session_ttl ttl; sessions = []; on_destroy = [] }

-- Manager.OnDestroy
unfoldable pub register_callback : {W S : Type 0} → (Bytes → W → W) → Manager W S → Manager W S
register_callback fn m = record m { on_destroy = m.on_destroy ++ fn ∷ [] }

-- The loop `for _, fn := range callbacks { fn(sessionID) }`.
unfoldable pub notify : {W : Type 0} → List (Bytes → W → W) → Bytes → W → W
notify [] id w = w
notify (fn ∷ fns) id w = notify fns id (fn id w)

abbrev pub create_options : Bytes → SandboxOptions
create_options id = record {
  session_id = id;
  image = [];
  command = codes "/bin/sh" ∷ [];
  env = [];
  memory_limit = pos 0;
  cpu_shares = pos 0;
  metadata = [];
}

-- The entry that `Create` registers once the sandbox runs.
abbrev pub new_session : {S : Type 0} → ℕ → Bytes → S → ℕ → Session S
new_session ttl id sandbox now = record {
  id = id;
  sandbox = sandbox;
  created_at = now;
  expires_at = now + ttl;
}

module _ {W S P : Type 0} (rt : Runtime W S P) where
  -- `now` is read after the sandbox has been created.
  unfoldable pub create : Bytes → ℕ → Process W S → Process W S × Result Bytes
  create uuid now p =
      let (w, made) = rt.create_sandbox (create_options uuid) p.env in
      elim made [
        | err e ↦ (record p { env = w }, err (wrap (codes "runtime failed to create sandbox") e))
        | ok sandbox ↦ (
          record {
            mngr = record (p.mngr) {
              sessions = insert uuid (new_session p.mngr.ttl uuid sandbox now) p.mngr.sessions;
            };
            env = w;
          },
          ok uuid,
        )
      ]

  unfoldable pub destroy : Bytes → Process W S → Process W S × Option Error
  destroy id p = elim (lookup id p.mngr.sessions) [
    | none ↦ (p, none)
    | some sess ↦
        let (w, failed) = rt.destroy sess.sandbox (notify p.mngr.on_destroy id p.env) in
        (
          record { mngr = record (p.mngr) { sessions = delete id p.mngr.sessions }; env = w },
          failed,
        )
  ]

  unfoldable pub attach : Bytes → ℕ → Process W S → Process W S × Result P
  attach id now p = elim (lookup id p.mngr.sessions) [
    | none ↦ (p, err session_not_found)
    | some sess ↦
        if has_expired now sess
        then ((destroy id p).0, err session_expired)
        else (let (w, stream) = rt.attach_pty sess.sandbox p.env in (record p { env = w }, stream))
  ]

  -- The second loop of `reapExpired`: callbacks, then the sandbox, for each expired session.
  unfoldable pub reap_each : List (Bytes → W → W) → List (Session S) → W → W
  reap_each callbacks [] w = w
  reap_each callbacks (s ∷ ss) w =
      reap_each callbacks ss (rt.destroy s.sandbox (notify callbacks s.id w)).0

  -- The last loop of `Close`: every sandbox is destroyed, and the errors are collected.
  unfoldable pub destroy_each : List (Session S) → W → W × List Error
  destroy_each [] w = (w, [])
  destroy_each (s ∷ ss) w =
      let (w', failed) = rt.destroy s.sandbox w in
      let (w'', errs) = destroy_each ss w' in (w'', elim failed [ none ↦ errs | some e ↦ e ∷ errs ])

unfoldable pub get : {W S : Type 0} → Bytes → ℕ → Manager W S → Result (Session S)
get id now m = elim (lookup id m.sessions) [
  | none ↦ err session_not_found
  | some sess ↦ if has_expired now sess then err session_expired else ok sess
]

-- sess.ExpiresAt.After(now)
unfoldable pub active_count : {W S : Type 0} → ℕ → Manager W S → ℕ
active_count now m = count (λ e. ltb now e.1.expires_at) m.sessions

-- The first loop of `reapExpired`, over the map: what it collects, and what it leaves.
unfoldable pub expired : {S : Type 0} → ℕ → Dict (Session S) → List (Session S)
expired now [] = []
expired now ((id, s) ∷ m) = if has_expired now s then s ∷ expired now m else expired now m

unfoldable pub remaining : {S : Type 0} → ℕ → Dict (Session S) → Dict (Session S)
remaining now [] = []
remaining now ((id, s) ∷ m) =
    if has_expired now s then remaining now m else (id, s) ∷ remaining now m

-- The sessions of the map, as `Close` copies them.
unfoldable pub values : {S : Type 0} → Dict (Session S) → List (Session S)
values [] = []
values ((id, s) ∷ m) = s ∷ values m

-- The first loop of `Close`.
unfoldable pub notify_each : {W S : Type 0} → List (Bytes → W → W) → List (Session S) → W → W
notify_each callbacks [] w = w
notify_each callbacks (s ∷ ss) w = notify_each callbacks ss (notify callbacks s.id w)

module _ {W S P : Type 0} (rt : Runtime W S P) where
  unfoldable pub reap_expired : ℕ → Process W S → Process W S
  reap_expired now p = record {
    mngr = record (p.mngr) { sessions = remaining now p.mngr.sessions };
    env = reap_each rt p.mngr.on_destroy (expired now p.mngr.sessions) p.env;
  }

  unfoldable pub run_reaper : List Wake → Process W S → Process W S
  run_reaper = run_loop reap_expired

  -- `Close`, after the reaper has stopped.
  unfoldable pub close : Process W S → Process W S × Option Error
  close p =
      let doomed = values p.mngr.sessions in
      let (w, errs) = destroy_each rt doomed (notify_each p.mngr.on_destroy doomed p.env) in
      (
        record { mngr = record (p.mngr) { sessions = [] }; env = w },
        elim errs [
          | [] ↦ none
          | e ∷ es ↦ some (other (codes "errors destroying sessions on shutdown"))
        ],
      )
