-- ===== src/Runtime.antt =====
-- internal/runtime/runtime.go: the errors that the backends and the session manager share, the
-- options of a sandbox, and the interfaces `Sandbox` and `Runtime`. A backend is a record of
-- functions over a world `W` that holds whatever the host keeps: daemons, processes, files.
pub mod Tidy
use docpine.Base.{ℕ, ◌≡◌, refl, ◌⊎◌, inl, inr, Bool, true, false, Option, List, Bytes, Dict, ℤ}

-- Go errors. `wrap` is `fmt.Errorf` with one `%w`; the text of a message is kept only where the
-- program reads it.
pub data Error : Type 0 where
  session_not_found session_expired : Error
  prerequisite_failed runtime_not_found sandbox_not_found sandbox_destroyed not_applicable : Error
  turnstile_failed turnstile_missing : Error
  other : Bytes → Error
  wrap : Bytes → Error → Error

-- errors.Is against the two sentinels that the transport tests for.
unfoldable pub is_session_not_found : Error → Bool
is_session_not_found session_not_found = true
is_session_not_found (wrap m e) = is_session_not_found e
is_session_not_found _ = false

unfoldable pub is_session_expired : Error → Bool
is_session_expired session_expired = true
is_session_expired (wrap m e) = is_session_expired e
is_session_expired _ = false

pub data Result {ℓ} (A : Type ℓ) : Type ℓ where
  ok : A → Result A
  err : Error → Result A

pub record SandboxOptions : Type 0 where
  pub session_id : Bytes
  pub image : Bytes
  pub command : List Bytes
  pub env : List Bytes
  pub memory_limit : ℤ
  pub cpu_shares : ℤ
  pub metadata : Dict Bytes

-- A backend over a world `W`, with handles `S` on its sandboxes and streams `P` to their terminals.
-- The methods of `Sandbox` take the handle first. An error result is `some e`.
pub record Runtime (W S P : Type 0) : Type 0 where
  pub name : Bytes
  pub check_prerequisites : W → W × Option Error
  pub create_sandbox : SandboxOptions → W → W × Result S
  pub close : W → W × Option Error
  pub id : S → Bytes
  pub cgroup_id : S → W → W × Result ℕ
  pub attach_pty : S → W → W × Result P
  pub destroy : S → W → W × Option Error

pub Result-cases {ℓ} :
    {A : Type ℓ} (r : Result A) → ((a : A) × (r ≡ ok a)) ⊎ ((e : Error) × (r ≡ err e))
Result-cases (ok a) = inl (a, refl)
Result-cases (err e) = inr (e, refl)
