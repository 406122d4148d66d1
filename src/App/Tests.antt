-- ===== src/App/Tests.antt =====
-- The server at concrete calls, and the theorems on it.
use docpine.Base.{
  ℕ, ◌||◌, ◌≤◌, ◌≡◌, ◌↔◌, refl, none, some, [], ◌∷◌, Bytes, codes, Dict, length, lookup, str_eq,
  str_eq_iff, SameEntries, pos, magnitude, arith,
}
use docpine.Session.{Session, close, register_callback, new_manager, reap_expired, active_count}
use docpine.Abuse.Concurrency.{new_concurrency_limiter}
use docpine.Abuse.Guard.{Guard, new_guard}
use docpine.Abuse.Guard.Bindings.{IsPaired}
use docpine.App.Order.{reap_order}
use docpine.App.Answers.{Answered, create_session_cases}
use docpine.App.{App, hosted, on_session_end, start, token, create_session}
use docpine.App.Consistency.{IsConsistent, start-IsConsistent, create_session-IsConsistent}
use docpine.App.Serial.{begin, creates, one_session_per_device}
use docpine.App.Sandboxes.{registered}
use docpine.App.Lifetime.{is_owned, no_sandbox_outlives}
use docpine.Runtime.{Runtime}
use docpine.Firecracker.{Vm, World}
use docpine.Firecracker.Boot.{firecracker_runtime}
use docpine.Firecracker.Resources.{process}
use docpine.Firecracker.Ownership.{owns, live, on_host, firecracker_runtime-IsTidy}
use docpine.Firecracker.Simulated.{Sim, has, simulated, simulated-IsDocumented, machine, world}
use docpine.Http.{no_response}
use docpine.Fixtures.{counting, peers, settings, noon, ask, early, later}

abbrev fresh_server : App ℕ ℕ ℕ
fresh_server = start settings (pos 0) 0

abbrev one_session : App ℕ ℕ ℕ
one_session =
    (create_session peers counting ask (token (codes "tok")) (codes "d1") (codes "s1") noon
      12_000_000_000 fresh_server no_response).0

no_session : lookup (codes "s1") fresh_server.mngr.sessions ≡ none
unfolding lookup start register_callback new_manager
no_session = refl

one_session-IsConsistent : IsConsistent 0 one_session
one_session-IsConsistent =
    create_session-IsConsistent peers counting ask (token (codes "tok")) (codes "d1") (codes "s1")
      noon 12_000_000_000 fresh_server no_response (start-IsConsistent settings (pos 0) 0) refl
      no_session

one_session_per_device_example :
    ((id : Bytes)
      → (lookup id one_session.env.guard.session_devices ≡ none)
        ↔ (lookup id one_session.mngr.sessions ≡ none))
    × ((id id' d : Bytes)
        → lookup id one_session.env.guard.session_devices ≡ some d
        → lookup id' one_session.env.guard.session_devices ≡ some d
        → id ≡ id')
    × (one_session.env.guard.concurrency.active ≡ pos (length one_session.mngr.sessions))
    × (length one_session.mngr.sessions
        ≤ magnitude one_session.env.guard.concurrency.max_concurrent)
one_session_per_device_example =
    one_session_per_device peers counting settings (pos 0) 0 one_session (
      creates ask (token (codes "tok")) (codes "d1") (codes "s1") noon 12_000_000_000 no_response
        refl no_session begin)

create_session_cases_example :
    Answered peers counting ask
      (token (codes "tok"))
      (codes "d1")
      (codes "s1")
      noon
      12_000_000_000
      fresh_server
      no_response
      (create_session peers counting ask
        (token (codes "tok"))
        (codes "d1")
        (codes "s1")
        noon
        12_000_000_000
        fresh_server
        no_response)
create_session_cases_example =
    create_session_cases peers counting ask (token (codes "tok")) (codes "d1") (codes "s1") noon
      12_000_000_000 fresh_server no_response (start-IsConsistent settings (pos 0) 0) refl
      no_session

-- A server over Firecracker.
abbrev vm_runtime : Runtime (World Sim) Vm (ℕ × ℕ)
vm_runtime = firecracker_runtime simulated machine

abbrev vm_server : App ℕ (World Sim) Vm
vm_server = start settings (pos 0) world

no_vm : lookup (codes "s1") vm_server.mngr.sessions ≡ none
unfolding lookup start register_callback new_manager
no_vm = refl

abbrev one_vm : App ℕ (World Sim) Vm
one_vm =
    (create_session peers vm_runtime ask (token (codes "tok")) (codes "d1") (codes "s1") noon
      12_000_000_000 vm_server no_response).0

no_sandbox_outlives_example :
    (on_host has (process 7) one_vm.env.host ≡ (
      is_owned owns (process 7) (registered one_vm.mngr.sessions) || on_host has (process 7) world))
    × (on_host has (process 7) (close (hosted vm_runtime) one_vm).0.env.host
        ≡ on_host has (process 7) world)
no_sandbox_outlives_example =
    no_sandbox_outlives peers vm_runtime (on_host has) owns live
      (firecracker_runtime-IsTidy simulated has simulated-IsDocumented machine) settings (pos 0)
      world one_vm (process 7)
      (creates ask (token (codes "tok")) (codes "d1") (codes "s1") noon 12_000_000_000 no_response
        refl no_vm begin)

-- A server with two sessions, in either order.
abbrev bound : Guard ℕ
bound = record (new_guard settings) {
  concurrency = record (new_concurrency_limiter (pos 2)) { active = pos 2 };
  device_sessions = (codes "d1", codes "s1") ∷ (codes "d2", codes "s2") ∷ [];
  session_devices = (codes "s1", codes "d1") ∷ (codes "s2", codes "d2") ∷ [];
}

abbrev with_sessions : Dict (Session ℕ) → App ℕ ℕ ℕ
with_sessions m = record {
  mngr = record { ttl = 50; sessions = m; on_destroy = on_session_end ∷ [] };
  env = record { guard = bound; host = 2 };
}

abbrev forth : App ℕ ℕ ℕ
forth = with_sessions ((codes "s1", early) ∷ (codes "s2", later) ∷ [])

abbrev back : App ℕ ℕ ℕ
back = with_sessions ((codes "s2", later) ∷ (codes "s1", early) ∷ [])

bound-IsPaired : IsPaired bound
unfolding lookup
bound-IsPaired d s = ground (
  arith,
  str_eq_iff (codes "d1") d,
  str_eq_iff (codes "d2") d,
  str_eq_iff (codes "s1") s,
  str_eq_iff (codes "s2") s,
)

forth_back : SameEntries forth.mngr.sessions back.mngr.sessions
unfolding lookup
forth_back k = ground (arith, str_eq_iff (codes "s1") k, str_eq_iff (codes "s2") k)

forth-IsConsistent : IsConsistent 0 forth
unfolding lookup str_eq new_concurrency_limiter
forth-IsConsistent = record {
  agrees = record {
    distinct = (refl, (refl, tt));
    paired = bound-IsPaired;
    bounded = omega arith;
    balanced = refl;
    live = λ id. ground (arith);
  };
  keyed = (refl, (refl, tt));
  wired = refl;
}

back-IsConsistent : IsConsistent 0 back
unfolding lookup str_eq new_concurrency_limiter
back-IsConsistent = record {
  agrees = record {
    distinct = (refl, (refl, tt));
    paired = bound-IsPaired;
    bounded = omega arith;
    balanced = refl;
    live = λ id. ground (arith);
  };
  keyed = (refl, (refl, tt));
  wired = refl;
}

reap_order_example :
    let q = reap_expired (hosted counting) 130 forth in
    let q' = reap_expired (hosted counting) 130 back in
    SameEntries q.mngr.sessions q'.mngr.sessions
    × ((at : ℕ) → active_count at q.mngr ≡ active_count at q'.mngr)
    × (q.env.guard.concurrency.active ≡ q'.env.guard.concurrency.active)
    × SameEntries q.env.guard.session_devices q'.env.guard.session_devices
    × SameEntries q.env.guard.device_sessions q'.env.guard.device_sessions
reap_order_example = reap_order counting 130 forth back (record {
  consistent = forth-IsConsistent;
  consistent' = back-IsConsistent;
  same_guard = refl;
  same_sessions = forth_back;
})
