-- ===== src/Abuse/Guard/Tests.antt =====
-- The guard at concrete requests, and the theorems on it.
use docpine.Base.{
  ℕ, ◌+◌, ◌≡◌, ◌≢◌, ◌↔◌, refl, true, false, [], ◌∷◌, codes, lookup, insert, pos, magnitude, arith,
}
use docpine.Http.{no_response}
use docpine.Abuse.Concurrency.{try_acquire, IsBounded}
use docpine.Abuse.Guard.{
  Guard, proceeds, has_active_device_session, register_session, check_anonymous_create,
}
use docpine.Abuse.Guard.Slots.{device_of, ip_of, check-slots}
use docpine.Abuse.Guard.Verdicts.{PassesChallenge, admitted, status_of, check-verdict}
use docpine.Abuse.Guard.Bindings.{IsPaired, register_session-IsPaired}
use docpine.Fixtures.{peers, noon, ask}

abbrev empty_guard : Guard ℕ
empty_guard = record {
  cookie_secret = codes "k";
  rate_limiter = record { burst = pos 2; refill_rate = pos 1; pairs = []; ip_only = [] };
  turnstile_key = codes "t";
  concurrency = record { max_concurrent = pos 2; active = pos 1; total_rejected = 0 };
  device_sessions = [];
  session_devices = [];
}

abbrev bound_guard : Guard ℕ
bound_guard = record empty_guard {
  device_sessions = (codes "d1", codes "s1") ∷ [];
  session_devices = (codes "s1", codes "d1") ∷ [];
}

check-slots_example :
    let o =
      check_anonymous_create peers ask (codes "tok") (codes "d1") noon empty_guard no_response in
    (o.verdict ≡ proceeds
      → (magnitude o.guard.concurrency.active ≡ 1 + 1) × (o.slot_released ≡ false))
    × (o.verdict ≢ proceeds → o.guard.concurrency.active ≡ pos 1)
    × IsBounded o.guard.concurrency
check-slots_example =
    check-slots peers ask (codes "tok") (codes "d1") noon empty_guard no_response
      (omega arith, omega arith)

check-verdict_example :
    let o =
      check_anonymous_create peers ask (codes "tok") (codes "d1") noon empty_guard no_response in
    let device = device_of peers ask (codes "d1") noon empty_guard in
    let ip = ip_of peers ask in
    ((o.verdict ≡ proceeds) ↔ (
      (has_active_device_session device empty_guard ≡ false)
      × ((try_acquire empty_guard.concurrency).1 ≡ true)
      × PassesChallenge peers (codes "tok") ip empty_guard
      × (admitted peers ip device noon empty_guard ≡ true)))
    × (o.response.status ≡ status_of o.verdict)
check-verdict_example =
    check-verdict peers ask (codes "tok") (codes "d1") noon empty_guard no_response refl

empty_guard-IsPaired : IsPaired empty_guard
unfolding lookup
empty_guard-IsPaired d s = (λ h. cc, λ h. cc)

bound_guard-IsPaired : IsPaired bound_guard
unfolding register_session insert lookup has_active_device_session
bound_guard-IsPaired =
    (register_session-IsPaired (codes "d1") (codes "s1") empty_guard empty_guard-IsPaired refl
      refl).0
