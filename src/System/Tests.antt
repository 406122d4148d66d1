-- ===== src/System/Tests.antt =====
-- The interleavings from a concrete server, and the theorems on them.
use docpine.Base.{
  ℕ, ◌+◌, ◌≤◌, ◌≡◌, ◌≢◌, refl, List, [], ◌∷◌, ◌++◌, codes, length, lookup, total, pos, magnitude,
  arith, true, none,
}
use docpine.Abuse.Concurrency.{loading, swapping, attempt_step, resetting}
use docpine.Abuse.Guard.{has_active_device_session, new_guard, proceeds, check_anonymous_create}
use docpine.System.{
  Thread, checking, acquiring, holding, provisioning, releasing, freeing, Shared, find_free,
  attempt, pass, Reach, here, spawn, step,
}
use docpine.System.Accounting.{owed, IsFresh, active-sessions, sessions-le-max, never_resets}
use docpine.System.Races.{settings_for, started, BothBound, two_sessions_one_device}
use docpine.System.Stuck.Onward.{Onward}
use docpine.System.Stuck.Binding.{late_binding}
use docpine.Abuse.Guard.Slots.{device_of}
use docpine.System.Runs.{Run, stop, go, work, AllDone, runs_end, drains}
use docpine.Session.{register_callback, new_manager}
use docpine.Http.{no_response}
use docpine.Abuse.RateLimiter.{RateLimiter}
use docpine.App.{App, start, token, create_session}
use docpine.App.Consistency.{start-IsConsistent}
use docpine.App.Serial.{begin, creates}
use docpine.System.Sequential.{view}
use docpine.System.Sequential.Calls.{Serial-Reach}
use docpine.Fixtures.{counting, peers, settings, noon, ask, early, later}

abbrev limiter : RateLimiter ℕ
limiter = record { burst = pos 2; refill_rate = pos 1; pairs = []; ip_only = [] }

abbrev server : Shared ℕ ℕ
server = record {
  guard = record {
    cookie_secret = codes "k";
    rate_limiter = limiter;
    turnstile_key = [];
    concurrency = record { max_concurrent = pos 2; active = pos 0; total_rejected = 0 };
    device_sessions = [];
    session_devices = [];
  };
  sessions = [];
}

abbrev counted : ℕ → Shared ℕ ℕ
counted n = record server {
  guard = record (server.guard) {
    concurrency = record { max_concurrent = pos 2; active = pos n; total_rejected = 0 };
  };
}

server-IsFresh : IsFresh server
server-IsFresh = (refl, refl, (omega arith, omega arith))

-- A request that holds its slot, and one that has just come.
under_way : Reach server (counted 1) (checking (codes "d2") ∷ provisioning (codes "d1") ∷ [])
unfolding attempt_step has_active_device_session lookup
under_way =
    let d = codes "d1" in
    let r₁ =
      step [] [] (checking d) (acquiring d loading) refl refl (find_free {s = server} d refl)
        (spawn (checking d) refl here) in
    let r₂ =
      step [] [] (acquiring d loading) (acquiring d (swapping (pos 0))) refl refl
        (attempt {s = server} d loading) r₁ in
    let r₃ =
      step [] [] (acquiring d (swapping (pos 0))) (holding d) refl refl
        (attempt {s = server} d (swapping (pos 0))) r₂ in
    spawn (checking (codes "d2")) refl
      (step [] [] (holding d) (provisioning d) refl refl (pass {s = counted 1} d) r₃)

active-sessions_example :
    (counted 1).guard.concurrency.active
    ≡ pos (
        length (counted 1).sessions
        + total owed (checking (codes "d2") ∷ provisioning (codes "d1") ∷ []))
active-sessions_example = active-sessions server-IsFresh under_way

sessions-le-max_example :
    length (counted 1).sessions
      + total owed (checking (codes "d2") ∷ provisioning (codes "d1") ∷ [])
    ≤ magnitude server.guard.concurrency.max_concurrent
sessions-le-max_example = sessions-le-max server-IsFresh under_way

never_resets_example :
    ((checking (codes "d2") ∷ provisioning (codes "d1") ∷ [])
      ≢ (checking (codes "d2") ∷ []) ++ (releasing resetting ∷ []))
    × ((checking (codes "d2") ∷ provisioning (codes "d1") ∷ [])
        ≢ (checking (codes "d2") ∷ []) ++ (freeing [] resetting ∷ []))
never_resets_example = never_resets (checking (codes "d2") ∷ []) [] [] server-IsFresh under_way

two_sessions_one_device_example :
    (s : Shared ℕ ℕ) × (ts : List Thread) × Reach (started (settings_for settings 0)) s ts
    × BothBound s (codes "d1") early later
two_sessions_one_device_example =
    two_sessions_one_device settings 0 (codes "d1") early later (λ h. ground arith)

-- The first request of a server passes its guard.
passed :
    (check_anonymous_create peers ask
      (codes "tok")
      (codes "d1")
      noon
      (new_guard settings)
      no_response).verdict
    ≡ proceeds
unfolding new_guard check_anonymous_create has_active_device_session lookup
    docpine.Abuse.Concurrency.try_acquire docpine.Abuse.Concurrency.new_concurrency_limiter
    docpine.Abuse.Guard.check_challenge docpine.Abuse.Turnstile.is_enabled
    docpine.Abuse.Turnstile.secret_key docpine.Text.trim_space docpine.Abuse.Turnstile.verify
    docpine.Abuse.Turnstile.reply_error docpine.Abuse.Guard.check_rate
    docpine.Abuse.RateLimiter.allow docpine.Abuse.RateLimiter.draw docpine.Abuse.RateLimiter.bucket
    docpine.Abuse.RateLimiter.new_rate_limiter docpine.Base.insert docpine.Abuse.Cookie.get_or_set
    attempt_step
passed = refl

late_binding_example :
    let d = device_of peers ask (codes "d1") noon (new_guard settings) in
    (s : Shared ℕ ℕ) × (ts : List Thread) × Reach (started settings) s ts
    × (s.sessions ≡ [])
    × (total owed ts ≡ 0)
    × ((s' : Shared ℕ ℕ) (ts' : List Thread)
        → Onward (codes "s1") s ts s' ts'
        → has_active_device_session d s'.guard ≡ true)
late_binding_example =
    late_binding peers settings ask (codes "tok") (codes "d1") noon no_response 10 100 111
      (codes "s1") 0 passed (omega arith)

-- The second request finds its device free.
one_move :
    Run 1
      (counted 1)
      (checking (codes "d2") ∷ provisioning (codes "d1") ∷ [])
      (counted 1)
      (acquiring (codes "d2") loading ∷ provisioning (codes "d1") ∷ [])
unfolding has_active_device_session lookup
one_move =
    go [] (provisioning (codes "d1") ∷ []) (checking (codes "d2")) (acquiring (codes "d2") loading)
      refl refl (find_free (codes "d2") refl) stop

runs_end_example :
    (1 ≤ work (counted 1) (checking (codes "d2") ∷ provisioning (codes "d1") ∷ []))
    × Reach server (counted 1) (acquiring (codes "d2") loading ∷ provisioning (codes "d1") ∷ [])
runs_end_example = runs_end server-IsFresh under_way one_move

drains_example :
    (k : ℕ) × (s' : Shared ℕ ℕ) × (ts' : List Thread) × Run k
      (counted 1)
      (checking (codes "d2") ∷ provisioning (codes "d1") ∷ [])
      s'
      ts'
    × AllDone ts'
    × (s'.guard.concurrency.active ≡ pos (length s'.sessions))
drains_example = drains server-IsFresh under_way

-- One request, from the start of the server on.
abbrev begun : App ℕ ℕ ℕ
begun = start settings (pos 0) 0

abbrev asked : App ℕ ℕ ℕ
asked =
    (create_session peers counting ask (token (codes "tok")) (codes "d1") (codes "s1") noon
      12_000_000_000 begun no_response).0

unused : lookup (codes "s1") begun.mngr.sessions ≡ none
unfolding lookup start register_callback new_manager
unused = refl

Serial-Reach_example :
    (ts : List Thread) × Reach (view limiter begun) (view limiter asked) ts × AllDone ts
Serial-Reach_example =
    Serial-Reach limiter peers counting begun (start-IsConsistent settings (pos 0) 0) (
      creates ask (token (codes "tok")) (codes "d1") (codes "s1") noon 12_000_000_000 no_response
        refl unused begin)
