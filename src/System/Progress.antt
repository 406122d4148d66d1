-- ===== src/System/Progress.antt =====
-- How much a thread has left to do, and that each of its moves makes it less.
use docpine.Base.{
  ℕ, ◌+◌, ◌*◌, ◌<◌, ◌≡◌, ◌⊎◌, Bool, true, false, [], length, IsDict, length-insert_fresh,
  length-delete, arith, ℤ, int_eq, int_eq_refl, if◌then◌else◌,
}
use docpine.Session.{Session, expired, values}
use docpine.Session.Reaper.{length-expired}
use docpine.Abuse.Concurrency.{
  loading, swapping, acquired, refused, attempt_step, adding, resetting, released, release_step,
}
use docpine.Abuse.Guard.{register_session, release_session}
use docpine.System.{
  Thread, checking, acquiring, holding, provisioning, registering, releasing, destroying, reaping,
  closing, notifying, freeing, Shared, ids, Move, find_free, find_busy, attempt, refuse, pass,
  provision_failed, provisioned, bind, release_slot, remove, remove_absent, reap, close_all, unbind,
  free_slot,
}
use docpine.System.Accounting.{length-map, length-values}

-- A thread at its end.
abbrev pub is_done : Thread → Bool
is_done (releasing released) = true
is_done (notifying []) = true
is_done _ = false

-- The moves that a thread makes at most, less the rounds of TryAcquire that are for nothing.
abbrev pub effort : Thread → ℕ
effort (checking d) = 10
effort (acquiring d a) = 9
effort (holding d) = 8
effort (provisioning d) = 7
effort (registering d id) = 1
effort (releasing adding) = 2
effort (releasing resetting) = 1
effort (releasing released) = 0
effort (destroying id) = 1
effort (reaping now) = 1
effort closing = 1
effort (notifying ids) = 3 * length ids
effort (freeing rest adding) = 3 * length rest + 2
effort (freeing rest resetting) = 3 * length rest + 1
effort (freeing rest released) = 3 * length rest + 1

-- The moves that a compare-and-swap is away, while no other thread changes the counter.
abbrev pub retries : ℤ → Thread → ℕ
retries active (acquiring d loading) = 1
retries active (acquiring d (swapping current)) = if int_eq active current then 0 else 2
retries active _ = 0

module _ {L S : Type 0} where
  -- A move is one less to do; or it is a step in the loop of TryAcquire, nearer to its end.
  abbrev pub Lessens : Shared L S → Thread → Shared L S → Thread → Type 0
  Lessens s t s' t' =
      (4 * length s'.sessions + effort t' < 4 * length s.sessions + effort t)
      ⊎ ((4 * length s'.sessions + effort t' ≡ 4 * length s.sessions + effort t)
          × (s'.guard.concurrency.active ≡ s.guard.concurrency.active)
          × (retries s'.guard.concurrency.active t' < retries s.guard.concurrency.active t))

  pub Move-Lessens :
      {s s' : Shared L S} {t t' : Thread}
      → Move s t s' t'
      → IsDict s.sessions
      → is_done t ≡ false
      → Lessens s t s' t'
  unfolding attempt_step release_step register_session release_session
  Move-Lessens (find_free d h) k live = ground arith
  Move-Lessens (find_busy d h) k live = ground arith
  Move-Lessens (attempt {s} d loading) k live =
      ground (arith, int_eq_refl s.guard.concurrency.active)
  Move-Lessens (attempt d (swapping c)) k live = ground arith
  Move-Lessens (attempt d acquired) k live = ground arith
  Move-Lessens (attempt d refused) k live = ground arith
  Move-Lessens (refuse d) k live = ground arith
  Move-Lessens (pass d) k live = ground arith
  Move-Lessens (provision_failed d) k live = ground arith
  Move-Lessens (provisioned {s} d sess fresh) k live =
      ground (arith, length-insert_fresh sess.id sess s.sessions fresh)
  Move-Lessens (bind d id) k live = ground arith
  Move-Lessens (release_slot adding) k live = ground arith
  Move-Lessens (release_slot resetting) k live = ground arith
  Move-Lessens (release_slot released) k live = ground arith
  Move-Lessens (remove {s} id sess found) k live =
      ground (arith, length-delete id sess s.sessions k found)
  Move-Lessens (remove_absent id h) k live = ground arith
  Move-Lessens (reap {s} now) k live = ground (
    arith,
    length-expired now s.sessions,
    length-map (λ (x : Session S). x.id) (expired now s.sessions),
  )
  Move-Lessens (close_all {s}) k live =
      ground
        (arith, length-map (λ (x : Session S). x.id) (values s.sessions), length-values s.sessions)
  Move-Lessens (unbind id rest) k live = ground arith
  Move-Lessens (free_slot rest adding) k live = ground arith
  Move-Lessens (free_slot rest resetting) k live = ground arith
  Move-Lessens (free_slot rest released) k live = ground arith
