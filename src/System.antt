-- ===== src/System.antt =====
-- The server with its handlers, its reaper and its shutdown running at once. A thread is where one
-- of them stands between two accesses to shared state: an atomic operation on the slot counter, or
-- a section under the mutex of the guard or of the session manager. A step lets any one thread
-- make its next access. What has no effect on the counter, the bindings or the registry (the
-- challenge, the buckets, the runtime) shows only in the choice between the steps that follow it.
pub mod Accounting
pub mod Races
pub mod Progress
pub mod Runs
pub mod Pool
pub mod Solo
pub mod Stuck
pub mod Sequential
mod Tests
use docpine.Base.{
  ℕ, ◌≡◌, Bool, true, false, none, some, List, [], ◌∷◌, ◌++◌, map, Bytes, Dict, lookup, insert,
  delete,
}
use docpine.Session.{Session, expired, remaining, values}
use docpine.Abuse.Concurrency.{
  ConcurrencyLimiter, Attempt, loading, swapping, acquired, refused, attempt_step, Releasing,
  adding, resetting, released, release_step,
}
use docpine.Abuse.Guard.{Guard, has_active_device_session, register_session, release_session}

pub data Thread : Type 0 where
  -- A create request for a device: before the test for an active session, in TryAcquire, holding a
  -- slot, past the guard, and between the registry and RegisterSession.
  checking : Bytes → Thread
  acquiring : Bytes → Attempt → Thread
  holding provisioning : Bytes → Thread
  registering : Bytes → Bytes → Thread
  -- In ConcurrencyLimiter.Release, after a request that failed.
  releasing : Releasing → Thread
  -- Before the removal of a session, of the expired ones, or of all.
  destroying : Bytes → Thread
  reaping : ℕ → Thread
  closing : Thread
  -- Sessions whose callbacks are still to run; and in the Release of a callback, with the sessions
  -- that follow.
  notifying : List Bytes → Thread
  freeing : List Bytes → Releasing → Thread

pub record Shared (L S : Type 0) : Type 0 where
  pub guard : Guard L
  pub sessions : Dict (Session S)

-- Where a request goes on after a step of TryAcquire, and a callback after a step of Release.
abbrev pub after_attempt : Bytes → Attempt → Thread
after_attempt d loading = acquiring d loading
after_attempt d (swapping current) = acquiring d (swapping current)
after_attempt d acquired = holding d
after_attempt d refused = releasing released

abbrev pub after_release : List Bytes → Releasing → Thread
after_release ids adding = freeing ids adding
after_release ids resetting = freeing ids resetting
after_release ids released = notifying ids

abbrev pub ids : {S : Type 0} → List (Session S) → List Bytes
ids ss = map (λ s. s.id) ss

-- A thread as it starts.
abbrev pub starts : Thread → Bool
starts (checking d) = true
starts (destroying id) = true
starts (reaping now) = true
starts closing = true
starts _ = false

module _ {L S : Type 0} where
  abbrev pub limited : Shared L S → ConcurrencyLimiter → Shared L S
  limited s c = record s { guard = record (s.guard) { concurrency = c } }

  -- One access of one thread.
  pub data Move : Shared L S → Thread → Shared L S → Thread → Type 0 where
    find_free :
        {s : Shared L S} (d : Bytes)
        → has_active_device_session d s.guard ≡ false
        → Move s (checking d) s (acquiring d loading)
    find_busy :
        {s : Shared L S} (d : Bytes)
        → has_active_device_session d s.guard ≡ true
        → Move s (checking d) s (releasing released)
    attempt :
        {s : Shared L S} (d : Bytes) (a : Attempt)
        → Move s
            (acquiring d a)
            (limited s (attempt_step a s.guard.concurrency).1)
            (after_attempt d (attempt_step a s.guard.concurrency).0)
    refuse : {s : Shared L S} (d : Bytes) → Move s (holding d) s (releasing adding)
    pass : {s : Shared L S} (d : Bytes) → Move s (holding d) s (provisioning d)
    provision_failed : {s : Shared L S} (d : Bytes) → Move s (provisioning d) s (releasing adding)
    -- The id is a fresh UUID.
    provisioned :
        {s : Shared L S} (d : Bytes) (sess : Session S)
        → lookup sess.id s.sessions ≡ none
        → Move s
            (provisioning d)
            (record s { sessions = insert sess.id sess s.sessions })
            (registering d sess.id)
    bind :
        {s : Shared L S} (d id : Bytes)
        → Move s
            (registering d id)
            (record s { guard = register_session d id s.guard })
            (releasing released)
    release_slot :
        {s : Shared L S} (r : Releasing)
        → Move s
            (releasing r)
            (limited s (release_step r s.guard.concurrency).1)
            (releasing (release_step r s.guard.concurrency).0)
    remove :
        {s : Shared L S} (id : Bytes) (sess : Session S)
        → lookup id s.sessions ≡ some sess
        → Move s
            (destroying id)
            (record s { sessions = delete id s.sessions })
            (notifying (id ∷ []))
    remove_absent :
        {s : Shared L S} (id : Bytes)
        → lookup id s.sessions ≡ none
        → Move s (destroying id) s (notifying [])
    reap :
        {s : Shared L S} (now : ℕ)
        → Move s
            (reaping now)
            (record s { sessions = remaining now s.sessions })
            (notifying (ids (expired now s.sessions)))
    close_all :
        {s : Shared L S}
        → Move s closing (record s { sessions = [] }) (notifying (ids (values s.sessions)))
    unbind :
        {s : Shared L S} (id : Bytes) (rest : List Bytes)
        → Move s
            (notifying (id ∷ rest))
            (record s { guard = release_session id s.guard })
            (freeing rest adding)
    free_slot :
        {s : Shared L S} (rest : List Bytes) (r : Releasing)
        → Move s
            (freeing rest r)
            (limited s (release_step r s.guard.concurrency).1)
            (after_release rest (release_step r s.guard.concurrency).0)

  -- The states that the server comes to from a given one.
  pub data Reach (s₀ : Shared L S) : Shared L S → List Thread → Type 0 where
    here : Reach s₀ s₀ []
    spawn :
        {s : Shared L S} {ts : List Thread} (t : Thread)
        → starts t ≡ true
        → Reach s₀ s ts
        → Reach s₀ s (t ∷ ts)
    step :
        {s s' : Shared L S} {ts ts' : List Thread} (before after : List Thread) (t t' : Thread)
        → ts ≡ before ++ (t ∷ after)
        → ts' ≡ before ++ (t' ∷ after)
        → Move s t s' t'
        → Reach s₀ s ts
        → Reach s₀ s' ts'
