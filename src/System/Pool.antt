-- ===== src/System/Pool.antt =====
-- The server as a pool of slots: all that the guard promises of the counter, without the guard, the
-- registry and the threads.
use docpine.Base.{[], if◌then◌else◌, ℕ, suc, ◌+◌, ◌<◌, ◌≡◌, List, ◌∷◌, length, total, int_eq}
use docpine.Session.{Session, expired}
use docpine.Abuse.Concurrency.{swapping, adding}
use docpine.System.{
  Thread, Shared, Move, attempt, provisioned, release_slot, remove, reap, close_all, free_slot,
  Reach, here, spawn, step,
}
use docpine.System.Accounting.{owed}

-- The slots that sessions have, and the slots that are taken and belong to none.
pub record Pool : Type 0 where
  pub held : ℕ
  pub busy : ℕ

-- What a pool is asked: nothing, a slot, a slot back, a session for a taken slot, or the end of a
-- number of sessions, whose slots are still to be given back.
pub data Effect : Type 0 where
  silent take give promote : Effect
  retire : ℕ → Effect

-- A pool with `ceiling` slots does what it is asked; it has a slot to take only below the ceiling.
pub data PoolStep (ceiling : ℕ) : Effect → Pool → Pool → Type 0 where
  idles : {p q : Pool} → q.held ≡ p.held → q.busy ≡ p.busy → PoolStep ceiling silent p q
  takes :
      {p q : Pool}
      → p.held + p.busy < ceiling
      → q.held ≡ p.held
      → q.busy ≡ suc p.busy
      → PoolStep ceiling take p q
  gives : {p q : Pool} → q.held ≡ p.held → p.busy ≡ suc q.busy → PoolStep ceiling give p q
  promotes : {p q : Pool} → q.held ≡ suc p.held → p.busy ≡ suc q.busy → PoolStep ceiling promote p q
  retires :
      {p q : Pool} (k : ℕ)
      → p.held ≡ q.held + k
      → q.busy ≡ p.busy + k
      → PoolStep ceiling (retire k) p q

-- A pool that is asked these things, the last one first.
pub data PoolRun (ceiling : ℕ) : List Effect → Pool → Type 0 where
  start : PoolRun ceiling [] (record { held = 0; busy = 0 })
  next :
      {es : List Effect} {p q : Pool} (e : Effect)
      → PoolStep ceiling e p q
      → PoolRun ceiling es p
      → PoolRun ceiling (e ∷ es) q

module _ {L S : Type 0} where
  -- What an access of a thread asks of the pool.
  unfoldable pub effect : {s s' : Shared L S} {t t' : Thread} → Move s t s' t' → Effect
  effect (attempt {s} d (swapping c)) = if int_eq s.guard.concurrency.active c then take else silent
  effect (provisioned d sess fresh) = promote
  effect (release_slot adding) = give
  effect (free_slot rest adding) = give
  effect (remove id sess found) = retire 1
  effect (reap {s} now) = retire (length (expired now s.sessions))
  effect (close_all {s}) = retire (length s.sessions)
  effect _ = silent

  -- What the accesses of an interleaving ask, the last one first.
  unfoldable pub effects : {s₀ s : Shared L S} {ts : List Thread} → Reach s₀ s ts → List Effect
  effects here = []
  effects (spawn t h r) = effects r
  effects (step before after t t' e e' m r) = effect m ∷ effects r

  -- A server as a pool, with `n` slots owed by the threads that do not move.
  abbrev view : ℕ → Shared L S → Thread → Pool
  view n s t = record { held = length s.sessions; busy = owed t + n }

  -- What a reachable state is in the pool.
  abbrev pub pool : Shared L S → List Thread → Pool
  pool s ts = record { held = length s.sessions; busy = total owed ts }
