-- ===== src/System/Solo.antt =====
-- Threads that no other one comes between: what a whole call does, as steps.
use docpine.Base.{
  ◌≡◌, refl, true, false, Bool-cases, inl, inr, List, [], ◌∷◌, Bytes, geb, decrement, is_negative,
  if◌then◌else◌, suc, pos, increment, int_eq_refl,
}
use mathlib.Core.Path.{subst}
use docpine.Abuse.Concurrency.{
  ConcurrencyLimiter, Attempt, loading, swapping, acquired, refused, attempt_step, try_acquire,
  Releasing, adding, resetting, released, release_step, release,
}
use docpine.Abuse.Guard.{Guard, release_session}
use docpine.App.Agreement.{ended}
use docpine.System.{
  Thread, acquiring, holding, releasing, notifying, freeing, Shared, limited, after_attempt,
  after_release, starts, Move, attempt, release_slot, unbind, free_slot, Reach, spawn, step,
}

full_steps :
    (c : ConcurrencyLimiter)
    → geb c.active c.max_concurrent ≡ true
    → let c' = record c { total_rejected = suc c.total_rejected } in
      (attempt_step loading c ≡ (refused, c')) × (try_acquire c ≡ (c', false))
unfolding try_acquire
full_steps c full = (rw (full, attempt_step) refl, rw (full, try_acquire, attempt_step) refl)

room_steps :
    (c : ConcurrencyLimiter)
    → geb c.active c.max_concurrent ≡ false
    → let c' = record c { active = increment c.active } in
      (attempt_step loading c ≡ (swapping c.active, c))
      × (attempt_step (swapping c.active) c ≡ (acquired, c'))
      × (try_acquire c ≡ (c', true))
unfolding try_acquire
room_steps c room = (
  rw (room, attempt_step) refl,
  rw (int_eq_refl c.active, attempt_step) refl,
  rw (room, try_acquire, attempt_step) (rw (int_eq_refl c.active, try_acquire, attempt_step) refl),
)

-- The callbacks of sessions, one after the other.
unfoldable pub ended_all : {L : Type 0} → List Bytes → Guard L → Guard L
ended_all [] g = g
ended_all (id ∷ rest) g = ended_all rest (ended id g)

module _ {L S : Type 0} where
  -- One thread's moves.
  pub data Moves : Shared L S → Thread → Shared L S → Thread → Type 0 where
    stays : {s : Shared L S} {t : Thread} → Moves s t s t
    moves :
        {s s' s'' : Shared L S} {t t' t'' : Thread}
        → Move s t s' t'
        → Moves s' t' s'' t''
        → Moves s t s'' t''

  pub Moves-trans :
      {s s' s'' : Shared L S} {t t' t'' : Thread}
      → Moves s t s' t'
      → Moves s' t' s'' t''
      → Moves s t s'' t''
  Moves-trans stays n = n
  Moves-trans (moves m ms) n = moves m (Moves-trans ms n)

  pub Reach-Moves :
      {s₀ s s' : Shared L S} {t t' : Thread} (ts : List Thread)
      → Moves s t s' t'
      → Reach s₀ s (t ∷ ts)
      → Reach s₀ s' (t' ∷ ts)
  Reach-Moves ts stays r = r
  Reach-Moves {t} ts (moves {t'} m ms) r = Reach-Moves ts ms (step [] ts t t' refl refl m r)

  -- A thread starts, and runs to its end.
  pub Reach-call :
      {s₀ s s' : Shared L S} (t t' : Thread) (ts : List Thread)
      → starts t ≡ true
      → Moves s t s' t'
      → Reach s₀ s ts
      → Reach s₀ s' (t' ∷ ts)
  Reach-call t t' ts h ms r = Reach-Moves ts ms (spawn t h r)

  one_attempt :
      (d : Bytes) (s : Shared L S) (a a' : Attempt) (c : ConcurrencyLimiter)
      → attempt_step a s.guard.concurrency ≡ (a', c)
      → Move s (acquiring d a) (limited s c) (after_attempt d a')
  one_attempt d s a a' c e =
      subst (λ r. Move s (acquiring d a) (limited s r.1) (after_attempt d r.0)) e (attempt d a)

  -- TryAcquire
  pub solo_acquire :
      (d : Bytes) (s : Shared L S)
      → let (c, granted) = try_acquire s.guard.concurrency in
        Moves s
          (acquiring d loading)
          (limited s c)
          (if granted then holding d else releasing released)
  solo_acquire d s =
      let c = s.guard.concurrency in
      elim (Bool-cases (geb c.active c.max_concurrent)) [
        | inl full ↦
            let (e, whole) = full_steps c full in
            rw whole (moves (one_attempt d s loading refused _ e) stays)
        | inr room ↦
            let (e, e', whole) = room_steps c room in
            rw whole (
              moves (one_attempt d s loading (swapping c.active) c e)
                (moves (one_attempt d s (swapping c.active) acquired _ e') stays))
      ]

  one_release :
      (s : Shared L S) (r r' : Releasing) (c : ConcurrencyLimiter)
      → release_step r s.guard.concurrency ≡ (r', c)
      → Move s (releasing r) (limited s c) (releasing r')
  one_release s r r' c e =
      subst (λ x. Move s (releasing r) (limited s x.1) (releasing x.0)) e (release_slot r)

  one_free :
      (rest : List Bytes) (s : Shared L S) (r r' : Releasing) (c : ConcurrencyLimiter)
      → release_step r s.guard.concurrency ≡ (r', c)
      → Move s (freeing rest r) (limited s c) (after_release rest r')
  one_free rest s r r' c e =
      subst (λ x. Move s (freeing rest r) (limited s x.1) (after_release rest x.0)) e
        (free_slot rest r)

  -- Release, after a request that failed and in a callback.
  pub solo_release :
      (s : Shared L S)
      → Moves s (releasing adding) (limited s (release s.guard.concurrency)) (releasing released)
  unfolding release release_step
  solo_release s =
      let c = s.guard.concurrency in
      elim (Bool-cases (is_negative (decrement c.active))) [
        | inl below ↦
            let c' = record c { active = decrement c.active } in
            let whole : release c ≡ record c { active = pos 0 } =
              rw (below, release, release_step) refl in
            rw whole (
              moves (one_release s adding resetting c' (rw (below, release_step) refl))
                (moves (one_release (limited s c') resetting released _ refl) stays))
        | inr fine ↦
            let whole : release c ≡ record c { active = decrement c.active } =
              rw (fine, release, release_step) refl in
            rw whole (moves (one_release s adding released _ (rw (fine, release_step) refl)) stays)
      ]

  solo_free :
      (rest : List Bytes) (s : Shared L S)
      → Moves s (freeing rest adding) (limited s (release s.guard.concurrency)) (notifying rest)
  unfolding release release_step
  solo_free rest s =
      let c = s.guard.concurrency in
      elim (Bool-cases (is_negative (decrement c.active))) [
        | inl below ↦
            let c' = record c { active = decrement c.active } in
            let whole : release c ≡ record c { active = pos 0 } =
              rw (below, release, release_step) refl in
            rw whole (
              moves (one_free rest s adding resetting c' (rw (below, release_step) refl))
                (moves (one_free rest (limited s c') resetting released _ refl) stays))
        | inr fine ↦
            let whole : release c ≡ record c { active = decrement c.active } =
              rw (fine, release, release_step) refl in
            rw whole
              (moves (one_free rest s adding released _ (rw (fine, release_step) refl)) stays)
      ]

  pub solo_notify :
      (rest : List Bytes) (s : Shared L S)
      → Moves s (notifying rest) (record s { guard = ended_all rest s.guard }) (notifying [])
  unfolding ended_all
  solo_notify [] s = stays
  solo_notify (id ∷ rest) s =
      let unbound : Shared L S = record s { guard = release_session id s.guard } in
      moves (unbind id rest) (
        Moves-trans (solo_free rest unbound)
          (solo_notify rest (limited unbound (release unbound.guard.concurrency))))
