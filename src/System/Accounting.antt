-- ===== src/System/Accounting.antt =====
-- Every slot of the counter belongs to a session or to a thread, whatever the interleaving.
use docpine.Base.{
  ℕ, suc, ◌+◌, ◌≤◌, ◌≡◌, refl, sym, ap, ◌∙◌, ◌≢◌, true, false, List, [], ◌∷◌, ◌++◌, map, length,
  Bytes, Dict, IsDict, insert-IsDict, delete-IsDict, length-insert_fresh, length-delete, arith, All,
  total, total-append, All-pick, All-replace, ℤ, pos, magnitude, geb,
}
use docpine.Session.{Session, expired, values}
use docpine.Session.Reaper.{remaining-IsDict, length-expired}
use docpine.Abuse.Concurrency.{
  loading, swapping, acquired, refused, attempt_step, adding, resetting, released, release_step,
  IsBounded,
}
use docpine.Abuse.Guard.{register_session, release_session}
use docpine.System.{
  Thread, checking, acquiring, holding, provisioning, releasing, destroying, reaping, closing,
  notifying, freeing, Shared, ids, Move, find_free, find_busy, attempt, refuse, pass,
  provision_failed, provisioned, bind, release_slot, remove, remove_absent, reap, close_all, unbind,
  free_slot, starts, Reach, here, spawn, step,
}

-- The slots that a thread holds or has still to give back.
abbrev pub owed : Thread → ℕ
owed (holding d) = 1
owed (provisioning d) = 1
owed (releasing adding) = 1
owed (notifying ids) = length ids
owed (freeing rest adding) = suc (length rest)
owed (freeing rest resetting) = length rest
owed (freeing rest released) = length rest
owed _ = 0

-- A thread is not about to reset the counter, nor to take a slot on a load that saw the ceiling.
abbrev pub IsSound : ℤ → Thread → Type 0
IsSound ceiling (acquiring d (swapping current)) = geb current ceiling ≡ false
IsSound ceiling (acquiring d acquired) = ⊥
IsSound ceiling (acquiring d refused) = ⊥
IsSound ceiling (releasing resetting) = ⊥
IsSound ceiling (freeing rest resetting) = ⊥
IsSound ceiling (freeing rest released) = ⊥
IsSound ceiling _ = Unit

-- What holds of the counter and the registry, with `n` slots owed by the other threads.
pub record Balance {L S : Type 0} (n : ℕ) (s : Shared L S) (t : Thread) : Type 0 where
  pub balanced : s.guard.concurrency.active ≡ pos (length s.sessions + owed t + n)
  pub bounded : IsBounded s.guard.concurrency
  pub distinct : IsDict s.sessions
  pub sound : IsSound s.guard.concurrency.max_concurrent t

pub length-map : {A B : Type 0} (f : A → B) (xs : List A) → length (map f xs) ≡ length xs
length-map f [] = refl
length-map f (x ∷ xs) = ap suc (length-map f xs)

pub length-values : {S : Type 0} (m : Dict (Session S)) → length (values m) ≡ length m
unfolding values
length-values [] = refl
length-values ((id, s) ∷ m) = ap suc (length-values m)

module _ {L S : Type 0} where
  Move-Balance :
      {s s' : Shared L S} {t t' : Thread} (n : ℕ)
      → Move s t s' t'
      → Balance n s t
      → Balance n s' t' × (s'.guard.concurrency.max_concurrent ≡ s.guard.concurrency.max_concurrent)
  unfolding attempt_step release_step register_session release_session
  Move-Balance n (find_free d h) b = ground arith
  Move-Balance n (find_busy d h) b = ground arith
  Move-Balance n (attempt d loading) b = ground arith
  Move-Balance n (attempt d (swapping c)) b = ground arith
  Move-Balance n (attempt d acquired) b = absurd b.sound
  Move-Balance n (attempt d refused) b = absurd b.sound
  Move-Balance n (refuse d) b = ground arith
  Move-Balance n (pass d) b = ground arith
  Move-Balance n (provision_failed d) b = ground arith
  Move-Balance n (provisioned {s} d sess fresh) b = ground (
    arith,
    length-insert_fresh sess.id sess s.sessions fresh,
    insert-IsDict sess.id sess s.sessions,
  )
  Move-Balance n (bind d id) b = ground arith
  Move-Balance n (release_slot adding) b = ground arith
  Move-Balance n (release_slot resetting) b = absurd b.sound
  Move-Balance n (release_slot released) b = ground arith
  Move-Balance n (remove {s} id sess found) b =
      ground (arith, length-delete id sess s.sessions b.distinct found, delete-IsDict id s.sessions)
  Move-Balance n (remove_absent id h) b = ground arith
  Move-Balance n (reap {s} now) b = ground (
    arith,
    length-expired now s.sessions,
    length-map (λ (x : Session S). x.id) (expired now s.sessions),
    remaining-IsDict now s.sessions b.distinct,
  )
  Move-Balance n (close_all {s}) b =
      ground
        (arith, length-map (λ (x : Session S). x.id) (values s.sessions), length-values s.sessions)
  Move-Balance n (unbind id rest) b = ground arith
  Move-Balance n (free_slot rest adding) b = ground arith
  Move-Balance n (free_slot rest resetting) b = absurd b.sound
  Move-Balance n (free_slot rest released) b = absurd b.sound

-- What holds in every reachable state.
pub record Inv {L S : Type 0} (ceiling : ℤ) (s : Shared L S) (ts : List Thread) : Type 0 where
  pub balanced : s.guard.concurrency.active ≡ pos (length s.sessions + total owed ts)
  pub bounded : IsBounded s.guard.concurrency
  pub distinct : IsDict s.sessions
  pub sound : All (IsSound s.guard.concurrency.max_concurrent) ts
  pub steady : s.guard.concurrency.max_concurrent ≡ ceiling

pub owed-starts : (t : Thread) → starts t ≡ true → owed t ≡ 0
owed-starts (checking d) h = refl
owed-starts (destroying id) h = refl
owed-starts (reaping now) h = refl
owed-starts closing h = refl
owed-starts _ h = cc

starts-IsSound : (c : ℤ) (t : Thread) → starts t ≡ true → IsSound c t
starts-IsSound c (checking d) h = tt
starts-IsSound c (destroying id) h = tt
starts-IsSound c (reaping now) h = tt
starts-IsSound c closing h = tt
starts-IsSound c _ h = cc

module _ {L S : Type 0} where
  -- An invariant state, seen from one of its threads.
  pub Inv-Balance :
      (c : ℤ) {s : Shared L S} {ts : List Thread} (before after : List Thread) (t : Thread)
      → ts ≡ before ++ (t ∷ after)
      → Inv c s ts
      → Balance (total owed before + total owed after) s t
  Inv-Balance c {s} before after t e v =
      let ceiling = s.guard.concurrency.max_concurrent in
      let sound : All (IsSound ceiling) (before ++ (t ∷ after)) = rw e at v.sound in
      record {
        balanced =
            v.balanced
            ∙ ap pos (omega (arith, ap (total owed) e, total-append owed before (t ∷ after)));
        bounded = v.bounded;
        distinct = v.distinct;
        sound = All-pick (IsSound ceiling) before after t sound;
      }

  pub step-Inv :
      (c : ℤ) {s s' : Shared L S} {ts ts' : List Thread} (before after : List Thread)
      (t t' : Thread)
      → ts ≡ before ++ (t ∷ after)
      → ts' ≡ before ++ (t' ∷ after)
      → Move s t s' t'
      → Inv c s ts
      → Inv c s' ts'
  step-Inv c {s} {s'} {ts} {ts'} before after t t' e e' m v =
      let start = Inv-Balance c before after t e v in
      let (b, same) = Move-Balance (total owed before + total owed after) m start in
      record {
        balanced =
            b.balanced
            ∙ ap pos (omega (arith, ap (total owed) e', total-append owed before (t' ∷ after)));
        bounded = b.bounded;
        distinct = b.distinct;
        sound = rw e' (
            All-replace (IsSound s'.guard.concurrency.max_concurrent) before after t t' b.sound
              (rw (same, sym e) v.sound));
        steady = same ∙ v.steady;
      }

  Reach-Inv :
      (c : ℤ) {s₀ s : Shared L S} {ts : List Thread} → Inv c s₀ [] → Reach s₀ s ts → Inv c s ts
  Reach-Inv c v here = v
  Reach-Inv c v (spawn t h r) =
      let w = Reach-Inv c v r in
      record {
        balanced = w.balanced ∙ ap pos (omega (arith, owed-starts t h));
        bounded = w.bounded;
        distinct = w.distinct;
        sound = (starts-IsSound _ t h, w.sound);
        steady = w.steady;
      }
  Reach-Inv c v (step before after t t' e e' m r) =
      step-Inv c before after t t' e e' m (Reach-Inv c v r)

  -- The server as it starts: no session, and a counter at 0 under a positive ceiling.
  abbrev pub IsFresh : Shared L S → Type 0
  IsFresh s =
      (s.sessions ≡ []) × (s.guard.concurrency.active ≡ pos 0) × IsBounded s.guard.concurrency

  fresh-Inv : (s : Shared L S) → IsFresh s → Inv s.guard.concurrency.max_concurrent s []
  fresh-Inv s f = record {
    balanced = f.1 ∙ ap pos (omega (arith, ap length f.0));
    bounded = f.2;
    distinct = rw f.0 tt;
    sound = tt;
    steady = refl;
  }

  pub reached :
      {s₀ s : Shared L S} {ts : List Thread}
      → IsFresh s₀
      → Reach s₀ s ts
      → Inv s₀.guard.concurrency.max_concurrent s ts
  reached {s₀} f r = Reach-Inv s₀.guard.concurrency.max_concurrent (fresh-Inv s₀ f) r

  -- From a fresh server on, however the requests, the reaper, the destructions and the shutdown
  -- interleave, the slot counter is the number of registered sessions and of the slots that threads
  -- hold or have still to give back.
  pub active-sessions :
      {s₀ s : Shared L S} {ts : List Thread}
      → IsFresh s₀
      → Reach s₀ s ts
      → s.guard.concurrency.active ≡ pos (length s.sessions + total owed ts)
  active-sessions f r = (reached f r).balanced

  -- From a fresh server on, in every interleaving, the registered sessions and the slots that
  -- threads hold or have still to give back are together at most the ceiling that the server
  -- started with.
  pub sessions-le-max :
      {s₀ s : Shared L S} {ts : List Thread}
      → IsFresh s₀
      → Reach s₀ s ts
      → length s.sessions + total owed ts ≤ magnitude s₀.guard.concurrency.max_concurrent
  sessions-le-max f r = let v = reached f r in ground (arith, v.balanced, v.steady, v.bounded)

  -- From a fresh server on, in every interleaving, no call of Release finds the counter below 0 and
  -- is about to reset it, neither after a failed request nor in a callback.
  pub never_resets :
      {s₀ s : Shared L S} {ts : List Thread} (before after : List Thread) (rest : List Bytes)
      → IsFresh s₀
      → Reach s₀ s ts
      → (ts ≢ before ++ (releasing resetting ∷ after))
        × (ts ≢ before ++ (freeing rest resetting ∷ after))
  never_resets before after rest f r =
      let v = reached f r in
      (
        λ e. All-pick (IsSound _) before after (releasing resetting) (rw e at v.sound),
        λ e. All-pick (IsSound _) before after (freeing rest resetting) (rw e at v.sound),
      )
