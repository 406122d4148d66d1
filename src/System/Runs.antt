-- ===== src/System/Runs.antt =====
-- Every run of the server's threads comes to an end, in every interleaving.
use docpine.Base.{
  ℕ, zero, suc, ◌+◌, ◌*◌, ◌≤◌, ◌<◌, ◌≡◌, refl, ap, ◌∙◌, ◌⊎◌, inl, inr, true, false, Bool-cases,
  Option-cases, List, [], ◌∷◌, ◌++◌, length, length-append, arith, All, total, total-append, ℤ, pos,
  lookup,
}
use docpine.Abuse.Concurrency.{loading, swapping, released}
use docpine.Abuse.Guard.{has_active_device_session}
use docpine.System.{
  Thread, checking, acquiring, holding, provisioning, registering, releasing, destroying, reaping,
  closing, notifying, freeing, Shared, Move, find_free, find_busy, attempt, refuse,
  provision_failed, bind, release_slot, remove, remove_absent, reap, close_all, unbind, free_slot,
  Reach, step,
}
use docpine.System.Accounting.{owed, Inv, step-Inv, IsFresh, reached}
use docpine.System.Progress.{is_done, effort, retries, Lessens, Move-Lessens}

retries-le : (a : ℤ) (t : Thread) → retries a t ≤ 2
retries-le a (acquiring d loading) = omega arith
retries-le a (acquiring d (swapping c)) = ground arith
retries-le a _ = ground arith

mul_lt : (c a b : ℕ) → a < b → c * a + c ≤ c * b
mul_lt c a zero h = ground arith
mul_lt c a (suc b) h = ground (arith, mul_lt c a b)

total-le :
    {A : Type 0} (w : A → ℕ) (n : ℕ) (xs : List A)
    → ((x : A) → w x ≤ n)
    → total w xs ≤ n * length xs
total-le w n [] h = omega arith
total-le w n (x ∷ xs) h = ground (arith, h x, total-le w n xs h)

module _ {L S : Type 0} where
  -- A bound on the moves that the threads have left.
  abbrev pub work : Shared L S → List Thread → ℕ
  work s ts =
      (2 * length ts + 1) * (4 * length s.sessions + total effort ts)
      + total (retries s.guard.concurrency.active) ts

  -- A number of moves of threads that are not at their ends, and no thread starts.
  pub data Run : ℕ → Shared L S → List Thread → Shared L S → List Thread → Type 0 where
    stop : {s : Shared L S} {ts : List Thread} → Run 0 s ts s ts
    go :
        {k : ℕ} {s s' s'' : Shared L S} {ts ts'' : List Thread} (before after : List Thread)
        (t t' : Thread)
        → ts ≡ before ++ (t ∷ after)
        → is_done t ≡ false
        → Move s t s' t'
        → Run k s' (before ++ (t' ∷ after)) s'' ts''
        → Run (suc k) s ts s'' ts''

  -- The work with one thread picked out.
  work-pick :
      (s : Shared L S) (before after : List Thread) (t : Thread)
      → work s (before ++ (t ∷ after))
        ≡ (2 * (length before + suc (length after)) + 1)
            * (4 * length s.sessions + effort t + (total effort before + total effort after))
          + (retries s.guard.concurrency.active t
              + (total (retries s.guard.concurrency.active) before
                  + total (retries s.guard.concurrency.active) after))
  work-pick s before after t =
      let w = retries s.guard.concurrency.active in
      let p : 4 * length s.sessions + total effort (before ++ (t ∷ after))
          ≡ 4 * length s.sessions + effort t + (total effort before + total effort after) =
        omega (arith, total-append effort before (t ∷ after)) in
      rw (length-append before (t ∷ after), p) (omega (arith, total-append w before (t ∷ after)))

  work-move :
      (s s' : Shared L S) (before after : List Thread) (t t' : Thread)
      → Lessens s t s' t'
      → work s' (before ++ (t' ∷ after)) < work s (before ++ (t ∷ after))
  work-move s s' before after t t' (inl less) =
      let a = s'.guard.concurrency.active in
      let p = 4 * length s.sessions + effort t + (total effort before + total effort after) in
      let p' = 4 * length s'.sessions + effort t' + (total effort before + total effort after) in
      let n = 2 * (length before + suc (length after)) + 1 in
      omega (
        arith,
        work-pick s before after t,
        work-pick s' before after t',
        mul_lt n p' p (omega (arith, less)),
        retries-le a t',
        total-le (retries a) 2 before (retries-le a),
        total-le (retries a) 2 after (retries-le a),
      )
  work-move s s' before after t t' (inr (same, steady, less)) =
      let p = 4 * length s.sessions + effort t + (total effort before + total effort after) in
      let p' = 4 * length s'.sessions + effort t' + (total effort before + total effort after) in
      let n = 2 * (length before + suc (length after)) + 1 in
      let w = retries s.guard.concurrency.active in
      let pp : p' ≡ p = omega (arith, same) in
      omega (
        arith,
        work-pick s before after t,
        work-pick s' before after t',
        ap (λ x. n * x) pp,
        ap (λ a. total (retries a) before) steady,
        ap (λ a. total (retries a) after) steady,
        less,
      )

  Run-le :
      (c : ℤ) {k : ℕ} {s s' : Shared L S} {ts ts' : List Thread}
      → Inv c s ts
      → Run k s ts s' ts'
      → (k + work s' ts' ≤ work s ts) × Inv c s' ts'
  Run-le c v stop = (omega arith, v)
  Run-le c v (go {s = s} {s' = s'} before after t t' e live m r) =
      let (rest, v') = Run-le c (step-Inv c before after t t' e refl m v) r in
      let one = work-move s s' before after t t' (Move-Lessens m v.distinct live) in
      (omega (arith, rest, one, ap (work s) e), v')

  -- No thread waits for another.
  can_move :
      (s : Shared L S) (t : Thread)
      → is_done t ≡ false
      → (s' : Shared L S) × (t' : Thread) × Move s t s' t'
  can_move s (checking d) live = elim (Bool-cases (has_active_device_session d s.guard)) [
    | inl busy ↦ (_, _, find_busy d busy)
    | inr free ↦ (_, _, find_free d free)
  ]
  can_move s (acquiring d a) live = (_, _, attempt d a)
  can_move s (holding d) live = (_, _, refuse d)
  can_move s (provisioning d) live = (_, _, provision_failed d)
  can_move s (registering d id) live = (_, _, bind d id)
  can_move s (releasing r) live = (_, _, release_slot r)
  can_move s (destroying id) live = elim (Option-cases (lookup id s.sessions)) [
    | inl absent ↦ (_, _, remove_absent id absent)
    | inr (x, there) ↦ (_, _, remove id x there)
  ]
  can_move s (reaping now) live = (_, _, reap now)
  can_move s closing live = (_, _, close_all)
  can_move s (notifying []) live = ground arith
  can_move s (notifying (id ∷ rest)) live = (_, _, unbind id rest)
  can_move s (freeing rest r) live = (_, _, free_slot rest r)

abbrev pub AllDone : List Thread → Type 0
AllDone ts = All (λ t. is_done t ≡ true) ts

find_live :
    (ts : List Thread)
    → AllDone ts
      ⊎ ((before after : List Thread) × (t : Thread) × (ts ≡ before ++ (t ∷ after))
          × (is_done t ≡ false))
find_live [] = inl tt
find_live (t ∷ ts) = elim (Bool-cases (is_done t)) [
  | inr live ↦ inr ([], ts, t, refl, live)
  | inl done ↦ elim (find_live ts) [
    | inl rest ↦ inl (done, rest)
    | inr (before, after, u, e, live) ↦ inr (t ∷ before, after, u, ap (λ us. t ∷ us) e, live)
  ]
]

owed-done : (t : Thread) → is_done t ≡ true → owed t ≡ 0
owed-done (releasing released) h = refl
owed-done (notifying []) h = refl
owed-done _ h = cc

total-owed-done : (ts : List Thread) → AllDone ts → total owed ts ≡ 0
total-owed-done [] h = refl
total-owed-done (t ∷ ts) h = omega (arith, owed-done t h.0, total-owed-done ts h.1)

module _ {L S : Type 0} where
  drain :
      (c : ℤ) (n : ℕ) {s : Shared L S} {ts : List Thread}
      → work s ts < n
      → Inv c s ts
      → (k : ℕ) × (s' : Shared L S) × (ts' : List Thread) × Run k s ts s' ts' × AllDone ts'
  drain c zero room v = ground arith
  drain c (suc n) {s} {ts} room v = elim (find_live ts) [
    | inl done ↦ (0, s, ts, stop, done)
    | inr (before, after, t, e, live) ↦
        let (s₁, t₁, m) = can_move s t live in
        let less = work-move s s₁ before after t t₁ (Move-Lessens m v.distinct live) in
        let (k, s', ts', r, done) =
          drain c n (omega (arith, room, less, ap (work s) e))
            (step-Inv c before after t t₁ e refl m v) in
        (suc k, s', ts', go before after t t₁ e live m r, done)
  ]

  Run-Reach :
      {k : ℕ} {s₀ s s' : Shared L S} {ts ts' : List Thread}
      → Reach s₀ s ts
      → Run k s ts s' ts'
      → Reach s₀ s' ts'
  Run-Reach r stop = r
  Run-Reach r (go before after t t' e live m run) =
      Run-Reach (step before after t t' e refl m r) run

  -- From a reachable state of a fresh server on, with no new request, every interleaving of the
  -- threads comes to an end, with the loops of TryAcquire included: it has at most `work s ts`
  -- moves, however the threads are scheduled and whatever the outcomes of the requests, and
  -- the state that it comes to is reachable.
  pub runs_end :
      {k : ℕ} {s₀ s s' : Shared L S} {ts ts' : List Thread}
      → IsFresh s₀
      → Reach s₀ s ts
      → Run k s ts s' ts'
      → (k ≤ work s ts) × Reach s₀ s' ts'
  runs_end {s₀} f r run =
      let (bound, v) = Run-le s₀.guard.concurrency.max_concurrent (reached f r) run in
      (omega (arith, bound), Run-Reach r run)

  -- From every reachable state of a fresh server there is a run in which every thread comes to its
  -- end, so that no thread is ever blocked for good; and then the counter is the number of the
  -- registered sessions: no slot is lost, whatever failed.
  pub drains :
      {s₀ s : Shared L S} {ts : List Thread}
      → IsFresh s₀
      → Reach s₀ s ts
      → (k : ℕ) × (s' : Shared L S) × (ts' : List Thread) × Run k s ts s' ts'
        × AllDone ts'
        × (s'.guard.concurrency.active ≡ pos (length s'.sessions))
  drains {s₀} {s} {ts} f r =
      let c = s₀.guard.concurrency.max_concurrent in
      let (k, s', ts', run, done) = drain c (suc (work s ts)) (omega arith) (reached f r) in
      let (bound, v) = Run-le c (reached f r) run in
      (k, s', ts', run, done, v.balanced ∙ ap pos (omega (arith, total-owed-done ts' done)))
