-- ===== src/System/Stuck.antt =====
-- Threads that leave a device and a session alone, and registries without the session.
pub mod Onward
pub mod Binding
use mathlib.Core.Path.{subst}
use docpine.Base.{
  ◌≡◌, ◌≢◌, true, Bool-cases, inl, inr, some, List, [], ◌∷◌, Bytes, Dict, lookup, All, str_eq,
  str_eq_iff, ℕ,
}
use docpine.Session.{Session, remaining, expired, values, has_expired}
use docpine.Abuse.Concurrency.{
  Attempt, loading, swapping, acquired, refused, Releasing, adding, resetting, released,
}
use docpine.System.{
  Thread, checking, acquiring, holding, provisioning, registering, destroying, reaping, closing,
  notifying, freeing, ids, after_attempt, after_release, starts,
}

-- Neither the key nor the id of an entry is `id`.
abbrev pub Unlike : {S : Type 0} → Bytes → Bytes × Session S → Type 0
Unlike id (k, s) = (k ≢ id) × (s.id ≢ id)

-- A thread that is not to bind `d`, nor to end `id`.
abbrev pub Calm : Bytes → Bytes → Thread → Type 0
Calm d id (acquiring e a) = e ≢ d
Calm d id (holding e) = e ≢ d
Calm d id (provisioning e) = e ≢ d
Calm d id (registering e j) = (e ≢ d) × (j ≢ id)
Calm d id (notifying js) = All (λ j. j ≢ id) js
Calm d id (freeing js r) = All (λ j. j ≢ id) js
Calm d id _ = Unit

pub Unlike-lookup :
    {S : Type 0} (id k : Bytes) (s : Session S) (m : Dict (Session S))
    → lookup k m ≡ some s
    → All (Unlike id) m
    → k ≢ id
unfolding lookup
Unlike-lookup id k s [] h a = absurd (cc)
Unlike-lookup id k s ((j, x) ∷ m) h a = elim (Bool-cases (str_eq j k)) [
  | inl same ↦ subst (λ i. i ≢ id) ((str_eq_iff j k).0 same) a.0.0
  | inr other ↦ Unlike-lookup id k s m (rw (other) at h) a.1
]

pub Unlike-remaining :
    {S : Type 0} (now : ℕ) (id : Bytes) (m : Dict (Session S))
    → All (Unlike id) m
    → All (Unlike id) (remaining now m) × All (λ j. j ≢ id) (ids (expired now m))
unfolding remaining expired
Unlike-remaining now id [] a = (tt, tt)
Unlike-remaining now id ((j, x) ∷ m) a =
    let (kept, gone) = Unlike-remaining now id m a.1 in
    elim (Bool-cases (has_expired now x)) [
      | inl late ↦ rw late (kept, (a.0.1, gone))
      | inr fine ↦ rw fine ((a.0, kept), gone)
    ]

pub Unlike-values :
    {S : Type 0} (id : Bytes) (m : Dict (Session S))
    → All (Unlike id) m
    → All (λ j. j ≢ id) (ids (values m))
unfolding values
Unlike-values id [] a = tt
Unlike-values id ((j, x) ∷ m) a = (a.0.1, Unlike-values id m a.1)

pub Calm-after_attempt : (d id e : Bytes) (a : Attempt) → e ≢ d → Calm d id (after_attempt e a)
Calm-after_attempt d id e loading n = n
Calm-after_attempt d id e (swapping c) n = n
Calm-after_attempt d id e acquired n = n
Calm-after_attempt d id e refused n = tt

pub Calm-after_release :
    (d id : Bytes) (js : List Bytes) (r : Releasing)
    → All (λ j. j ≢ id) js
    → Calm d id (after_release js r)
Calm-after_release d id js adding a = a
Calm-after_release d id js resetting a = a
Calm-after_release d id js released a = a

pub Calm-starts : (d id : Bytes) (t : Thread) → starts t ≡ true → Calm d id t
Calm-starts d id (checking e) h = tt
Calm-starts d id (destroying j) h = tt
Calm-starts d id (reaping now) h = tt
Calm-starts d id closing h = tt
Calm-starts d id _ h = absurd (cc)
