-- ===== src/Abuse/RateLimiter/Draws.antt =====
-- What a call of Allow does to the two buckets that it draws on, and what they pay for.
use docpine.Base.{ℕ, suc, ◌+◌, ◌-◌, ◌≤◌, ◌≡◌, false, if◌then◌else◌, arith, Bool-cases, inl, inr}
use docpine.Abuse.RateLimiter.{Buckets, refuses, draw}
use docpine.Abuse.RateLimiter.Stretch.{IsTokenBucket}

pub in_order :
    (t : ℕ) (clock : ℕ → ℕ)
    → t ≤ clock 0
    → ((n : ℕ) → clock n ≤ clock (suc n))
    → (t ≤ clock 1)
      × (clock 1 ≤ clock 2)
      × (clock 2 ≤ clock 3)
      × (clock 3 ≤ clock 4)
      × (clock 4 ≤ clock 6)
      × (clock 6 ≤ clock 7)
in_order t clock late onward = (
  omega (arith, late, onward 0),
  onward 1,
  onward 2,
  onward 3,
  omega (arith, onward 4, onward 5),
  onward 6,
)

module _ {L R : Type 0} (rate : Buckets L R) (ticks : ℕ → L → Type 0) (level : ℕ → L → ℕ → ℕ)
    (law : IsTokenBucket rate ticks level) where
  -- From `t` to `end` a bucket has become another one, and has paid a cost.
  abbrev pub Pays : ℕ → L → L → ℕ → ℕ → ℕ → Type 0
  Pays i l l' t end cost = ticks i l' × (level i l' end + cost ≤ level i l t + (end - t))

  pub waits : (i : ℕ) (l : L) (t end : ℕ) → ticks i l → t ≤ end → Pays i l l t end 0
  waits i l t end k late = (k, omega (arith, law.earns i l t end k late))

  returns :
      (i : ℕ) (l : L) (t a c end : ℕ)
      → ticks i l
      → t ≤ a
      → a ≤ c
      → c ≤ end
      → Pays i l (rate.cancel (rate.reserve l a).1 (rate.reserve l a).0 c) t end 0
  returns i l t a c end k h₁ h₂ h₃ =
      let k' = law.cancels i l a c k in
      (
        k',
        omega (
          arith,
          h₁,
          h₂,
          h₃,
          law.restores i l a c k h₂,
          law.earns i l t c k (omega (arith, h₁, h₂)),
          law.earns i (rate.cancel (rate.reserve l a).1 (rate.reserve l a).0 c) c end k' h₃,
        ),
      )

  yields :
      (i : ℕ) (l : L) (t a c end : ℕ)
      → ticks i l
      → t ≤ a
      → a ≤ c
      → c ≤ end
      → refuses rate (rate.reserve l a).1 c ≡ false
      → Pays i l (rate.reserve l a).0 t end i
  yields i l t a c end k h₁ h₂ h₃ granted =
      let k' = law.reserves i l a k in
      (
        k',
        omega (
          arith,
          h₁,
          h₂,
          h₃,
          law.pays i l a c k h₂ granted,
          law.earns i l t c k (omega (arith, h₁, h₂)),
          law.earns i (rate.reserve l a).0 c end k' h₃,
        ),
      )

  pub pair-Pays :
      (i : ℕ) (pair own : L) (t : ℕ) (clock : ℕ → ℕ)
      → t ≤ clock 0
      → ((n : ℕ) → clock n ≤ clock (suc n))
      → ticks i pair
      → let (pair', own', allowed, retry_after) = draw rate pair own clock in
        Pays i pair pair' t (clock 7) (if allowed then i else 0)
  unfolding draw
  pair-Pays i pair own t clock late onward k =
      let (o₁, o₂, o₃, o₄, o₆, o₇) = in_order t clock late onward in
      elim (Bool-cases (refuses rate (rate.reserve pair (clock 1)).1 (clock 2))) [
        | inl no_pair ↦
            rw (no_pair, draw)
              (returns i pair t (clock 1) (clock 4) (clock 7) k o₁ (omega (arith, o₂, o₃, o₄))
                (omega (arith, o₆, o₇)))
        | inr has_pair ↦ elim (Bool-cases (refuses rate (rate.reserve own (clock 3)).1 (clock 4))) [
          | inl no_ip ↦
              rw (has_pair, draw)
                (rw (no_ip, draw)
                  (returns i pair t (clock 1) (clock 6) (clock 7) k o₁
                    (omega (arith, o₂, o₃, o₄, o₆)) o₇))
          | inr has_ip ↦
              rw (has_pair, draw)
                (rw (has_ip, draw)
                  (yields i pair t (clock 1) (clock 2) (clock 7) k o₁ o₂
                    (omega (arith, o₃, o₄, o₆, o₇)) has_pair))
        ]
      ]

  pub own-Pays :
      (i : ℕ) (pair own : L) (t : ℕ) (clock : ℕ → ℕ)
      → t ≤ clock 0
      → ((n : ℕ) → clock n ≤ clock (suc n))
      → ticks i own
      → let (pair', own', allowed, retry_after) = draw rate pair own clock in
        Pays i own own' t (clock 7) (if allowed then i else 0)
  unfolding draw
  own-Pays i pair own t clock late onward k =
      let (o₁, o₂, o₃, o₄, o₆, o₇) = in_order t clock late onward in
      elim (Bool-cases (refuses rate (rate.reserve pair (clock 1)).1 (clock 2))) [
        | inl no_pair ↦
            rw (no_pair, draw) (waits i own t (clock 7) k (omega (arith, o₁, o₂, o₃, o₄, o₆, o₇)))
        | inr has_pair ↦ elim (Bool-cases (refuses rate (rate.reserve own (clock 3)).1 (clock 4))) [
          | inl no_ip ↦
              rw (has_pair, draw)
                (rw (no_ip, draw)
                  (returns i own t (clock 3) (clock 7) (clock 7) k (omega (arith, o₁, o₂, o₃))
                    (omega (arith, o₄, o₆, o₇)) (omega arith)))
          | inr has_ip ↦
              rw (has_pair, draw)
                (rw (has_ip, draw)
                  (yields i own t (clock 3) (clock 4) (clock 7) k (omega (arith, o₁, o₂, o₃)) o₄
                    (omega (arith, o₆, o₇)) has_ip))
        ]
      ]
