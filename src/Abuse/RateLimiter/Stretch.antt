-- ===== src/Abuse/RateLimiter/Stretch.antt =====
-- A stretch of calls of Allow, and what the calls of golang.org/x/time/rate do.
use docpine.Base.{
  Bool, ℕ, suc, ◌+◌, ◌-◌, ◌*◌, ◌≤◌, ◌≡◌, false, List, [], ◌∷◌, Bytes, str_eq, if◌then◌else◌, pos,
}
use docpine.Abuse.RateLimiter.{pair_key, Buckets, RateLimiter, refuses, allow}

-- The behaviour of golang.org/x/time/rate that bounds what a bucket yields. `ticks i l` says that
-- `l` earns a token in each `i` nanoseconds, and `level i l t` is what it holds at `t`, in
-- nanoseconds of earning: a bucket is full at most when it is made, earns no more than the time
-- that passes, and pays for a token that it yields at once; a reservation that is cancelled leaves
-- no more than there was.
pub record IsTokenBucket {L R : Type 0} (rate : Buckets L R) (ticks : ℕ → L → Type 0)
    (level : ℕ → L → ℕ → ℕ) : Type 0 where
  pub makes : (i b : ℕ) → ticks i (rate.new_limiter (pos i) (pos b))
  pub fills : (i b t : ℕ) → level i (rate.new_limiter (pos i) (pos b)) t ≤ b * i
  pub reserves : (i : ℕ) (l : L) (t : ℕ) → ticks i l → ticks i (rate.reserve l t).0
  pub cancels :
      (i : ℕ) (l : L) (t t' : ℕ)
      → ticks i l
      → let (l', r) = rate.reserve l t in ticks i (rate.cancel r l' t')
  pub earns :
      (i : ℕ) (l : L) (t t' : ℕ) → ticks i l → t ≤ t' → level i l t' ≤ level i l t + (t' - t)
  pub pays :
      (i : ℕ) (l : L) (t t' : ℕ)
      → ticks i l
      → t ≤ t'
      → refuses rate (rate.reserve l t).1 t' ≡ false
      → level i (rate.reserve l t).0 t' + i ≤ level i l t'
  pub restores :
      (i : ℕ) (l : L) (t t' : ℕ)
      → ticks i l
      → t ≤ t'
      → let (l', r) = rate.reserve l t in level i (rate.cancel r l' t') t' ≤ level i l t'

-- A call of Allow, with its readings of the clock.
pub record Call : Type 0 where
  pub ip : Bytes
  pub device : Bytes
  pub clock : ℕ → ℕ

-- The clock does not go back, within a call and from one to the next.
unfoldable pub IsOrdered : ℕ → List Call → ℕ → Type 0
IsOrdered start [] end = start ≤ end
IsOrdered start (c ∷ cs) end =
    (start ≤ c.clock 0) × ((n : ℕ) → c.clock n ≤ c.clock (suc n)) × IsOrdered (c.clock 7) cs end

abbrev pub from_address : Bytes → Call → Bool
from_address ip c = str_eq c.ip ip

abbrev pub from_pair : Bytes → Bytes → Call → Bool
from_pair ip device c = str_eq (pair_key c.ip c.device) (pair_key ip device)

module _ {L R : Type 0} (rate : Buckets L R) where
  unfoldable pub allow_all : List Call → RateLimiter L → RateLimiter L
  allow_all [] rl = rl
  allow_all (c ∷ cs) rl = allow_all cs (allow rate c.ip c.device c.clock rl).0

  -- The calls of a kind that are admitted.
  unfoldable pub admitted : (Call → Bool) → List Call → RateLimiter L → ℕ
  admitted mine [] rl = 0
  admitted mine (c ∷ cs) rl =
      let (rl', allowed, retry_after) = allow rate c.ip c.device c.clock rl in
      let rest = admitted mine cs rl' in
      if mine c then (if allowed then suc rest else rest) else rest
