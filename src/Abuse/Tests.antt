-- ===== src/Abuse/Tests.antt =====
-- The layers below the guard at concrete inputs, and the theorems on them.
use native.Mathlib.Nat.{suc-mul}
use docpine.Base.{
  ◌≤◌, zero, suc, ◌-◌, ℕ, ◌+◌, ◌*◌, ◌/◌, ◌≡◌, ◌↔◌, refl, true, false, none, some, List, [], ◌∷◌,
  ◌++◌, Bytes, codes, Dict, IsDict, lookup, ltb, if◌then◌else◌, ℤ, pos, negsuc, arith,
}
use docpine.Text.Decimal.{parse_int}
use docpine.Abuse.Concurrency.{ConcurrencyLimiter, new_concurrency_limiter, try_acquire, release}
use docpine.Abuse.Cookie.{second, is_stale, is_early, sign, verify, cookie_value}
use docpine.Abuse.Cookie.Signing.{verify-cookie_value, verify_sound}
use docpine.Abuse.ClientIp.{first_address, remote_address, get_client_ip}
use docpine.Abuse.ClientIp.Sources.{candidates, get_client_ip-first_address}
use docpine.Abuse.RateLimiter.{RateLimiter, new_rate_limiter, refuses, allow, evict_stale_entries}
use docpine.Abuse.RateLimiter.Layers.{pair_bucket, ip_bucket, allow_iff}
use docpine.Abuse.RateLimiter.Eviction.{Keeps, evict_stale_entries_lem}
use docpine.Abuse.RateLimiter.Stretch.{
  IsTokenBucket, Call, IsOrdered, from_address, from_pair, admitted,
}
use docpine.Abuse.RateLimiter.Budget.{admitted-le}
use docpine.Background.{Wake, ticked, stopped}
use docpine.Fixtures.{peers, purses, parse_address}

abbrev two_slots : ConcurrencyLimiter
two_slots = record { max_concurrent = pos 2; active = pos 1; total_rejected = 0 }

limiter_tests :
    ((try_acquire two_slots).1 ≡ true)
    × ((try_acquire (try_acquire two_slots).0).1 ≡ false)
    × ((release (release two_slots)).active ≡ pos 0)
    × ((new_concurrency_limiter (negsuc 4)).max_concurrent ≡ pos 12)
unfolding try_acquire release new_concurrency_limiter
limiter_tests = (refl, refl, refl, refl)

abbrev device : Bytes
device = codes "d1"

abbrev key : Bytes
key = codes "k"

verify-cookie_value_example :
    verify peers.mac key
      (cookie_value peers.mac key device 12_500_000_000)
      612_000_000_001
      12_500_000_000
    ≡ (if ltb (12_500_000_000 / second * second + 600 * second) 612_000_000_001
        then none
        else some device)
verify-cookie_value_example =
    verify-cookie_value peers.mac key device 12_500_000_000 612_000_000_001 12_500_000_000
      (omega arith, (omega arith, tt)) (omega arith) (omega arith)

verify_sound_example :
    (ts_str : Bytes) × (ts : ℤ) × (cookie_value peers.mac key device 12_500_000_000
      ≡ device ++ (b'.' ∷ (ts_str ++ (b'.' ∷ sign peers.mac key device ts))))
    × (parse_int ts_str ≡ some ts)
    × (is_stale ts 12_600_000_000 ≡ false)
    × (is_early ts 12_600_000_000 ≡ false)
verify_sound_example =
    verify_sound peers.mac key (cookie_value peers.mac key device 12_500_000_000) device
      12_600_000_000 12_600_000_000
      (verify-cookie_value peers.mac key device 12_500_000_000 12_600_000_000 12_600_000_000
        (omega arith, (omega arith, tt)) (omega arith) (omega arith))

abbrev proxied : Dict Bytes
proxied =
    (codes "CF-Connecting-IP", codes " 5.5.5.5 ")
    ∷ (codes "X-Forwarded-For", codes "unknown, 9.9.9.9")
    ∷ []

abbrev forwarded : Dict Bytes
forwarded = (codes "X-Forwarded-For", codes "unknown, 9.9.9.9,8.8.8.8") ∷ []

-- One token is left for the pair, and three for its address.
abbrev drained : RateLimiter ℕ
drained = record {
  burst = pos 2;
  refill_rate = pos 1;
  pairs = (codes "9.9.9.9:d1", record { limiter = 1; last_seen = 5 }) ∷ [];
  ip_only = (codes "9.9.9.9", record { limiter = 3; last_seen = 5 }) ∷ [];
}

abbrev clock : ℕ → ℕ
clock n = 70 + n

allow_iff_example :
    let (rl', allowed, retry_after) = allow purses (codes "9.9.9.9") device clock drained in
    let r_pair =
      (purses.reserve (pair_bucket purses (codes "9.9.9.9") device drained) (clock 1)).1 in
    let r_ip = (purses.reserve (ip_bucket purses (codes "9.9.9.9") drained) (clock 3)).1 in
    ((allowed ≡ true)
      ↔ ((refuses purses r_pair (clock 2) ≡ false) × (refuses purses r_ip (clock 4) ≡ false)))
    × (allowed ≡ true → retry_after ≡ 0)
    × (refuses purses r_pair (clock 2) ≡ true
        → ip_bucket purses (codes "9.9.9.9") rl' ≡ ip_bucket purses (codes "9.9.9.9") drained)
allow_iff_example = allow_iff purses (codes "9.9.9.9") device clock drained

drained-IsDict : IsDict drained.pairs × IsDict drained.ip_only
unfolding lookup
drained-IsDict = ((refl, tt), (refl, tt))

-- The second round comes more than an hour after the buckets were drawn on.
abbrev rounds : List Wake
rounds = ticked 99 ∷ ticked 9_000_000_000_000 ∷ stopped ∷ []

evict_stale_entries_lem_example :
    let rl' = evict_stale_entries rounds drained in
    ((key : Bytes)
      → Keeps rounds key drained.pairs rl'.pairs × Keeps rounds key drained.ip_only rl'.ip_only)
    × IsDict rl'.pairs
    × IsDict rl'.ip_only
evict_stale_entries_lem_example =
    evict_stale_entries_lem rounds drained drained-IsDict.0 drained-IsDict.1

get_client_ip-first_address_example :
    get_client_ip parse_address peers.split_host_port forwarded (codes "1.2.3.4")
    ≡ elim (first_address parse_address (candidates forwarded)) [
      | some ip ↦ ip
      | none ↦ remote_address parse_address peers.split_host_port (codes "1.2.3.4")
    ]
get_client_ip-first_address_example =
    get_client_ip-first_address parse_address peers.split_host_port forwarded (codes "1.2.3.4") refl

purse_pays : (i l t : ℕ) → refuses purses l t ≡ false → (l - 1) * i + i ≤ l * i
unfolding refuses
purse_pays i zero t h = absurd (cc)
purse_pays i (suc l) t h =
    let one_less : suc l - 1 ≡ l = omega arith in rw one_less (omega (arith, suc-mul l i))

-- Buckets that are never refilled.
purses-IsTokenBucket : IsTokenBucket purses (λ i l. Unit) (λ i l t. l * i)
unfolding refuses
purses-IsTokenBucket = record {
  makes = λ i b. tt;
  fills = λ i b t. omega arith;
  reserves = λ i l t k. k;
  cancels = λ i l t t' k. k;
  earns = λ i l t t' k late. omega arith;
  pays = λ i l t t' k late h. purse_pays i l t' h;
  restores = λ i l t t' k late. omega arith;
}

-- Two devices that claim one address.
abbrev two_calls : List Call
two_calls =
    record { ip = codes "1.2.3.4"; device = codes "d1"; clock = λ n. n }
    ∷ record { ip = codes "1.2.3.4"; device = codes "d2"; clock = λ n. 10 + n }
    ∷ []

two_calls-IsOrdered : IsOrdered 0 two_calls 20
unfolding IsOrdered
two_calls-IsOrdered = (omega arith, λ n. omega arith, (omega arith, λ n. omega arith, omega arith))

abbrev starting : RateLimiter ℕ
starting = new_rate_limiter (pos 3) (pos 50)

admitted-le_example :
    (admitted purses (from_address (codes "1.2.3.4")) two_calls starting * (50 / 2)
      ≤ 3 * 2 * (50 / 2) + (20 - 0))
    × (admitted purses (from_pair (codes "1.2.3.4") (codes "d1")) two_calls starting * 50
        ≤ 3 * 50 + (20 - 0))
admitted-le_example =
    admitted-le purses (λ i l. Unit) (λ i l t. l * i) purses-IsTokenBucket 50 3 (codes "1.2.3.4")
      (codes "d1") two_calls 0 20 two_calls-IsOrdered
