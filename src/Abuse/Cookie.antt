-- ===== src/Abuse/Cookie.antt =====
-- internal/abuse/cookie.go: the signed cookie that names a device. Times are nanoseconds since the
-- Unix epoch; `mac` is HMAC-SHA256 under the manager's secret, which the program only calls.
pub mod Signing
use docpine.Base.{
  ℕ, ◌+◌, ◌*◌, ◌/◌, Bool, true, false, ◌||◌, Option, none, some, List, [], ◌∷◌, ◌++◌, Bytes, codes,
  ltb, if◌then◌else◌, str_eq, ℤ, pos, negsuc,
}
use docpine.Http.{Cookie}
use docpine.Text.{split, hex_encode}
use docpine.Text.Decimal.{print_int, parse_int}

abbrev pub device_cookie_name : Bytes
device_cookie_name = codes "__dp_dev"

-- Seconds.
abbrev pub device_cookie_max_age : ℕ
device_cookie_max_age = 10 * 60

abbrev pub second : ℕ
second = 1_000_000_000

-- time.Since(cookieTime) > maxAge, at the reading `now`.
unfoldable pub is_stale : ℤ → ℕ → Bool
is_stale (pos ts) now = ltb (ts * second + device_cookie_max_age * second) now
is_stale (negsuc ts) now = ltb (device_cookie_max_age * second) (now + (ts + 1) * second)

-- time.Until(cookieTime) > 5*time.Minute, at the reading `now`.
unfoldable pub is_early : ℤ → ℕ → Bool
is_early (pos ts) now = ltb (now + 300 * second) (ts * second)
is_early (negsuc ts) now = false

module _ (mac : Bytes → Bytes → Bytes) (secret : Bytes) where
  unfoldable pub sign : Bytes → ℤ → Bytes
  sign device_id timestamp = hex_encode (mac secret (device_id ++ b'.' ∷ print_int timestamp))

  -- Whether a cookie with these three parts is accepted; `now` and `now'` are the readings of the
  -- clock for its age and for its lead.
  unfoldable pub verify_parts : Bytes → Bytes → Bytes → ℕ → ℕ → Option Bytes
  verify_parts device_id ts_str signature now now' = elim (parse_int ts_str) [
    | none ↦ none
    | some ts ↦
        if is_stale ts now || is_early ts now'
        then none
        else if str_eq signature (sign device_id ts)
        then some device_id
        else none
  ]

  verify_list : List Bytes → ℕ → ℕ → Option Bytes
  verify_list (device_id ∷ ts_str ∷ signature ∷ []) now now' =
      verify_parts device_id ts_str signature now now'
  verify_list _ now now' = none

  unfoldable pub verify : Bytes → ℕ → ℕ → Option Bytes
  unfolding verify_list
  verify cookie_val now now' = verify_list (split b'.' cookie_val) now now'

  -- The value of a new cookie, issued at the reading `now`.
  unfoldable pub cookie_value : Bytes → ℕ → Bytes
  cookie_value new_id now =
      let ts = pos (now / second) in new_id ++ (b'.' ∷ (print_int ts ++ (b'.' ∷ sign new_id ts)))

  unfoldable pub new_cookie : Bytes → ℕ → Cookie
  new_cookie new_id now = record {
    name = device_cookie_name;
    value = cookie_value new_id now;
    path = codes "/";
    max_age = device_cookie_max_age;
    http_only = true;
    secure = true;
    same_site_none = true;
  }

  issue : Bytes → ℕ → Bytes × Option Cookie
  issue uuid now = (uuid, some (new_cookie uuid now))

  -- The device id, and the cookie that the response sets, if it sets one. `sent` is the value of
  -- the request's cookie; `clock` gives the readings of the clock in their order.
  unfoldable pub get_or_set : Option Bytes → Bytes → (ℕ → ℕ) → Bytes × Option Cookie
  unfolding issue
  get_or_set none uuid clock = issue uuid (clock 0)
  get_or_set (some value) uuid clock = elim (verify value (clock 0) (clock 1)) [
    | some device_id ↦ (device_id, none)
    | none ↦ issue uuid (clock 2)
  ]
