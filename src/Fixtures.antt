-- ===== src/Fixtures.antt =====
-- Concrete stand-ins for what the program only calls, on which the tests evaluate it: a runtime
-- that counts, buckets that are never refilled, a keyed checksum in the place of the MAC.
use docpine.Base.{
  ℕ, suc, ◌+◌, ◌-◌, Bool, true, false, ◌&&◌, Option, none, some, [], ◌∷◌, Bytes, codes, leb, ◌==◌,
  if◌then◌else◌, pos, magnitude,
}
use docpine.Runtime.{other, ok, err, Runtime}
use docpine.Http.{Request}
use docpine.Session.{Process, Session, new_session}
use docpine.Abuse.RateLimiter.{Buckets}
use docpine.Abuse.Turnstile.{Form, Reply, answered}
use docpine.Abuse.Guard.{Peers, Settings, Clocks}

-- The world is the number of sandboxes made so far, and the handle is the number of the sandbox.
abbrev pub counting : Runtime ℕ ℕ ℕ
counting = record {
  name = codes "counting";
  check_prerequisites = λ w. (w, none);
  create_sandbox = λ opts w. (suc w, ok w);
  close = λ w. (w, none);
  id = λ s. codes "sandbox";
  cgroup_id = λ s w. (w, ok s);
  attach_pty = λ s w. (w, ok s);
  destroy = λ s w. (w, none);
}

-- A runtime that makes nothing.
abbrev pub failing : Runtime ℕ ℕ ℕ
failing = record counting { create_sandbox = λ opts w. (w, err (other (codes "no room"))) }

-- A limiter is the tokens that are left, and a reservation those that were there.
abbrev pub delay_of : ℕ → ℕ
delay_of left = if left == 0 then 2_000_000_000 else 0

abbrev pub purses : Buckets ℕ ℕ
purses = record {
  new_limiter = λ interval burst. magnitude burst;
  reserve = λ left t. (left - 1, left);
  is_ok = λ left. true;
  delay = λ left t. delay_of left;
  cancel = λ left l t. left;
}

abbrev starts_with_digit : Bytes → Bool
starts_with_digit [] = false
starts_with_digit (c ∷ s) = leb b'0' c && leb c b'9'

abbrev pub parse_address : Bytes → Option Bytes
parse_address s = if starts_with_digit s then some s else none

abbrev pub sum_up : Bytes → ℕ
sum_up [] = 7
sum_up (c ∷ s) = c + sum_up s

-- The service that accepts every token.
abbrev pub accept_all : Form → Reply
accept_all form = answered true []

abbrev pub peers : Peers ℕ ℕ
peers = record {
  mac = λ key m. sum_up key ∷ sum_up m ∷ [];
  parse_ip = parse_address;
  split_host_port = λ s. some s;
  siteverify = accept_all;
  buckets = purses;
}

abbrev pub settings : Settings
settings = record {
  cookie_secret = codes "k";
  rate_burst = pos 2;
  rate_refill_rate = pos 1;
  turnstile_secret = codes "t";
  max_concurrent = pos 2;
}

abbrev pub noon : Clocks
noon = record { cookie = λ n. 12_000_000_000; bucket = λ n. 12_000_000_000 }

abbrev pub ask : Request
ask = record {
  method = codes "POST";
  path = codes "/sessions";
  header = (codes "X-Forwarded-For", codes "9.9.9.9") ∷ [];
  remote_addr = codes "1.2.3.4";
  device_cookie = none;
}

-- A manager with two sessions, one of which expires first.
abbrev pub early : Session ℕ
early = new_session 10 (codes "s1") 0 100

abbrev pub later : Session ℕ
later = new_session 50 (codes "s2") 1 100

abbrev pub two_sessions : Process ℕ ℕ
two_sessions = record {
  mngr = record {
    ttl = 10;
    sessions = (codes "s1", early) ∷ (codes "s2", later) ∷ [];
    on_destroy = [];
  };
  env = 2;
}
