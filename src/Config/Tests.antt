-- ===== src/Config/Tests.antt =====
-- The configuration under a viper that knows two settings and the defaults, and the theorems on it.
use docpine.Base.{
  ◌≡◌, ◌≢◌, ◌↔◌, refl, true, Option, none, some, List, [], ◌∷◌, Bytes, codes, lookup, str_eq, All,
  ℤ, pos,
}
use docpine.Config.{
  Default, str, int, Viper, not_found, malformed, Config, defaults, required, read_settings,
  load_config,
}
use docpine.Config.Secrets.{required_settings, IsGiven, load_config_iff}

abbrev text_of : Option Default → Bytes
text_of (some (str s)) = s
text_of _ = []

abbrev number_of : Option Default → ℤ
number_of (some (int n)) = n
number_of _ = pos 0

-- The environment comes before the defaults.
abbrev viper : List (Bytes × Default) → Viper
viper table = record {
  get_string = λ key. text_of (
      lookup key (
        (codes "COOKIE_SECRET", str (codes "k"))
        ∷ (codes "TURNSTILE_SECRET", str (codes "t"))
        ∷ table));
  get_int = λ key. number_of (lookup key table);
  get_duration = λ key. pos 0;
  get_bool = λ key. true;
}

abbrev unset : List (Bytes × Default) → Viper
unset table = record (viper table) { get_string = λ key. text_of (lookup key table) }

abbrev nowhere : Config
nowhere = record {
  version = [];
  addr = [];
  port = pos 0;
  service = [];
  runtime = record {
    name = [];
    image = [];
    network_mode = [];
    memory_limit = pos 0;
    cpu_shares = pos 0;
    runsc_path = [];
    firecracker_bin = [];
    kernel_path = [];
    root_fs_path = [];
  };
  session = record { ttl = pos 0; max_concurrent = pos 0 };
  abuse = record {
    turnstile_secret = [];
    cookie_secret = [];
    rate_burst = pos 0;
    rate_refill_rate = pos 0;
  };
  logger = record {
    directory = [];
    filename = [];
    max_size = pos 0;
    max_backups = pos 0;
    max_age = pos 0;
    compress = true;
    format = [];
    level = [];
  };
  allowed_origins = [];
}

abbrev or_nowhere : Option Config → Config
or_nowhere none = nowhere
or_nowhere (some c) = c

abbrev loaded : Config
loaded = or_nowhere (load_config viper not_found)

config_tests :
    (loaded.session.max_concurrent ≡ pos 20)
    × (loaded.runtime.name ≡ codes "docker")
    × (load_config viper malformed ≡ none)
    × (load_config unset not_found ≡ none)
unfolding load_config read_settings required lookup str_eq
config_tests = (refl, refl, refl, refl)

load_config_iff_example :
    ((c : Config) × (load_config viper not_found ≡ some c))
    ↔ ((not_found ≢ malformed) × All (IsGiven (viper defaults)) required_settings)
load_config_iff_example = load_config_iff viper not_found
