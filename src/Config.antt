-- ===== src/Config.antt =====
-- internal/config/config.go: the settings, from the environment and the file .env. Viper is a
-- parameter, its getters after the defaults have been set; a panic is the result `none`.

pub mod Secrets
mod Tests
use docpine.Base.{
  Bool, true, false, Option, none, some, List, [], ◌∷◌, Bytes, codes, is_empty, map, if◌then◌else◌,
  ℤ, pos,
}
use docpine.Abuse.Guard.{Settings}
use docpine.Text.{split, trim_space}

-- The values that viper.SetDefault is given.
pub data Default : Type 0 where
  str : Bytes → Default
  int : ℤ → Default
  bool : Bool → Default

pub record Viper : Type 0 where
  pub get_string : Bytes → Bytes
  pub get_int : Bytes → ℤ
  -- Nanoseconds.
  pub get_duration : Bytes → ℤ
  pub get_bool : Bytes → Bool

-- How viper.ReadInConfig ends, as far as loadConfig tells the errors apart.
pub data ReadOutcome : Type 0 where
  read_ok not_found path_error malformed : ReadOutcome

pub record RuntimeConfig : Type 0 where
  pub name : Bytes
  pub image : Bytes
  pub network_mode : Bytes
  pub memory_limit : ℤ
  pub cpu_shares : ℤ
  pub runsc_path : Bytes
  pub firecracker_bin : Bytes
  pub kernel_path : Bytes
  pub root_fs_path : Bytes

pub record AbuseConfig : Type 0 where
  pub turnstile_secret : Bytes
  pub cookie_secret : Bytes
  pub rate_burst : ℤ
  pub rate_refill_rate : ℤ

pub record SessionConfig : Type 0 where
  pub ttl : ℤ
  pub max_concurrent : ℤ

pub record LoggerConfig : Type 0 where
  pub directory : Bytes
  pub filename : Bytes
  pub max_size : ℤ
  pub max_backups : ℤ
  pub max_age : ℤ
  pub compress : Bool
  pub format : Bytes
  pub level : Bytes

pub record Config : Type 0 where
  pub version : Bytes
  pub addr : Bytes
  pub port : ℤ
  pub service : Bytes
  pub runtime : RuntimeConfig
  pub session : SessionConfig
  pub abuse : AbuseConfig
  pub logger : LoggerConfig
  pub allowed_origins : List Bytes

abbrev pub defaults : List (Bytes × Default)
defaults =
    (codes "VERSION", str (codes "1.0.0"))
    ∷ (codes "SERVICE_NAME", str (codes "docpine"))
    ∷ (codes "ADDR", str (codes "0.0.0.0"))
    ∷ (codes "PORT", int (pos 8080))
    ∷ (codes "RUNTIME_NAME", str (codes "docker"))
    ∷ (codes "IMAGE", str (codes "alpine:3.20"))
    ∷ (codes "NETWORK_MODE", str (codes "none"))
    ∷ (codes "SANDBOX_MEMORY", int (pos 134_217_728))
    ∷ (codes "CPU_SHARES", int (pos 0))
    ∷ (codes "RUNSC_PATH", str (codes "runsc"))
    ∷ (codes "FIRECRACKER_BIN", str (codes "firecracker"))
    ∷ (codes "KERNEL_PATH", str (codes "/var/lib/docpine/vmlinux"))
    ∷ (codes "ROOTFS_PATH", str (codes "/var/lib/docpine/rootfs.ext4"))
    ∷ (codes "SESSION_TTL", str (codes "5m"))
    ∷ (codes "MAX_SESSIONS", int (pos 20))
    ∷ (codes "RATE_LIMIT_BURST", int (pos 5))
    ∷ (codes "RATE_LIMIT_REFILL", str (codes "30s"))
    ∷ (codes "LOG_DIR", str [])
    ∷ (codes "LOG_FILE", str [])
    ∷ (codes "LOG_MAX_SIZE", int (pos 100))
    ∷ (codes "LOG_MAX_BACKUPS", int (pos 5))
    ∷ (codes "LOG_MAX_AGE", int (pos 28))
    ∷ (codes "LOG_COMPRESS", bool true)
    ∷ (codes "LOG_FORMAT", str (codes "text"))
    ∷ (codes "LOG_LEVEL", str (codes "info"))
    ∷ []

infixl 10 ◌>>=◌
abbrev pub ◌>>=◌ : {A B : Type 0} → Option A → (A → Option B) → Option B
none >>= f = none
some a >>= f = f a

-- The closure `required`.
unfoldable pub required : Viper → Bytes → Option Bytes
required v key = if is_empty (v.get_string key) then none else some (v.get_string key)

-- The file is read, or it is missing.
abbrev pub is_readable : ReadOutcome → Bool
is_readable malformed = false
is_readable _ = true

-- The setting ALLOWED_ORIGINS, as loadConfig splits it.
unfoldable pub configured_origins : Bytes → List Bytes
configured_origins origins = map trim_space (split b',' origins)

-- What loadConfig reads once the file has been read. The fields are read in their order.
unfoldable pub read_settings : Viper → Option Config
read_settings v = do
  cookie_secret ← required v (codes "COOKIE_SECRET")
  version ← required v (codes "VERSION")
  service ← required v (codes "SERVICE_NAME")
  runtime_name ← required v (codes "RUNTIME_NAME")
  image ← required v (codes "IMAGE")
  turnstile_secret ← required v (codes "TURNSTILE_SECRET")
  some (record {
    version = version;
    addr = v.get_string (codes "ADDR");
    port = v.get_int (codes "PORT");
    service = service;
    runtime = record {
      name = runtime_name;
      image = image;
      network_mode = v.get_string (codes "NETWORK_MODE");
      memory_limit = v.get_int (codes "SANDBOX_MEMORY");
      cpu_shares = v.get_int (codes "CPU_SHARES");
      runsc_path = v.get_string (codes "RUNSC_PATH");
      firecracker_bin = v.get_string (codes "FIRECRACKER_BIN");
      kernel_path = v.get_string (codes "KERNEL_PATH");
      root_fs_path = v.get_string (codes "ROOTFS_PATH");
    };
    session = record {
      ttl = v.get_duration (codes "SESSION_TTL");
      max_concurrent = v.get_int (codes "MAX_SESSIONS");
    };
    abuse = record {
      turnstile_secret = turnstile_secret;
      cookie_secret = cookie_secret;
      rate_burst = v.get_int (codes "RATE_LIMIT_BURST");
      rate_refill_rate = v.get_duration (codes "RATE_LIMIT_REFILL");
    };
    logger = record {
      directory = v.get_string (codes "LOG_DIR");
      filename = v.get_string (codes "LOG_FILE");
      max_size = v.get_int (codes "LOG_MAX_SIZE");
      max_backups = v.get_int (codes "LOG_MAX_BACKUPS");
      max_age = v.get_int (codes "LOG_MAX_AGE");
      compress = v.get_bool (codes "LOG_COMPRESS");
      format = v.get_string (codes "LOG_FORMAT");
      level = v.get_string (codes "LOG_LEVEL");
    };
    allowed_origins = configured_origins (v.get_string (codes "ALLOWED_ORIGINS"));
  })

-- loadConfig, over viper as a function of the defaults that it is given.
unfoldable pub load_config : (List (Bytes × Default) → Viper) → ReadOutcome → Option Config
load_config viper outcome = if is_readable outcome then read_settings (viper defaults) else none

-- What NewGuard reads of the configuration.
abbrev pub guard_settings : Config → Settings
guard_settings cfg = record {
  cookie_secret = cfg.abuse.cookie_secret;
  rate_burst = cfg.abuse.rate_burst;
  rate_refill_rate = cfg.abuse.rate_refill_rate;
  turnstile_secret = cfg.abuse.turnstile_secret;
  max_concurrent = cfg.session.max_concurrent;
}
