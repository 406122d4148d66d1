-- ===== src/Config/Secrets.antt =====
-- When the server gets a configuration, and what it is sure of then.
use docpine.Base.{
  ◌≡◌, refl, sym, ap, ◌∙◌, ◌≢◌, ◌↔◌, true, false, Option, some, List, [], ◌∷◌, Bytes, codes,
  is_empty, All, arith,
}
use docpine.Abuse.Guard.{Guard, new_guard}
use docpine.Abuse.Turnstile.{secret_key}
use docpine.Config.{
  Default, Viper, ReadOutcome, read_ok, not_found, path_error, malformed, Config, defaults, ◌>>=◌,
  required, is_readable, read_settings, load_config, guard_settings,
}

-- The settings that have to be there.
abbrev pub required_settings : List Bytes
required_settings =
    codes "COOKIE_SECRET"
    ∷ codes "VERSION"
    ∷ codes "SERVICE_NAME"
    ∷ codes "RUNTIME_NAME"
    ∷ codes "IMAGE"
    ∷ codes "TURNSTILE_SECRET"
    ∷ []

abbrev pub IsGiven : Viper → Bytes → Type 0
IsGiven v key = is_empty (v.get_string key) ≡ false

bound :
    {B : Type 0} (v : Viper) (key : Bytes) (f : Bytes → Option B) (b : B)
    → (required v key >>= f) ≡ some b
    → IsGiven v key × (f (v.get_string key) ≡ some b)
unfolding required
bound v key f b h = ground arith

bind_set :
    {B : Type 0} (v : Viper) (key : Bytes) (f : Bytes → Option B)
    → IsGiven v key
    → (required v key >>= f) ≡ f (v.get_string key)
unfolding required
bind_set v key f set = ground arith

injected : {A : Type 0} {a b : A} → some a ≡ some b → a ≡ b
injected h = cc

read_settings-IsGiven :
    (v : Viper) (c : Config)
    → read_settings v ≡ some c
    → All (IsGiven v) required_settings
      × (c.abuse.cookie_secret ≡ v.get_string (codes "COOKIE_SECRET"))
      × (c.abuse.turnstile_secret ≡ v.get_string (codes "TURNSTILE_SECRET"))
      × (c.session.max_concurrent ≡ v.get_int (codes "MAX_SESSIONS"))
unfolding read_settings
read_settings-IsGiven v c h =
    let (s₁, h₁) = bound v (codes "COOKIE_SECRET") _ c h in
    let (s₂, h₂) = bound v (codes "VERSION") _ c h₁ in
    let (s₃, h₃) = bound v (codes "SERVICE_NAME") _ c h₂ in
    let (s₄, h₄) = bound v (codes "RUNTIME_NAME") _ c h₃ in
    let (s₅, h₅) = bound v (codes "IMAGE") _ c h₄ in
    let (s₆, h₆) = bound v (codes "TURNSTILE_SECRET") _ c h₅ in
    (
      (s₁, (s₂, (s₃, (s₄, (s₅, (s₆, tt)))))),
      sym (ap (λ c. c.abuse.cookie_secret) (injected h₆)),
      sym (ap (λ c. c.abuse.turnstile_secret) (injected h₆)),
      sym (ap (λ c. c.session.max_concurrent) (injected h₆)),
    )

read_settings_set :
    (v : Viper) → All (IsGiven v) required_settings → (c : Config) × (read_settings v ≡ some c)
unfolding read_settings
read_settings_set v (s₁, (s₂, (s₃, (s₄, (s₅, (s₆, _)))))) = (
  _,
  bind_set v (codes "COOKIE_SECRET") _ s₁
      ∙ bind_set v (codes "VERSION") _ s₂
      ∙ bind_set v (codes "SERVICE_NAME") _ s₃
      ∙ bind_set v (codes "RUNTIME_NAME") _ s₄
      ∙ bind_set v (codes "IMAGE") _ s₅
      ∙ bind_set v (codes "TURNSTILE_SECRET") _ s₆,
)

readable_iff : (outcome : ReadOutcome) → (is_readable outcome ≡ true) ↔ (outcome ≢ malformed)
readable_iff read_ok = (λ h k. cc, λ h. refl)
readable_iff not_found = (λ h k. cc, λ h. refl)
readable_iff path_error = (λ h k. cc, λ h. refl)
readable_iff malformed = (λ h. cc, λ h. absurd (h refl))

set_ne : (s : Bytes) → is_empty s ≡ false → s ≢ []
set_ne [] h k = cc
set_ne (c ∷ s) h k = cc

module _ (viper : List (Bytes × Default) → Viper) (outcome : ReadOutcome) where
  load_readable :
      (c : Config)
      → load_config viper outcome ≡ some c
      → (is_readable outcome ≡ true) × (read_settings (viper defaults) ≡ some c)
  unfolding load_config
  load_readable c h = ground arith

  -- The server gets a configuration exactly when its file is not malformed, be it there or not, and
  -- each of the six required settings has a value that is not empty, its default included.
  pub load_config_iff :
      ((c : Config) × (load_config viper outcome ≡ some c))
      ↔ ((outcome ≢ malformed) × All (IsGiven (viper defaults)) required_settings)
  unfolding load_config
  load_config_iff = (
    λ (c, h).
        let (readable, read) = load_readable c h in
        ((readable_iff outcome).0 readable, (read_settings-IsGiven (viper defaults) c read).0),
    λ (fine, set).
        let (c, read) = read_settings_set (viper defaults) set in
        (c, rw ((readable_iff outcome).1 fine, load_config) read),
  )

  -- The guard of a server that got a configuration never signs its cookies under an empty secret,
  -- but under COOKIE_SECRET, and its challenge is the one of TURNSTILE_SECRET.
  load_config-secrets :
      (L : Type 0) (c : Config)
      → load_config viper outcome ≡ some c
      → let g : Guard L = new_guard (guard_settings c) in
        (g.cookie_secret ≢ [])
        × (g.cookie_secret ≡ (viper defaults).get_string (codes "COOKIE_SECRET"))
        × (g.turnstile_key ≡ secret_key ((viper defaults).get_string (codes "TURNSTILE_SECRET")))
  unfolding new_guard
  load_config-secrets L c h =
      let ((set, _), cookie, challenge, _) =
        read_settings-IsGiven (viper defaults) c (load_readable c h).1 in
      (λ none_set. set_ne _ set (sym cookie ∙ none_set), cookie, ap secret_key challenge)
