-- ===== src/Main/Tests.antt =====
-- The program over the simulated Firecracker host: a session and its terminal, then the signal.
use docpine.Base.{
  ℕ, ◌≡◌, ◌↔◌, refl, false, Option, none, some, [], ◌∷◌, Bytes, codes, Dict, lookup, ℤ, pos, geb,
  str_eq, arith, Bool-cases, inl, inr, ◌∙◌, ◌⊎◌, ◌++◌, sym, ap,
}
use docpine.Runtime.{Error, runtime_not_found, wrap, ok, err, Runtime}
use docpine.Runtime.Tidy.{IsTidy}
use mathlib.Core.Path.{subst}
use docpine.Registry.{Factory, instantiate, resolved, verify_host}
use docpine.Config.{RuntimeConfig, Config}
use docpine.Logger.{Slog, setup}
use docpine.Server.{Outside}
use docpine.Server.Traffic.{Arrivals, asks, reaper_ticks, silence, then_comes}
use docpine.Server.Simulated.{
  plain_net, matches, first_match-IsDocumented, longest, longest-absent, inputs,
}
use docpine.Firecracker.{Vm, World}
use docpine.Firecracker.Boot.{firecracker_runtime}
use docpine.Firecracker.Resources.{process}
use docpine.Firecracker.Ownership.{owns, live, on_host, firecracker_runtime-IsTidy}
use docpine.Firecracker.Simulated.{Sim, has, simulated, simulated-IsDocumented, machine, world}
use docpine.Main.{main}
use docpine.Main.Shutdown.{IsQuiet, main_leaves_nothing}
use docpine.Fixtures.{peers, ask}

abbrev vms : Runtime (World Sim) Vm (ℕ × ℕ)
vms = firecracker_runtime simulated machine

-- Its check is left out.
abbrev trusting : Runtime (World Sim) Vm (ℕ × ℕ)
trusting = record vms { check_prerequisites = λ w. (w, none) }

trusting-IsTidy : IsTidy trusting (on_host has) owns live
trusting-IsTidy =
    let t = firecracker_runtime-IsTidy simulated has simulated-IsDocumented machine in
    record {
      refuses = t.refuses;
      creates = t.creates;
      fresh = t.fresh;
      starts_live = t.starts_live;
      create_spares = t.create_spares;
      attaches = t.attaches;
      attach_spares = t.attach_spares;
      destroys = t.destroys;
      destroy_spares = t.destroy_spares;
    }

abbrev known : Dict (Factory RuntimeConfig (World Sim) Vm (ℕ × ℕ))
known = (codes "firecracker", λ cfg w. (w, ok trusting)) ∷ []

abbrev silent : Slog (World Sim) ℤ ℤ Bytes
silent = record {
  new_text = λ out least. least;
  new_json = λ out least. least;
  is_enabled = λ h l. geb l h;
  level = λ r. r;
  handle = λ h r w. (w, none);
  with_attrs = λ attrs h. h;
  with_group = λ name h. h;
}

abbrev untouched : Bytes → World Sim → World Sim × Option Error
untouched name w = (w, none)

abbrev outside : Outside ℕ ℕ (World Sim) Vm
outside = record {
  peers = peers;
  unmarshal = λ m. none;
  net = plain_net;
  new_uuid = λ seed m. longest m;
}

-- A request, and a terminal for its session, during which the reaper wakes.
abbrev coming : Arrivals
coming = then_comes (asks ask inputs silence) (
    then_comes
      (asks (record ask { method = codes "GET" }) inputs
        (then_comes (reaper_ticks 14_000_000_000) silence))
      silence)

instantiate-known :
    (name : Bytes) (cfg : RuntimeConfig) (w : World Sim)
    → (instantiate known name cfg w ≡ (w, err (wrap (resolved name) runtime_not_found)))
      ⊎ (instantiate known name cfg w ≡ (w, ok trusting))
unfolding instantiate lookup verify_host
instantiate-known name cfg w = elim (Bool-cases (str_eq (codes "firecracker") (resolved name))) [
  | inl same ↦ inr (rw (same, instantiate) refl)
  | inr other ↦ inl (rw (other, instantiate) refl)
]

injected : {A : Type 0} {a b : A} → ok a ≡ ok b → a ≡ b
injected e = cc

same_runtime :
    (name : Bytes) (cfg : RuntimeConfig) (w : World Sim) (rt : Runtime (World Sim) Vm (ℕ × ℕ))
    → (instantiate known name cfg w).1 ≡ ok rt
    → trusting ≡ rt
same_runtime name cfg w rt made = elim (instantiate-known name cfg w) [
  | inl refused ↦ absurd (ground arith)
  | inr found ↦ injected (sym (ap (λ r. r.1) found) ∙ made)
]

known-IsQuiet : IsQuiet untouched untouched known (on_host has) owns live
unfolding firecracker_runtime
known-IsQuiet = record {
  makes_directory = λ x dir w. refl;
  closes_file = λ x name w. refl;
  instantiates = λ x name cfg w. elim (instantiate-known name cfg w) [
    | inl e ↦ ap (λ r. on_host has x r.0) e
    | inr e ↦ ap (λ r. on_host has x r.0) e
  ];
  closes = λ x name cfg w rt u made.
      subst (λ r. on_host has x (r.close u).0 ≡ on_host has x u) (same_runtime name cfg w rt made)
        refl;
  tidy = λ name cfg w rt made.
      subst (λ r. IsTidy r (on_host has) owns live) (same_runtime name cfg w rt made)
        trusting-IsTidy;
}

abbrev configured : Config
configured = record {
  version = [];
  addr = [];
  port = pos 8080;
  service = codes "docpine";
  runtime = record {
    name = codes "firecracker";
    image = [];
    network_mode = [];
    memory_limit = pos 0;
    cpu_shares = pos 0;
    runsc_path = [];
    firecracker_bin = [];
    kernel_path = [];
    root_fs_path = [];
  };
  session = record { ttl = pos 0; max_concurrent = pos 2 };
  abuse = record {
    turnstile_secret = [];
    cookie_secret = codes "k";
    rate_burst = pos 5;
    rate_refill_rate = pos 1;
  };
  logger = record {
    directory = [];
    filename = codes "docpine.log";
    max_size = pos 1;
    max_backups = pos 1;
    max_age = pos 1;
    compress = false;
    format = [];
    level = [];
  };
  allowed_origins = [];
}

abbrev join : Bytes → Bytes → Bytes
join dir name = dir ++ name

main_leaves_nothing_example :
    let w' = (setup silent join untouched (some configured.logger) world).0 in
    (on_host has
        (process 7)
        (main silent outside join untouched untouched known coming configured world).0
      ≡ on_host has (process 7) world)
    × (((main silent outside join untouched untouched known coming configured world).1 ≡ 1) ↔ (
        (e : Error) × ((instantiate known configured.runtime.name configured.runtime w').1
          ≡ err e)))
main_leaves_nothing_example =
    main_leaves_nothing silent outside join untouched untouched known coming (on_host has) owns live
      known-IsQuiet matches first_match-IsDocumented (λ seed m. longest-absent m) configured world
      (process 7)
