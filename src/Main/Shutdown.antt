-- ===== src/Main/Shutdown.antt =====
-- What is left when the process ends.
use docpine.Base.{
  ◌≡◌, refl, ◌∙◌, ◌↔◌, inl, inr, Bool, Option, none, some, List, [], ◌∷◌, Bytes, codes, Dict,
  lookup, arith,
}
use docpine.Runtime.{Error, ok, err, Runtime, Result-cases}
use docpine.Runtime.Tidy.{IsTidy}
use docpine.Registry.{Factory, instantiate}
use docpine.Config.{RuntimeConfig, LoggerConfig, Config, guard_settings}
use docpine.Logger.{Slog, Rotator, setup, open_files, close_all}
use docpine.Http.{Request}
use docpine.Session.{Session, close}
use docpine.App.{hosted, start}
use docpine.Server.{Outside}
use docpine.Server.Routing.{IsDocumented}
use docpine.Server.Traffic.{Arrivals, arrive_all}
use docpine.Server.Calls.{arrive_all-Serial}
use docpine.App.Lifetime.{no_sandbox_outlives}
use docpine.Main.{log_closer, new_handler, wire, stop, run_server, main}

-- The calls that make no sandbox and end none: those on the log files, the start of a backend with
-- its check, and its Close. The backends that `New` returns are tidy.
pub record IsQuiet {W S P X : Type 0} (mkdir_all close_file : Bytes → W → W × Option Error)
    (factories : Dict (Factory RuntimeConfig W S P)) (has : X → W → Bool) (owns : S → X → Bool)
    (live : S → W → Bool) : Type 0 where
  pub makes_directory : (x : X) (dir : Bytes) (w : W) → has x (mkdir_all dir w).0 ≡ has x w
  pub closes_file : (x : X) (name : Bytes) (w : W) → has x (close_file name w).0 ≡ has x w
  pub instantiates :
      (x : X) (name : Bytes) (cfg : RuntimeConfig) (w : W)
      → has x (instantiate factories name cfg w).0 ≡ has x w
  pub closes :
      (x : X) (name : Bytes) (cfg : RuntimeConfig) (w : W) (rt : Runtime W S P) (u : W)
      → (instantiate factories name cfg w).1 ≡ ok rt
      → has x (rt.close u).0 ≡ has x u
  pub tidy :
      (name : Bytes) (cfg : RuntimeConfig) (w : W) (rt : Runtime W S P)
      → (instantiate factories name cfg w).1 ≡ ok rt
      → IsTidy rt has owns live

module _ {L Q W S P H R A X : Type 0} (slog : Slog W H R A) (outside : Outside L Q W S)
    (join : Bytes → Bytes → Bytes) (mkdir_all close_file : Bytes → W → W × Option Error)
    (factories : Dict (Factory RuntimeConfig W S P)) (coming : Arrivals) (has : X → W → Bool)
    (owns : S → X → Bool) (live : S → W → Bool)
    (quiet : IsQuiet mkdir_all close_file factories has owns live)
    (matches : Bytes → Request → Option (Dict Bytes)) (law : IsDocumented outside.net matches)
    (fresh : (seed : Bytes) (m : Dict (Session S))
      → lookup (outside.new_uuid seed m) m ≡ none) where
  has-close_all :
      (x : X) (rs : List Rotator) (w : W)
      → has x (close_all (λ r. close_file r.filename) rs w).0 ≡ has x w
  unfolding close_all
  has-close_all x [] w = refl
  has-close_all x (r ∷ rs) w =
      has-close_all x rs (close_file r.filename w).0 ∙ quiet.closes_file x r.filename w

  has-setup :
      (x : X) (cfg : LoggerConfig) (w : W)
      → has x (setup slog join mkdir_all (some cfg) w).0 ≡ has x w
  unfolding setup open_files
  has-setup x cfg w = ground (arith, quiet.makes_directory x cfg.directory w)

  has-run_server :
      (x : X) (cfg : Config) (rs : List Rotator) (w : W)
      → has x (run_server outside join mkdir_all close_file factories coming cfg rs w).0 ≡ has x w
  unfolding run_server stop new_handler
  has-run_server x cfg rs w =
      let name = cfg.runtime.name in
      let (w', made) = instantiate factories name cfg.runtime w in
      elim (Result-cases made) [
        | inr (e, failed) ↦ rw (failed, run_server) (quiet.instantiates x name cfg.runtime w)
        | inl (rt, e) ↦
            let made_directory = new_handler join mkdir_all cfg.logger w' in
            let p = start (guard_settings cfg) cfg.session.ttl made_directory in
            let q = (arrive_all (wire outside cfg rt) coming (p, [])).0 in
            let shut =
              no_sandbox_outlives outside.peers rt has owns live
                (quiet.tidy name cfg.runtime w rt e) (guard_settings cfg) cfg.session.ttl
                made_directory q x
                (arrive_all-Serial (wire outside cfg rt) matches law fresh p coming []) in
            rw (e, run_server)
              (has-close_all x rs (stop rt q)
                ∙ quiet.closes x name cfg.runtime w rt (close (hosted rt) q).0.env.host e
                ∙ shut.1
                ∙ quiet.makes_directory x (join cfg.logger.directory (codes "sessions")) w'
                ∙ quiet.instantiates x name cfg.runtime w)
      ]

  exit-run_server :
      (cfg : Config) (rs : List Rotator) (w : W)
      → ((run_server outside join mkdir_all close_file factories coming cfg rs w).1 ≡ 1)
        ↔ ((e : Error) × ((instantiate factories cfg.runtime.name cfg.runtime w).1 ≡ err e))
  unfolding run_server
  exit-run_server cfg rs w =
      elim (Result-cases (instantiate factories cfg.runtime.name cfg.runtime w).1) [
        | inr (e, failed) ↦ rw (failed, run_server) (λ h. (e, refl), λ h. refl)
        | inl (rt, made) ↦ rw (made, run_server) (λ h. ground arith, λ h. ground arith)
      ]

  -- Of a process whose requests, rounds and shutdown come one after the other, in any order, with
  -- requests of any kind and terminals that are open while others are served, and in which no
  -- context of `main` runs out: when it ends, after a signal or because its backend cannot be used,
  -- exactly the containers, processes and directories are there that were there before it started.
  -- The exit code is 1 exactly if `New` gives no backend. The backends are tidy, so that every
  -- Destroy of a live sandbox frees what it owns, the calls around them behave as `IsQuiet` states
  -- and net/http and gorilla/websocket as `IsDocumented` does, and a UUID is that of no registered
  -- session.
  pub main_leaves_nothing :
      (cfg : Config) (w : W) (x : X)
      → let w' = (setup slog join mkdir_all (some cfg.logger) w).0 in
        (has x (main slog outside join mkdir_all close_file factories coming cfg w).0 ≡ has x w)
        × (((main slog outside join mkdir_all close_file factories coming cfg w).1 ≡ 1)
            ↔ ((e : Error) × ((instantiate factories cfg.runtime.name cfg.runtime w').1 ≡ err e)))
  unfolding main
  main_leaves_nothing cfg w x =
      let (w', logs) = setup slog join mkdir_all (some cfg.logger) w in
      (
        has-run_server x cfg (log_closer logs) w' ∙ has-setup x cfg.logger w,
        exit-run_server cfg (log_closer logs) w',
      )
