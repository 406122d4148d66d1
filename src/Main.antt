-- ===== src/Main.antt =====
-- cmd/docpine/main.go, from a loaded configuration to the end of the process. `W` is the world of the
-- backend and of the log files; `coming` is what comes to the server between its start and the signal.
pub mod Shutdown
mod Tests
use docpine.Base.{ℕ, Option, some, List, [], Bytes, codes, Dict}
use docpine.Runtime.{Error, Result, ok, err, Runtime}
use docpine.Registry.{Factory, instantiate}
use docpine.Config.{RuntimeConfig, LoggerConfig, Config, guard_settings}
use docpine.Logger.{Slog, Rotator, MultiHandler, setup, close_all}
use docpine.Session.{close}
use docpine.App.{App, hosted, start}
use docpine.Server.{Outside, Wiring, new_server}
use docpine.Server.Traffic.{Arrivals, arrive_all}

-- The closer of the logger; a logger that could not be set up has none, and the server goes on.
abbrev pub log_closer : {H : Type 0} → Result (List Rotator × MultiHandler H) → List Rotator
log_closer (err e) = []
log_closer (ok (closers, handlers)) = closers

-- The deferred calls, last first: mngr.Close, then rt.Close.
unfoldable pub stop : {L W S P : Type 0} → Runtime W S P → App L W S → W
stop rt p = (rt.close (close (hosted rt) p).0.env.host).0

-- The directory that websocket.NewHandler makes for the logs of the sessions; a failure is logged.
unfoldable pub new_handler :
    {W : Type 0} → (Bytes → Bytes → Bytes) → (Bytes → W → W × Option Error) → LoggerConfig → W → W
new_handler join mkdir_all cfg w = (mkdir_all (join cfg.directory (codes "sessions")) w).0

abbrev pub wire : {L Q W S P : Type 0} → Outside L Q W S → Config → Runtime W S P → Wiring L Q W S P
wire outside cfg rt = record { outside = outside; rt = rt; allowed_origins = new_server cfg }

module _ {L Q W S P : Type 0} (outside : Outside L Q W S) (join : Bytes → Bytes → Bytes)
    (mkdir_all close_file : Bytes → W → W × Option Error)
    (factories : Dict (Factory RuntimeConfig W S P)) (coming : Arrivals) where
  -- From the runtime on. A failure ends the process by os.Exit, which runs no deferred call; the
  -- number is the exit code.
  unfoldable pub run_server : Config → List Rotator → W → W × ℕ
  run_server cfg closers w =
      let (w', made) = instantiate factories cfg.runtime.name cfg.runtime w in
      elim made [
        | err e ↦ (w', 1)
        | ok rt ↦
            let made_directory = new_handler join mkdir_all cfg.logger w' in
            let p = start (guard_settings cfg) cfg.session.ttl made_directory in
            let (q, lines) = arrive_all (wire outside cfg rt) coming (p, []) in
            ((close_all (λ r. close_file r.filename) closers (stop rt q)).0, 0)
      ]

module _ {L Q W S P H R A : Type 0} (slog : Slog W H R A) (outside : Outside L Q W S)
    (join : Bytes → Bytes → Bytes) (mkdir_all close_file : Bytes → W → W × Option Error)
    (factories : Dict (Factory RuntimeConfig W S P)) (coming : Arrivals) where
  unfoldable pub main : Config → W → W × ℕ
  main cfg w =
      let (w', logs) = setup slog join mkdir_all (some cfg.logger) w in
      run_server outside join mkdir_all close_file factories coming cfg (log_closer logs) w'
