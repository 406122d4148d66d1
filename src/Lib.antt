-- ===== src/Lib.antt =====
-- docpine serves anonymous sandboxes: `POST /sessions` starts one for a device, and
-- `GET /sessions/{id}/attach` opens its terminal over a WebSocket until it is closed or expires.
-- This library models the Go program and proves what its parts promise each other.
--
-- The parts and how they interact. A create request (internal/transport/http/session_handler.go)
-- passes the guard (internal/abuse/guard.go), which names the device by a signed cookie, refuses a
-- device that has a session, takes a slot of the global ceiling, asks for a challenge and draws on
-- the token buckets. Then the session manager (internal/session/manager.go) asks the runtime for a
-- sandbox and registers the session, and the handler binds it to the device. When a session ends, by
-- its terminal, its expiry or the shutdown, the manager calls back (cmd/docpine/main.go), which
-- unbinds the device and gives the slot back.
--
-- Files and sources, names of functions in snake_case:
--   Runtime                     internal/runtime/runtime.go: errors, options, the interfaces
--   Registry                    internal/runtime/registry.go: register, instantiate (New)
--   Container, Docker, Gvisor   internal/runtime/docker/docker.go, internal/runtime/gvisor/gvisor.go:
--                               what both do by the Docker daemon, and what is their own;
--                               Container/Stream is the stream of a terminal
--   Firecracker                 internal/runtime/firecracker/firecracker.go: the machine and its
--                               requests; Boot has CreateSandbox, AttachPTY and Destroy,
--                               Serial the stream of the console
--   Logger                      pkg/logger/logger.go
--   Http                        jsonio/io.go and what the handlers use of net/http
--   Session                     internal/session/manager.go
--   Abuse/Concurrency           internal/abuse/concurrency.go
--   Abuse/Cookie                internal/abuse/cookie.go
--   Abuse/ClientIp              internal/abuse/ip.go
--   Abuse/Turnstile             internal/abuse/turnstile.go
--   Abuse/RateLimiter           internal/abuse/limiter.go
--   Abuse/Guard                 internal/abuse/guard.go
--   Config                      internal/config/config.go
--   Background                  the loops of the reaper's and the eviction's goroutines
--   Middleware                  internal/utils/origin.go, cors.go, request_id.go and logger.go under
--                               internal/transport/http
--   Server                      internal/transport/server.go, and RegisterRoutes of both handlers
--   App                         the wiring of cmd/docpine/main.go, and SessionHandler.Create
--   Main                        cmd/docpine/main.go from a loaded configuration to the exit
--   Terminal                    internal/transport/websocket/handler.go: the pumps; Console is Attach
--                               as its callers see it, Goroutines its goroutines and their channel
--   System                      handlers, reaper and shutdown at once, as interleaved steps
--   Text, Base                  strings, strconv, maps, integers; shared lemmas
--   Fixtures                    concrete stand-ins for the parameters, for the tests
-- The children of a module hold its proofs, named for what they prove; Tests evaluate the
-- definitions at concrete inputs.
--
-- State. A method takes its receiver's state and returns the new one. Process is the manager with
-- the world that the runtime and the callbacks act on; in App that world is the guard beside the
-- host. Maps are association lists with distinct keys (Dict). Errors are values (Error, Result), and
-- an error result alone is an Option. In System a thread stands between two accesses to shared
-- state: an atomic operation of sync/atomic, or one section under a mutex; Reach lets any thread
-- make its next access.
--
-- Interfaces. Runtime is the backend as its clients see it. Runtime/Tidy says what they count on:
-- a backend owns the containers, processes and directories of its sandboxes, and frees them.
-- Container/Ownership and Firecracker/Ownership prove it of the backends, and App/Lifetime and
-- Main/Shutdown use it.
--
-- A whole run is Main over what comes to the server (Server/Traffic): requests through middleware,
-- mux and handlers, each with what comes while its terminal is open, and the ticks of the two
-- goroutines. Server/Calls brings it down to calls of the parts, which App/Serial chains, and
-- System/Sequential relates those to the threads of System.
--
-- Parameters, for code that the program only calls: the runtime (Runtime) under the manager,
-- http.ServeMux and the upgrade to a WebSocket (Net), the Docker client (Daemon), the token buckets
-- of golang.org/x/time/rate (Buckets), HMAC-SHA256, net.ParseIP and net.SplitHostPort, viper, the
-- siteverify service, encoding/json of control messages.
-- Container/Leaks and Firecracker/Leaks state what they rely on of the Docker daemon and of the
-- operating system (IsDocumented), Firecracker/Waiting what it relies on of the clock (HasClock), and
-- Logger/Routing and Server/Routing what they rely on of log/slog, and of the mux and the upgrade;
-- Abuse/RateLimiter/Stretch has what bounds a token bucket (IsTokenBucket).
-- Fresh UUIDs and the readings of the clock are arguments of each call.
--
-- Bounds. Counters are signed integers whose distance from the bounds of int64 no run can cross; a
-- time is a count of nanoseconds, and time arithmetic is taken not to overflow or saturate. The
-- time stated in a cookie is read by strconv.ParseInt with its range, and its conversion to an
-- instant is taken to be exact. TrimSpace and ToLower treat ASCII only. Retry seconds are rounded
-- down. All loops are structural, over the entries of a map, the parts of a header or the
-- events that a pump meets, but three. The loop of waitForSocket runs on fuel, one round for each
-- interval of the timeout and two more, which Firecracker/Waiting shows to be enough. Read of the
-- serial console runs on any fuel that it is given, as the source sets no bound; Firecracker/Retrying
-- says how much is enough. The loop of TryAcquire is single steps in System, and System/Runs bounds
-- the steps of every run.
--
-- A run of Main takes requests, rounds and the shutdown one after the other, and its contexts of ten
-- seconds never end; calls that overlap are System, which has no host. A tidy backend frees at every
-- Destroy; Container/Ownership says what Destroy does where a removal fails.
--
-- Not modelled: log lines but those of the request log, and the text of an error inside an answer;
-- listening, which is net/http; values that encoding/json cannot encode do not occur. A
-- pump of Terminal takes what its stream returns as events.
pub mod Base
pub mod Text
pub mod Background
pub mod Runtime
pub mod Http
pub mod Logger
pub mod Container
pub mod Docker
pub mod Gvisor
pub mod Firecracker
pub mod Registry
pub mod Session
pub mod Abuse
pub mod Main
pub mod Server
pub mod Middleware
pub mod Config
pub mod App
pub mod Terminal
pub mod System
pub mod Fixtures
