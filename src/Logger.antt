-- ===== src/Logger.antt =====
-- pkg/logger/logger.go: the handlers that send a record to several outputs, and Setup. log/slog,
-- lumberjack, os.MkdirAll and filepath.Join are parameters: `W` is what they write to, `H` a text or
-- JSON handler of slog, `R` a record and `A` the attributes of a derived logger.
pub mod Routing
mod Tests
use docpine.Base.{
  Bool, true, false, ◌&&◌, not, Option, none, some, List, [], ◌∷◌, map, Bytes, codes, is_empty,
  str_eq, if◌then◌else◌, ℤ, pos, negsuc, geb, int_eq,
}
use docpine.Text.{to_lower}
use docpine.Runtime.{Error, Result, ok, err}
use docpine.Config.{LoggerConfig}

-- slog.LevelDebug is -4.
abbrev pub level_debug : ℤ
level_debug = negsuc 3

abbrev pub level_info : ℤ
level_info = pos 0

abbrev pub level_warn : ℤ
level_warn = pos 4

abbrev pub level_error : ℤ
level_error = pos 8

-- A lumberjack.Logger.
pub record Rotator : Type 0 where
  pub filename : Bytes
  pub max_size : ℤ
  pub max_backups : ℤ
  pub max_age : ℤ
  pub compress : Bool

pub data Output : Type 0 where
  stdout : Output
  file : Rotator → Output

-- slog with its handlers, made for an output and a least level.
pub record Slog (W H R A : Type 0) : Type 0 where
  pub new_text : Output → ℤ → H
  pub new_json : Output → ℤ → H
  pub is_enabled : H → ℤ → Bool
  pub level : R → ℤ
  pub handle : H → R → W → W × Option Error
  pub with_attrs : A → H → H
  pub with_group : Bytes → H → H

pub record LevelFilterHandler (H : Type 0) : Type 0 where
  pub handler : H
  pub predicate : ℤ → Bool

-- What a MultiHandler holds: handlers of slog, and filters on them.
pub data Handler (H : Type 0) : Type 0 where
  plain : H → Handler H
  filtered : LevelFilterHandler H → Handler H

pub record MultiHandler (H : Type 0) : Type 0 where
  pub handlers : List (Handler H)

-- errors.Join: no error is `[]`.
abbrev pub with_error : Option Error → List Error → List Error
with_error none errs = errs
with_error (some e) errs = e ∷ errs

module _ {W H R A : Type 0} (slog : Slog W H R A) where
  unfoldable pub enabled : Handler H → ℤ → Bool
  enabled (plain h) l = slog.is_enabled h l
  enabled (filtered f) l = f.predicate l && slog.is_enabled f.handler l

  unfoldable pub handle : Handler H → R → W → W × Option Error
  handle (plain h) r w = slog.handle h r w
  handle (filtered f) r w =
      if f.predicate (slog.level r) then slog.handle f.handler r w else (w, none)

  unfoldable pub with_attrs : A → Handler H → Handler H
  with_attrs attrs (plain h) = plain (slog.with_attrs attrs h)
  with_attrs attrs (filtered f) =
      filtered (record { handler = slog.with_attrs attrs f.handler; predicate = f.predicate })

  unfoldable pub with_group : Bytes → Handler H → Handler H
  with_group name (plain h) = plain (slog.with_group name h)
  with_group name (filtered f) =
      filtered (record { handler = slog.with_group name f.handler; predicate = f.predicate })

  -- The loop of MultiHandler.Enabled.
  unfoldable pub any_enabled : List (Handler H) → ℤ → Bool
  any_enabled [] l = false
  any_enabled (h ∷ hs) l = if enabled h l then true else any_enabled hs l

  unfoldable pub multi_enabled : MultiHandler H → ℤ → Bool
  multi_enabled m l = any_enabled m.handlers l

  -- The loop of MultiHandler.Handle.
  unfoldable pub handle_each : List (Handler H) → R → W → W × List Error
  handle_each [] r w = (w, [])
  handle_each (h ∷ hs) r w =
      let (w', failed) = if enabled h (slog.level r) then handle h r w else (w, none) in
      let (w'', errs) = handle_each hs r w' in (w'', with_error failed errs)

  unfoldable pub multi_handle : MultiHandler H → R → W → W × List Error
  multi_handle m r w = handle_each m.handlers r w

  unfoldable pub multi_with_attrs : A → MultiHandler H → MultiHandler H
  multi_with_attrs attrs m = record { handlers = map (with_attrs attrs) m.handlers }

  unfoldable pub multi_with_group : Bytes → MultiHandler H → MultiHandler H
  multi_with_group name m = record { handlers = map (with_group name) m.handlers }

-- multiCloser.Close, for a call that closes a file.
unfoldable pub close_all :
    {W : Type 0} → (Rotator → W → W × Option Error) → List Rotator → W → W × List Error
close_all close [] w = (w, [])
close_all close (c ∷ cs) w =
    let (w', failed) = close c w in
    let (w'', errs) = close_all close cs w' in (w'', with_error failed errs)

unfoldable pub level_named : Bytes → ℤ
level_named name =
    if str_eq name (codes "debug")
    then level_debug
    else if str_eq name (codes "warn")
    then level_warn
    else if str_eq name (codes "error")
    then level_error
    else level_info

unfoldable pub console_level : Option LoggerConfig → ℤ
console_level none = level_info
console_level (some cfg) = level_named (to_lower cfg.level)

unfoldable pub format_of : Option LoggerConfig → Bytes
format_of none = codes "text"
format_of (some cfg) = if is_empty cfg.format then codes "text" else to_lower cfg.format

-- The four files of a directory, with what they take.
unfoldable pub split_files : List (Bytes × (ℤ → Bool))
split_files =
    (codes "debug.log", λ l. int_eq l level_debug)
    ∷ (codes "info.log", λ l. int_eq l level_info)
    ∷ (codes "warn.log", λ l. int_eq l level_warn)
    ∷ (codes "error.log", λ l. geb l level_error)
    ∷ []

unfoldable pub rotator : LoggerConfig → Bytes → Rotator
rotator cfg path = record {
  filename = path;
  max_size = cfg.max_size;
  max_backups = cfg.max_backups;
  max_age = cfg.max_age;
  compress = cfg.compress;
}

module _ {W H R A : Type 0} (slog : Slog W H R A) where
  -- createBaseHandler
  unfoldable pub base_handler : Bytes → Output → ℤ → H
  base_handler format out least =
      if str_eq format (codes "json") then slog.new_json out least else slog.new_text out least

module _ {W H R A : Type 0} (slog : Slog W H R A) (join : Bytes → Bytes → Bytes) where
  -- The files of a directory and the handlers on them, by the loop over `levels`.
  unfoldable pub split :
      Bytes → LoggerConfig → List (Bytes × (ℤ → Bool)) → List Rotator × List (Handler H)
  split format cfg [] = ([], [])
  split format cfg ((name, takes) ∷ rest) =
      let r = rotator cfg (join cfg.directory name) in
      let (closers, handlers) = split format cfg rest in
      (
        r ∷ closers,
        filtered (record {
          handler = base_handler slog format (file r) level_debug;
          predicate = takes;
        })
            ∷ handlers,
      )

module _ {W H R A : Type 0} (slog : Slog W H R A) (join : Bytes → Bytes → Bytes)
    (mkdir_all : Bytes → W → W × Option Error) where
  -- The files that are opened besides stdout; an error of MkdirAll ends Setup.
  unfoldable pub open_files : Option LoggerConfig → W → W × Result (List Rotator × List (Handler H))
  open_files none w = (w, ok ([], []))
  open_files (some cfg) w =
      let format = format_of (some cfg) in
      let (w', failed) = mkdir_all cfg.directory w in
      let r = rotator cfg cfg.filename in
      let single = plain (base_handler slog format (file r) (console_level (some cfg))) in
      if not (is_empty cfg.directory)
      then (w', elim failed [ some e ↦ err e | none ↦ ok (split slog join format cfg split_files) ])
      else if not (is_empty cfg.filename)
      then (w, ok (r ∷ [], single ∷ []))
      else (w, ok ([], []))

  -- The closer, which is none without files, and the new default handler.
  unfoldable pub setup : Option LoggerConfig → W → W × Result (List Rotator × MultiHandler H)
  setup cfg w =
      let console = plain (base_handler slog (format_of cfg) stdout (console_level cfg)) in
      let (w', opened) = open_files cfg w in
      (
        w',
        elim opened [
          | err e ↦ err e
          | ok (closers, handlers) ↦ ok (closers, record { handlers = console ∷ handlers })
        ],
      )
