-- ===== src/Logger/Routing.antt =====
-- Which outputs a record reaches.
use docpine.Base.{
  ◌≡◌, refl, ◌↔◌, inl, inr, false, ◌&&◌, ◌||◌, not, Bool-cases, Option, none, some, Option-cases,
  List, [], ◌∷◌, ◌++◌, map, Bytes, codes, is_empty, arith, ℤ, pos, negsuc, geb, int_eq,
  if◌then◌else◌,
}
use docpine.Runtime.{Error, Result, ok, err, Result-cases}
use docpine.Config.{LoggerConfig}
use docpine.Logger.{
  level_debug, level_info, level_warn, level_error, Rotator, Output, stdout, file, Slog, Handler,
  plain, filtered, MultiHandler, with_error, enabled, handle, with_attrs, any_enabled,
  multi_enabled, handle_each, multi_handle, multi_with_attrs, console_level, format_of, split_files,
  rotator, base_handler, split, open_files, setup,
}

-- The documented behaviour of the handlers of slog: they take the records from their least level on,
-- and attributes and groups do not change that.
pub record IsDocumented {W H R A : Type 0} (slog : Slog W H R A) : Type 0 where
  pub text_enabled :
      (out : Output) (least l : ℤ) → slog.is_enabled (slog.new_text out least) l ≡ geb l least
  pub json_enabled :
      (out : Output) (least l : ℤ) → slog.is_enabled (slog.new_json out least) l ≡ geb l least
  pub attrs_enabled :
      (attrs : A) (h : H) (l : ℤ)
      → slog.is_enabled (slog.with_attrs attrs h) l ≡ slog.is_enabled h l

module _ {W H R A : Type 0} (slog : Slog W H R A) where
  -- The handler of slog that a record of a level reaches through a handler, if any.
  abbrev pub target : ℤ → Handler H → List H
  target l (plain h) = if slog.is_enabled h l then h ∷ [] else []
  target l (filtered f) =
      if f.predicate l && slog.is_enabled f.handler l then f.handler ∷ [] else []

  abbrev pub targets : ℤ → List (Handler H) → List H
  targets l [] = []
  targets l (h ∷ hs) = target l h ++ targets l hs

  -- A record is given to each of some handlers of slog, whatever their errors.
  abbrev pub deliver : List H → R → W → W × List Error
  deliver [] r w = (w, [])
  deliver (h ∷ hs) r w =
      let (w', failed) = slog.handle h r w in
      let (w'', errs) = deliver hs r w' in (w'', with_error failed errs)

  handle_each-deliver :
      (hs : List (Handler H)) (r : R) (w : W)
      → handle_each slog hs r w ≡ deliver (targets (slog.level r) hs) r w
  unfolding handle_each enabled handle
  handle_each-deliver [] r w = refl
  handle_each-deliver (plain h ∷ hs) r w =
      ground (arith, handle_each-deliver hs r (slog.handle h r w).0, handle_each-deliver hs r w)
  handle_each-deliver (filtered f ∷ hs) r w =
      ground
        (arith, handle_each-deliver hs r (slog.handle f.handler r w).0, handle_each-deliver hs r w)

  any_enabled-targets :
      (l : ℤ) (hs : List (Handler H)) → (any_enabled slog hs l ≡ false) ↔ (targets l hs ≡ [])
  unfolding any_enabled enabled
  any_enabled-targets l [] = ground arith
  any_enabled-targets l (plain h ∷ hs) = ground (arith, any_enabled-targets l hs)
  any_enabled-targets l (filtered f ∷ hs) = ground (arith, any_enabled-targets l hs)

  -- MultiHandler.Handle gives a record once, in order, to each handler of slog that takes its level
  -- and whose filter, if it has one, lets the level pass, and to no other; an error of one keeps it
  -- from no other, and the errors are reported together. Enabled refuses exactly the levels that
  -- reach none.
  pub multi_handle-deliver :
      (m : MultiHandler H) (r : R) (w : W)
      → let hs = targets (slog.level r) m.handlers in
        (multi_handle slog m r w ≡ deliver hs r w)
        × ((multi_enabled slog m (slog.level r) ≡ false) ↔ (hs ≡ []))
  unfolding multi_handle multi_enabled
  multi_handle-deliver m r w =
      (handle_each-deliver m.handlers r w, any_enabled-targets (slog.level r) m.handlers)

  targets-with_attrs :
      IsDocumented slog
      → (attrs : A) (l : ℤ) (hs : List (Handler H))
      → targets l (map (with_attrs slog attrs) hs) ≡ map (slog.with_attrs attrs) (targets l hs)
  unfolding with_attrs
  targets-with_attrs law attrs l [] = refl
  targets-with_attrs law attrs l (plain h ∷ hs) =
      ground (arith, law.attrs_enabled attrs h l, targets-with_attrs law attrs l hs)
  targets-with_attrs law attrs l (filtered f ∷ hs) =
      ground (arith, law.attrs_enabled attrs f.handler l, targets-with_attrs law attrs l hs)

  -- A logger that is derived with attributes sends every level to the same places.
  multi_with_attrs-targets :
      IsDocumented slog
      → (attrs : A) (l : ℤ) (m : MultiHandler H)
      → targets l (multi_with_attrs slog attrs m).handlers
        ≡ map (slog.with_attrs attrs) (targets l m.handlers)
  unfolding multi_with_attrs
  multi_with_attrs-targets law attrs l m = targets-with_attrs law attrs l m.handlers

-- The file in the directory that takes a level.
abbrev pub file_name : ℤ → Option Bytes
file_name l =
    if geb l level_error
    then some (codes "error.log")
    else if int_eq l level_warn
    then some (codes "warn.log")
    else if int_eq l level_info
    then some (codes "info.log")
    else if int_eq l level_debug
    then some (codes "debug.log")
    else none

abbrev listed : {H : Type 0} → (Bytes → H) → Option Bytes → List H
listed f none = []
listed f (some name) = f name ∷ []

-- At most one of the four takes a level.
one_file :
    {H : Type 0} (f : Bytes → H) (l : ℤ)
    → (if int_eq l level_debug && geb l level_debug then f (codes "debug.log") ∷ [] else [])
        ++ ((if int_eq l level_info && geb l level_debug then f (codes "info.log") ∷ [] else [])
            ++ ((if int_eq l level_warn && geb l level_debug then f (codes "warn.log") ∷ [] else [])
                ++ ((if geb l level_error && geb l level_debug
                      then f (codes "error.log") ∷ []
                      else [])
                    ++ [])))
      ≡ listed f (file_name l)
one_file f (pos n) = ground arith
one_file f (negsuc n) = ground arith

module _ {W H R A : Type 0} (slog : Slog W H R A) (join : Bytes → Bytes → Bytes) where
  abbrev in_directory : LoggerConfig → Bytes → H
  in_directory cfg name =
      base_handler slog (format_of (some cfg)) (file (rotator cfg (join cfg.directory name)))
        level_debug

  -- What a record of a level reaches besides stdout, by the configuration.
  abbrev pub file_target : Option LoggerConfig → ℤ → List H
  file_target none l = []
  file_target (some cfg) l =
      if is_empty cfg.directory
      then (if is_empty cfg.filename || not (geb l (console_level (some cfg)))
          then []
          else base_handler slog (format_of (some cfg)) (file (rotator cfg cfg.filename))
              (console_level (some cfg))
            ∷ [])
      else listed (in_directory cfg) (file_name l)

module _ {W H R A : Type 0} (slog : Slog W H R A) (law : IsDocumented slog)
    (join : Bytes → Bytes → Bytes) (mkdir_all : Bytes → W → W × Option Error) where
  base_handler-enabled :
      (format : Bytes) (out : Output) (least l : ℤ)
      → slog.is_enabled (base_handler slog format out least) l ≡ geb l least
  unfolding base_handler
  base_handler-enabled format out least l =
      ground (arith, law.text_enabled out least l, law.json_enabled out least l)

  targets-split :
      (cfg : LoggerConfig) (l : ℤ)
      → targets slog l (split slog join (format_of (some cfg)) cfg split_files).1
        ≡ listed (in_directory slog join cfg) (file_name l)
  unfolding split split_files
  targets-split cfg l =
      let takes : (name : Bytes)
          → slog.is_enabled (in_directory slog join cfg name) l ≡ geb l level_debug =
        λ name.
          base_handler-enabled (format_of (some cfg)) (file (rotator cfg (join cfg.directory name)))
            level_debug l in
      rw
        (
          takes (codes "debug.log"),
          takes (codes "info.log"),
          takes (codes "warn.log"),
          takes (codes "error.log"),
        )
        (one_file (in_directory slog join cfg) l)

  -- The handlers that were opened, if they were, have some targets.
  abbrev Opens : ℤ → List H → Result (List Rotator × List (Handler H)) → Type 0
  Opens l hs (err e) = Unit
  Opens l hs (ok (closers, handlers)) = targets slog l handlers ≡ hs

  open_files-Opens :
      (cfg : Option LoggerConfig) (w : W) (l : ℤ)
      → Opens l (file_target slog join cfg l) (open_files slog join mkdir_all cfg w).1
  unfolding open_files
  open_files-Opens none w l = refl
  open_files-Opens (some cfg) w l = elim (Bool-cases (is_empty cfg.directory)) [
    | inl no_dir ↦ elim (Bool-cases (is_empty cfg.filename)) [
      | inl no_file ↦ rw (no_dir, no_file, open_files) refl
      | inr one ↦
          rw (no_dir, one, open_files)
            (ground (
              arith,
              base_handler-enabled (format_of (some cfg)) (file (rotator cfg cfg.filename))
                  (console_level (some cfg)) l,
            ))
    ]
    | inr dir ↦ elim (Option-cases (mkdir_all cfg.directory w).1) [
      | inl made ↦ rw (dir, made, open_files) (targets-split cfg l)
      | inr (e, failed) ↦ rw (dir, failed, open_files) tt
    ]
  ]

  -- Where the handlers that Setup makes send a record, for every configuration: to stdout from the
  -- configured level on; with a directory, to at most one of its files, which is error.log from
  -- ERROR on, and warn.log, info.log or debug.log for exactly the levels WARN, INFO and DEBUG, so
  -- that a level between these reaches no file; else with a file name, to that file from the
  -- configured level on. The handlers of slog behave as `IsDocumented` states, and Setup does not
  -- fail.
  pub setup_routes :
      (cfg : Option LoggerConfig) (w : W) (closers : List Rotator) (m : MultiHandler H) (l : ℤ)
      → (setup slog join mkdir_all cfg w).1 ≡ ok (closers, m)
      → targets slog l m.handlers
        ≡ (if geb l (console_level cfg)
            then base_handler slog (format_of cfg) stdout (console_level cfg) ∷ []
            else [])
          ++ file_target slog join cfg l
  unfolding setup
  setup_routes cfg w closers m l made =
      let console = base_handler-enabled (format_of cfg) stdout (console_level cfg) l in
      elim (Result-cases (open_files slog join mkdir_all cfg w).1) [
        | inl ((cs, hs), e) ↦
            let reached : targets slog l hs ≡ file_target slog join cfg l =
              rw (e) at (open_files-Opens cfg w l) in
            ground (arith, e, made, reached, console)
        | inr (failed, e) ↦ ground (arith, e, made)
      ]
