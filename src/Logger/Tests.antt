-- ===== src/Logger/Tests.antt =====
-- The handlers that Setup makes, on a slog that keeps the lines.
use docpine.Base.{
  ◌≡◌, ◌↔◌, refl, false, Option, none, some, List, [], ◌∷◌, ◌++◌, Bytes, codes, str_eq, ℤ, pos, geb,
  if◌then◌else◌,
}
use docpine.Text.{to_lower}
use docpine.Runtime.{Error, ok}
use docpine.Config.{LoggerConfig}
use docpine.Logger.{
  Rotator, Output, stdout, Slog, plain, MultiHandler, multi_enabled, multi_handle, console_level,
  format_of, level_named, split_files, rotator, base_handler, split, open_files, setup,
}
use docpine.Logger.Routing.{
  IsDocumented, targets, deliver, file_target, multi_handle-deliver, setup_routes,
}

-- A handler is its output and its least level, and a record is its level and text.
record Sink : Type 0 where
  output : Output
  least : ℤ

abbrev Line : Type 0
Line = ℤ × Bytes

abbrev keeping : Slog (List (Output × Bytes)) Sink Line Bytes
keeping = record {
  new_text = λ out least. record { output = out; least = least };
  new_json = λ out least. record { output = out; least = least };
  is_enabled = λ h l. geb l h.least;
  level = λ r. r.0;
  handle = λ h r w. ((h.output, r.1) ∷ w, none);
  with_attrs = λ attrs h. h;
  with_group = λ name h. h;
}

keeping-IsDocumented : IsDocumented keeping
keeping-IsDocumented = record {
  text_enabled = λ out least l. refl;
  json_enabled = λ out least l. refl;
  attrs_enabled = λ attrs h l. refl;
}

abbrev join : Bytes → Bytes → Bytes
join dir name = dir ++ (b'/' ∷ name)

abbrev mkdir_all : Bytes → List (Output × Bytes) → List (Output × Bytes) × Option Error
mkdir_all dir w = (w, none)

abbrev in_logs : LoggerConfig
in_logs = record {
  directory = codes "logs";
  filename = [];
  max_size = pos 10;
  max_backups = pos 3;
  max_age = pos 7;
  compress = false;
  format = codes "text";
  level = codes "ERROR";
}

abbrev closers : List Rotator
closers =
    rotator in_logs (codes "logs/debug.log")
    ∷ rotator in_logs (codes "logs/info.log")
    ∷ rotator in_logs (codes "logs/warn.log")
    ∷ rotator in_logs (codes "logs/error.log")
    ∷ []

abbrev made : MultiHandler Sink
made = record {
  handlers =
      plain (base_handler keeping (codes "text") stdout (pos 8))
      ∷ (split keeping join (codes "text") in_logs split_files).1;
}

setup-made : (setup keeping join mkdir_all (some in_logs) []).1 ≡ ok (closers, made)
unfolding setup open_files split split_files base_handler console_level format_of level_named
    to_lower rotator str_eq
setup-made = refl

setup_routes_example :
    targets keeping (pos 4) made.handlers
    ≡ (if geb (pos 4) (console_level (some in_logs))
        then base_handler keeping (format_of (some in_logs)) stdout (console_level (some in_logs))
          ∷ []
        else [])
      ++ file_target keeping join (some in_logs) (pos 4)
setup_routes_example =
    setup_routes keeping keeping-IsDocumented join mkdir_all (some in_logs) [] closers made (pos 4)
      setup-made

multi_handle-deliver_example :
    let hs = targets keeping (pos 8) made.handlers in
    (multi_handle keeping made (pos 8, codes "down") []
      ≡ deliver keeping hs (pos 8, codes "down") [])
    × ((multi_enabled keeping made (pos 8) ≡ false) ↔ (hs ≡ []))
multi_handle-deliver_example = multi_handle-deliver keeping made (pos 8, codes "down") []
