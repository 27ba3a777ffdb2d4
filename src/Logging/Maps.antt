-- ===== src/Logging/Maps.antt =====
-- The maps of Log and of a Logger, and what changes them (server/shared/Logging/Log.cpp, Logger.cpp).
use landlord.Prelude.{
  ℕ, ◌+◌, ◌%◌, Bool, true, false, Option, none, some, List, [], ◌∷◌, ◌==◌, if◌then◌else◌, bind,
}
use landlord.Text.Times.{codes, same_text}
use landlord.Logging.{Text, Appender, Logger, new_logger, Log, root, find_logger}

-- Log::GetAppenderByName; no appender of the map is null.
appender_by_name : Text → List (ℕ × Appender) → Option ℕ
unfolding same_text
appender_by_name name [] = none
appender_by_name name ((id, a) ∷ rest) =
    if same_text a.name name then some id else appender_by_name name rest

-- `appenders[id] = a` and `loggers[name] = l`
unfoldable pub put_appender : ℕ → Appender → List (ℕ × Appender) → List (ℕ × Appender)
put_appender id a [] = (id, a) ∷ []
put_appender id a ((k, b) ∷ rest) =
    if k == id then (k, a) ∷ rest else (k, b) ∷ put_appender id a rest

unfoldable pub put_logger : Text → Logger → List (Text × Logger) → List (Text × Logger)
unfolding same_text
put_logger name l [] = (name, l) ∷ []
put_logger name l ((k, b) ∷ rest) =
    if same_text k name then (k, l) ∷ rest else (k, b) ∷ put_logger name l rest

-- A new appender under NextAppenderId, which is a uint8.
unfoldable pub add_appender : Appender → Log → Log
unfolding put_appender
add_appender a log = record log {
  appenders = put_appender log.appender_id a log.appenders;
  appender_id = (log.appender_id + 1) % 256;
}

-- Logger::addAppender and delAppender
unfoldable pub add_id : ℕ → List ℕ → List ℕ
add_id id [] = id ∷ []
add_id id (k ∷ ids) = if k == id then k ∷ ids else k ∷ add_id id ids

del_appender : ℕ → List ℕ → List ℕ
del_appender id [] = []
del_appender id (k ∷ ids) = if k == id then ids else k ∷ del_appender id ids

-- The appenders with the names that a setting lists are added to those that are there.
unfoldable pub named_appenders : List Text → List (ℕ × Appender) → List ℕ → List ℕ
unfolding appender_by_name add_id
named_appenders [] appenders ids = ids
named_appenders (name ∷ names) appenders ids =
    named_appenders names appenders
      (elim (appender_by_name name appenders) [ none ↦ ids | some id ↦ add_id id ids ])

-- Log::SetLogLevel of a logger and of an appender, with the level that `atoi` made of the text. A
-- logger is looked for by the name that it has itself.
set_named : Text → ℕ → List (Text × Logger) → Option (List (Text × Logger))
unfolding same_text
set_named name level [] = none
set_named name level ((k, l) ∷ rest) =
    if same_text l.name name
    then some ((k, record l { level = level }) ∷ rest)
    else bind (set_named name level rest) λ r. some ((k, l) ∷ r)

abbrev change_level : ℕ → ℕ → List (ℕ × Appender) → List (ℕ × Appender)
change_level id level [] = []
change_level id level ((k, a) ∷ rest) =
    if k == id then (k, record a { level = level }) ∷ rest else (k, a) ∷ change_level id level rest

set_log_level : Text → ℕ → Bool → Log → Bool × Log
unfolding set_named appender_by_name
set_log_level name level is_logger log =
    if is_logger
    then (elim (set_named name level log.loggers) [
      | none ↦ (false, log)
      | some ls ↦ (true, record log { loggers = ls })
    ])
    else (elim (appender_by_name name log.appenders) [
      | none ↦ (false, log)
      | some id ↦ (true, record log { appenders = change_level id level log.appenders })
    ])

-- Log::Close
abbrev pub close : Log → Log
close log = record log { appenders = []; loggers = [] }

-- The appender of the default settings.
abbrev console : Appender
console = record {
  name = codes "Console";
  type = 1;
  level = 2;
  flags = 0;
  file_name = [];
  mode = [];
  max_file_size = 0;
}

-- The default settings of ReadLoggersFromConfig. `logger` is a reference to the root's entry, so that
-- `logger = loggers["server"]` copies the new entry of "server" over it.
unfoldable pub default_loggers : Log → Log
unfolding add_appender put_logger find_logger add_id
default_loggers log =
    let id = log.appender_id in
    let l0 = add_appender console (close log) in
    let root_logger : Logger = record { name = root; level = 5; appenders = id ∷ [] } in
    let l1 = put_logger (codes "server") new_logger (put_logger root root_logger l0.loggers) in
    let copied : Logger = elim (find_logger (codes "server") l1) [
      | none ↦ new_logger
      | some l ↦ l
    ] in
    let created : Logger = record copied {
      name = codes "server";
      level = 5;
      appenders = add_id id copied.appenders;
    } in
    record l0 { loggers = put_logger root created l1 }
