-- ===== src/Logging/Tests.antt =====
-- Messages of a log with two loggers.
use landlord.Prelude.{
  ℕ, ◌-◌, false, Option, arith, length, replicate, if◌then◌else◌, ◌≡◌, refl, none, some, [], ◌∷◌,
  ◌++◌,
}
use landlord.Text.Times.{codes, same_text}
use landlord.Logging.{
  Text, LogMessage, Log, root, find_logger, get_logger, get_logger_by_type, parent_logger,
  before_last_dot, should_log, write, logger_write, write_to, find_appender, appender_write,
  prefix_of, log_level_string, tc_log_message,
}
use landlord.Logging.File.{FileSystem, AppenderFile, write_file, exceeds}
use landlord.Logging.File.Limit.{OnFile, Wrote, InLimit, write_file_lem}
use landlord.Logging.Console.{new_appender_console, init_colors, write_console}
use landlord.Logging.Lookup.{nearest, lineage, same_text_refl}
use landlord.Logging.Filter.{log_message, tc_log_message-nearest}

-- The root logs errors, "server" all from "INFO" on; the appender has the level in its prefix.
abbrev two_loggers : Log
two_loggers = record {
  appenders =
      (
        0,
        record {
          name = codes "Console";
          type = 1;
          level = 2;
          flags = 6;
          file_name = [];
          mode = [];
          max_file_size = 0;
        },
      )
      ∷ [];
  loggers =
      (root, record { name = root; level = 5; appenders = 0 ∷ [] })
      ∷ (codes "server", record { name = codes "server"; level = 3; appenders = 0 ∷ [] })
      ∷ [];
  appender_id = 1;
}

-- The logger of "server" writes the messages of "server.loading".
server_message :
    tc_log_message [] (codes "server.loading") 3 (codes "Up") two_loggers
    ≡ some (
        (
          0,
          record {
            level = 3;
            type = codes "server.loading";
            text = codes "Up" ++ (10 ∷ []);
            prefix = codes "INFO  [server.loading] ";
          },
        )
        ∷ [])
unfolding tc_log_message should_log write get_logger_by_type get_logger find_logger same_text
    parent_logger before_last_dot logger_write write_to find_appender appender_write prefix_of
    log_level_string
server_message = refl

tc_log_message-nearest_example :
    tc_log_message [] (codes "server.loading") 3 (codes "Up") two_loggers
    ≡ some (elim (nearest (lineage (codes "server.loading")) two_loggers) [
      | none ↦ []
      | some logger ↦
          logger_write [] (log_message (codes "server.loading") 3 (codes "Up")) logger two_loggers
    ])
tc_log_message-nearest_example =
    tc_log_message-nearest [] (codes "server.loading") 3 (codes "Up") two_loggers

-- The files of a host, by their names.
abbrev written : Text → Text → (Text → Text) → Text → Text
written name text d k = if same_text k name then text else d k

abbrev reopen : Text → Text → (Text → Text) → Option ℕ × (Text → Text)
reopen name mode d =
    if same_text mode (codes "w") then (some 0, written name [] d) else (some (length (d name)), d)

reopen-w :
    (name : Text) (d : Text → Text) (p : ℕ)
    → (reopen name (codes "w") d).0 ≡ some p
    → (p ≡ 0) × ((reopen name (codes "w") d).1 name ≡ [])
unfolding same_text
reopen-w name d p e = (cc, rw (same_text_refl name))

written-appends :
    (name bytes : Text) (d : Text → Text) → written name (d name ++ bytes) d name ≡ d name ++ bytes
written-appends name bytes d = rw (same_text_refl name)

abbrev host : FileSystem
host = record {
  Disk = Text → Text;
  contents = λ name d. d name;
  fopen = reopen;
  fprintf = λ name bytes d. written name (d name ++ bytes) d;
  fclose = λ name d. d;
  rename = λ old new d. written old [] (written new (d old) d);
  fopen_w = reopen-w;
  fprintf_appends = written-appends;
}

-- An appender that has written six bytes of ten.
abbrev small_file : AppenderFile
small_file = record {
  logfile = some (codes "logs/a.log");
  file_name = codes "a.log";
  log_dir = codes "logs/";
  mode = codes "a";
  dynamic_name = false;
  backup = false;
  max_file_size = 10;
  file_size = 6;
}

abbrev old_disk : Text → Text
old_disk name = if same_text name (codes "logs/a.log") then replicate 6 b'x' else []

abbrev stop_message : LogMessage
stop_message = record { level = 3; type = root; text = codes "stop"; prefix = codes ">" }

-- Five more bytes are too many: they go to a new file.
write_file_lem_example :
    OnFile (write_file host (codes "12:00") [] stop_message small_file old_disk).0.logfile (λ f.
      Wrote host
        (λ g. if exceeds stop_message small_file then [] else old_disk g)
        stop_message
        (write_file host (codes "12:00") [] stop_message small_file old_disk)
        f
      × InLimit 10 stop_message
          ((write_file host (codes "12:00") [] stop_message small_file old_disk).1 f))
unfolding same_text
write_file_lem_example =
    write_file_lem host (codes "12:00") [] stop_message small_file old_disk refl (omega arith)
      (omega arith) refl

-- Numbers of one digit, one char apart.
abbrev one_digit : Text → Option (ℕ × Text)
one_digit [] = none
one_digit (c ∷ []) = some (c - 48, [])
one_digit (c ∷ _ ∷ rest) = some (c - 48, rest)

red_error :
    write_console
      (record stop_message { level = 5 })
      (init_colors one_digit (codes "1 8 3 4 5 6") new_appender_console)
    ≡ some (false, (27 ∷ []) ++ (codes "[38;1m>stop" ++ ((27 ∷ []) ++ codes "[0m")))
unfolding write_console init_colors
red_error = refl
