-- ===== src/Logging/Config.antt =====
-- How Log reads its settings (server/shared/Logging/Log.cpp).
use landlord.Prelude.{
  ℕ, not, ◌&&◌, ◌||◌, Option, none, some, List, [], ◌∷◌, ◌++◌, ltb, ◌==◌, if◌then◌else◌, bind,
  length, get_elem?, drop,
}
use landlord.Text.Times.{codes}
use landlord.Text.Tokens.{tokenizer}
use landlord.Logging.{
  Text, Appender, Logger, new_logger, Log, root, find_logger, has_flag, before_last_dot,
}
use landlord.Logging.Maps.{put_logger, add_appender, named_appenders, close, default_loggers}

-- What comes from outside: the settings by their keys, the keys that begin with a text, the number at
-- the beginning of a text as `atoi` reads it into an unsigned type, the words of a text, and
-- `m_logsTimestamp`.
pub record Settings : Type 0 where
  pub get_string : Text → Text
  pub keys_by_string : Text → List Text
  pub atoi : Text → ℕ
  pub words : Text → List Text
  pub timestamp : Text

-- The name of the file, with the time of the start in front of its last dot.
stamped : Text → Text → Text
stamped timestamp name = elim (before_last_dot name) [
  | none ↦ name ++ timestamp
  | some front ↦ front ++ (timestamp ++ drop (length front) name)
]

-- `tokens[i]`, where there is one.
abbrev token_at : ℕ → Text → List Text → Text
token_at i otherwise tokens = elim (get_elem? tokens i) [ none ↦ otherwise | some t ↦ t ]

module _ (settings : Settings) where
  open settings use {get_string, keys_by_string, atoi, words, timestamp}

  -- The appender that the tokens of a setting describe, if they do.
  appender_from : Text → List Text → Option Appender
  unfolding stamped
  appender_from name tokens =
      let size = length tokens in
      let type = atoi (token_at 0 [] tokens) in
      let level = atoi (token_at 1 [] tokens) in
      let flags = if ltb 2 size then atoi (token_at 2 [] tokens) else 0 in
      let file = token_at 3 [] tokens in
      if ltb size 2 || ltb 6 level
      then none
      else if type == 1
      then some (record {
        name = name;
        type = 1;
        level = level;
        flags = flags;
        file_name = [];
        mode = [];
        max_file_size = 0;
      })
      else if type == 2 && not (ltb size 4)
      then some (record {
        name = name;
        type = 2;
        level = level;
        flags = flags;
        file_name = if has_flag flags 8 then stamped timestamp file else file;
        mode = token_at 4 (codes "a") tokens;
        max_file_size = if ltb 5 size then atoi (token_at 5 [] tokens) else 0;
      })
      else none

  -- Log::CreateAppenderFromConfig; the separator is not 0, so the tokenizer returns.
  create_appender : Text → Log → Log
  unfolding appender_from add_appender
  create_appender appender_name log =
      if length appender_name == 0
      then log
      else (elim (bind (tokenizer (get_string appender_name) b',')
          (appender_from (drop 9 appender_name))) [ none ↦ log | some a ↦ add_appender a log ])

  -- Log::CreateLoggerFromConfig. The entry of the map is there before the level is looked at.
  create_logger : Text → Log → Log
  unfolding put_logger named_appenders find_logger
  create_logger appender_name log =
      let options = get_string appender_name in
      let name = drop 7 appender_name in
      let tokens : List Text = elim (tokenizer options b',') [ none ↦ [] | some ts ↦ ts ] in
      let level = atoi (token_at 0 [] tokens) in
      let logger : Logger = elim (find_logger name log.loggers) [
        | none ↦ new_logger
        | some l ↦ l
      ] in
      let there = record log { loggers = put_logger name logger log.loggers } in
      if length appender_name == 0 || length options == 0 || not (length tokens == 2)
      then log
      else if not (length logger.name == 0) || ltb 6 level
      then there
      else record log {
        loggers =
            put_logger name
              (record {
                name = name;
                level = level;
                appenders =
                    named_appenders (words (token_at 1 [] tokens)) log.appenders logger.appenders;
              })
              log.loggers;
      }

  -- The loops over the keys.
  create_all : (Text → Log → Log) → List Text → Log → Log
  create_all create [] log = log
  create_all create (key ∷ keys) log = create_all create keys (create key log)

  -- Log::ReadAppendersFromConfig and ReadLoggersFromConfig
  read_appenders : Log → Log
  unfolding create_all create_appender
  read_appenders log = create_all create_appender (keys_by_string (codes "Appender.")) log

  read_loggers : Log → Log
  unfolding create_all create_logger find_logger default_loggers
  read_loggers log =
      let log' = create_all create_logger (keys_by_string (codes "Logger.")) log in
      elim (find_logger root log'.loggers) [ none ↦ default_loggers log' | some l ↦ log' ]

  -- Log::LoadFromConfig, but for the directory of the files.
  load_from_config : Log → Log
  unfolding read_appenders read_loggers
  load_from_config log = read_loggers (read_appenders (record (close log) { appender_id = 0 }))
