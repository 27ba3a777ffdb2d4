-- ===== src/Logging/Defaults.antt =====
-- What the default settings of the log do.
use landlord.Prelude.{ℕ, ◌≡◌, refl, some, [], bind}
use landlord.Text.Times.{codes, same_text}
use landlord.Logging.{
  Text, Log, root, find_logger, get_logger, get_logger_by_type, should_log, tc_log_message,
}
use landlord.Logging.Maps.{put_logger, put_appender, add_appender, add_id, default_loggers}

-- The default settings of the log silence the server: no message of the type "server", of whatever
-- level, is written, since the logger of that name stays as it was made and the root gets its name.
pub default_loggers-silent :
    (log : Log) (time : Text) (level : ℕ) (text : Text)
    → (tc_log_message time (codes "server") level text (default_loggers log) ≡ some [])
      × (bind (find_logger root (default_loggers log).loggers) (λ l. some l.name)
          ≡ some (codes "server"))
unfolding tc_log_message should_log get_logger_by_type get_logger find_logger same_text
    default_loggers put_logger put_appender add_appender add_id
default_loggers-silent log time level text = (refl, refl)
