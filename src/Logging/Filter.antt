-- ===== src/Logging/Filter.antt =====
-- What the test in front of each log call leaves out.
use landlord.Prelude.{
  ℕ, ◌≡◌, refl, sym, ap, inl, inr, true, false, not, ◌&&◌, ◌||◌, none, some, [], ◌∷◌, ◌++◌, arith,
  ltb, leb, ◌==◌, Bool-cases, Option-cases, length,
}
use landlord.Logging.{
  Text, LogMessage, Logger, Log, should_log, logger_write, write, tc_log_message,
}
use landlord.Logging.Lookup.{nearest, lineage, get_logger_by_type-nearest}

-- The message that Log::write hands to a logger.
abbrev pub log_message : Text → ℕ → Text → LogMessage
log_message type level text = record {
  level = level;
  type = type;
  text = text ++ (10 ∷ []);
  prefix = [];
}

-- A logger that does not pass the test writes nothing.
logger_write-quiet :
    (time : Text) (message : LogMessage) (logger : Logger) (log : Log)
    → (not (logger.level == 0) && leb logger.level message.level) ≡ false
    → logger_write time message logger log ≡ []
unfolding logger_write
logger_write-quiet time message logger log h =
    let quiet : (logger.level == 0 || ltb message.level logger.level || length message.text == 0)
        ≡ true =
      ground (arith, h) in
    rw (logger_write, quiet) refl

-- The log macros follow no null pointer, and their test loses no message: they write what the nearest
-- logger of the type writes of the message, and nothing if there is none.
pub tc_log_message-nearest :
    (time type : Text) (level : ℕ) (text : Text) (log : Log)
    → tc_log_message time type level text log
      ≡ some (elim (nearest (lineage type) log) [
        | none ↦ []
        | some logger ↦ logger_write time (log_message type level text) logger log
      ])
unfolding tc_log_message should_log write
tc_log_message-nearest time type level text log =
    let found = get_logger_by_type-nearest type log in
    elim (Option-cases (nearest (lineage type) log)) [
      | inl e ↦ rw (tc_log_message, should_log, found, e) refl
      | inr (logger, e) ↦ elim (Bool-cases (not (logger.level == 0) && leb logger.level level)) [
        | inl h ↦ rw (tc_log_message, should_log, write, found, e, h) refl
        | inr h ↦
            rw (tc_log_message, should_log, found, e, h)
              (ap some (sym (logger_write-quiet time (log_message type level text) logger log h)))
      ]
    ]
