-- ===== src/Logging.antt =====
-- class Log, Logger and Appender (server/shared/Logging). A text is the list of its characters'
-- codes; what an appender does with a message that it lets through is not modelled.
pub mod Maps
pub mod Config
pub mod File
pub mod Console
pub mod Lookup
pub mod Filter
pub mod Defaults
pub mod Tests
use Prim.Native.Nat.{bit_and}
use landlord.Prelude.{
  ℕ, zero, suc, ◌+◌, ◌-◌, ◌*◌, ◌/◌, ◌%◌, ◌^◌, ◌≤◌, ◌<◌, min, ◌≡◌, refl, sym, ap, ◌∙◌, ◌≢◌, ◌↔◌, ◌⊎◌,
  inl, inr, Bool, true, false, not, ◌&&◌, ◌||◌, Option, none, some, List, [], ◌∷◌, ◌++◌, map, arith,
  ltb, leb, ◌==◌, if◌then◌else◌, ==_iff, Bool-cases, Option-cases, bind, length, get_elem?, set,
  take, drop, replicate, length-append, length-set, take-append-drop, length-take, length-drop,
  length-replicate, get_elem?_total, get_elem?-set_self, get_elem?-set_ne, one_if_eq, count,
  count-append, count-set, u32_mod, add32, sub32, minus_one, is_negative, is_positive, signed_key,
  max32,
}
use landlord.Text.Times.{codes, same_text}

abbrev pub Text : Type 0
Text = List ℕ

pub record LogMessage : Type 0 where
  pub level : ℕ
  pub type : Text
  pub text : Text
  pub prefix : Text

-- An Appender, and what an AppenderFile has besides.
pub record Appender : Type 0 where
  pub name : Text
  pub type : ℕ
  pub level : ℕ
  pub flags : ℕ
  pub file_name : Text
  pub mode : Text
  pub max_file_size : ℕ

-- `appenders` are the numbers of the appenders.
pub record Logger : Type 0 where
  pub name : Text
  pub level : ℕ
  pub appenders : List ℕ

-- Logger::Logger
abbrev pub new_logger : Logger
new_logger = record { name = []; level = 0; appenders = [] }

-- The two maps of Log, in the order of their iterators.
pub record Log : Type 0 where
  pub appenders : List (ℕ × Appender)
  pub loggers : List (Text × Logger)
  pub appender_id : ℕ

-- LOGGER_ROOT
abbrev pub root : Text
root = codes "root"

-- `loggers.find`, with its pointer to the logger.
pub find_logger : Text → List (Text × Logger) → Option Logger
unfolding same_text
find_logger type [] = none
find_logger type ((k, logger) ∷ rest) =
    if same_text k type then some logger else find_logger type rest

pub find_appender : ℕ → List (ℕ × Appender) → Option Appender
find_appender id [] = none
find_appender id ((k, a) ∷ rest) = if k == id then some a else find_appender id rest

-- `type.substr(0, type.find_last_of("."))`
pub before_last_dot : Text → Option Text
before_last_dot [] = none
before_last_dot (c ∷ rest) = elim (before_last_dot rest) [
  | some front ↦ some (c ∷ front)
  | none ↦ if c == b'.' then some [] else none
]

pub parent_logger : Text → Text
unfolding before_last_dot
parent_logger type = elim (before_last_dot type) [ none ↦ root | some front ↦ front ]

-- Log::GetLoggerByType; `none` when the fuel is used up.
pub get_logger : ℕ → Text → Log → Option (Option Logger)
unfolding find_logger parent_logger same_text
get_logger zero type log = none
get_logger (suc n) type log = elim (find_logger type log.loggers) [
  | some logger ↦ some (some logger)
  | none ↦ elim (same_text type root) [
    | true ↦ some none
    | false ↦ get_logger n (parent_logger type) log
  ]
]

-- Each step but the last makes the type shorter.
pub get_logger_by_type : Text → Log → Option (Option Logger)
unfolding get_logger
get_logger_by_type type log = get_logger (length type + 2) type log

-- Log::ShouldLog
pub should_log : Text → ℕ → Log → Bool
unfolding get_logger_by_type
should_log type level log = elim (get_logger_by_type type log) [
  | none ↦ false
  | some found ↦ elim found [
    | none ↦ false
    | some logger ↦ not (logger.level == 0) && leb logger.level level
  ]
]

-- Appender::getLogLevelString, filled up to five characters.
pub log_level_string : ℕ → Text
log_level_string level =
    if level == 6
    then codes "FATAL"
    else if level == 5
    then codes "ERROR"
    else if level == 4
    then codes "WARN "
    else if level == 3
    then codes "INFO "
    else if level == 2
    then codes "DEBUG"
    else if level == 1
    then codes "TRACE"
    else codes "DISABLED"

abbrev pub has_flag : ℕ → ℕ → Bool
has_flag flags flag = not (bit_and flags flag == 0)

-- A space behind what stands there already.
abbrev spaced : Text → Text
spaced [] = []
spaced (c ∷ prefix) = (c ∷ prefix) ++ (b' ' ∷ [])

-- The prefix that Appender::write makes; `time` is the text of the message's time.
pub prefix_of : Text → Appender → LogMessage → Text
unfolding log_level_string
prefix_of time a message =
    let p0 = if has_flag a.flags 1 then time else [] in
    let p1 = if has_flag a.flags 2 then spaced p0 ++ log_level_string message.level else p0 in
    let p2 =
      if has_flag a.flags 4
      then spaced p1 ++ ((b'[' ∷ []) ++ (message.type ++ (b']' ∷ [])))
      else p1 in
    spaced p2

-- Appender::write: the message that it hands to `_write`, if any.
pub appender_write : Text → LogMessage → Appender → Option LogMessage
unfolding prefix_of
appender_write time message a =
    if a.level == 0 || ltb message.level a.level
    then none
    else some (record message { prefix = prefix_of time a message })

-- The loop of Logger::write: each message with the number of its appender.
pub write_to : Text → LogMessage → List ℕ → Log → List (ℕ × LogMessage)
unfolding find_appender appender_write
write_to time message [] log = []
write_to time message (id ∷ ids) log =
    elim (bind (find_appender id log.appenders) (appender_write time message)) [
      | none ↦ write_to time message ids log
      | some m ↦ (id, m) ∷ write_to time message ids log
    ]

-- Logger::write
pub logger_write : Text → LogMessage → Logger → Log → List (ℕ × LogMessage)
unfolding write_to
logger_write time message logger log =
    if logger.level == 0 || ltb message.level logger.level || length message.text == 0
    then []
    else write_to time message logger.appenders log

-- Log::write without an io service; the logger may be null.
pub write : Text → LogMessage → Log → Option (List (ℕ × LogMessage))
unfolding get_logger_by_type logger_write
write time message log = bind (get_logger_by_type message.type log) λ found. bind found λ logger.
    some (logger_write time (record message { text = message.text ++ (10 ∷ []) }) logger log)

-- TC_LOG_MESSAGE_BODY; `text` is the formatted text.
pub tc_log_message : Text → Text → ℕ → Text → Log → Option (List (ℕ × LogMessage))
unfolding should_log write
tc_log_message time type level text log =
    if should_log type level log
    then write time (record { level = level; type = type; text = text; prefix = [] }) log
    else some []

-- LogOperation::call; both pointers may be null.
log_operation_call : Text → Option LogMessage → Option Logger → Log → List (ℕ × LogMessage)
unfolding logger_write
log_operation_call time (some message) (some logger) log = logger_write time message logger log
log_operation_call time none logger log = []
log_operation_call time (some message) none log = []
