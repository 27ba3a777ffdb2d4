-- ===== src/Logging/File.antt =====
-- class AppenderFile (server/shared/Logging/AppenderFile.cpp), over the files of the host.
pub mod Limit
use landlord.Prelude.{
  ℕ, ◌+◌, ◌%◌, ◌^◌, ◌≤◌, ◌<◌, ◌≡◌, Bool, true, false, ◌&&◌, ◌||◌, Option, none, some, List, [], ◌∷◌,
  ◌++◌, map, ltb, ◌==◌, if◌then◌else◌, length,
}
use landlord.Text.Times.{codes, same_text}
use landlord.Logging.{Text, Appender, LogMessage, has_flag}

-- What the C library does with files, which are known by their names. `fopen` gives the position in
-- the file, as ftell tells it, and fails with `none`; `w` and `a` are the modes. What `rename` does is
-- left open.
pub record FileSystem : Type 1 where
  pub Disk : Type 0
  pub contents : Text → Disk → Text
  pub fopen : Text → Text → Disk → Option ℕ × Disk
  pub fprintf : Text → Text → Disk → Disk
  pub fclose : Text → Disk → Disk
  pub rename : Text → Text → Disk → Disk
  pub fopen_w :
      (name : Text) (d : Disk) (p : ℕ)
      → (fopen name (codes "w") d).0 ≡ some p
      → (p ≡ 0) × (contents name (fopen name (codes "w") d).1 ≡ [])
  pub fprintf_appends :
      (name bytes : Text) (d : Disk)
      → contents name (fprintf name bytes d) ≡ contents name d ++ bytes

-- `logfile` is the name of the open file.
pub record AppenderFile : Type 0 where
  pub logfile : Option Text
  pub file_name : Text
  pub log_dir : Text
  pub mode : Text
  pub dynamic_name : Bool
  pub backup : Bool
  pub max_file_size : ℕ
  pub file_size : ℕ

-- `filename.find("%s") != npos`
has_placeholder : Text → Bool
has_placeholder [] = false
has_placeholder (c ∷ []) = false
has_placeholder (c ∷ d ∷ rest) = (c == b'%' && d == b's') || has_placeholder (d ∷ rest)

-- LogMessage::Size
abbrev pub message_size : LogMessage → ℕ
message_size m = (length m.prefix + length m.text) % 2 ^ 32

-- Colons become dashes in the name of a backup.
abbrev dashed : Text → Text
dashed = map λ c. if c == b':' then b'-' else c

-- What stands in a line of the log.
abbrev pub line : LogMessage → Text
line m = m.prefix ++ m.text

-- `maxFileSize > 0 && (fileSize.load() + message.Size()) > maxFileSize`
abbrev pub exceeds : LogMessage → AppenderFile → Bool
exceeds m a = ltb 0 a.max_file_size && ltb a.max_file_size ((a.file_size + message_size m) % 2 ^ 64)

module _ (fs : FileSystem) where
  open fs use {Disk, fopen, fprintf, fclose, rename}

  -- AppenderFile::CloseFile
  unfoldable pub close_file : AppenderFile → Disk → AppenderFile × Disk
  close_file a d = elim a.logfile [
    | none ↦ (a, d)
    | some name ↦ (record a { logfile = none }, fclose name d)
  ]

  -- The backup in AppenderFile::OpenFile; `now` is the text of the time.
  unfoldable pub make_backup : Text → Text → AppenderFile → Disk → AppenderFile × Disk
  unfolding close_file
  make_backup now full a d =
      let (a', d') = close_file a d in (a', rename full (dashed (full ++ (b'.' ∷ now))) d')

  -- What OpenFile returns after fopen, with the file.
  unfoldable pub opened : Option ℕ → Text → AppenderFile → Disk → Option Text × AppenderFile × Disk
  opened none full a d = (none, a, d)
  opened (some position) full a d = (some full, record a { file_size = position % 2 ^ 64 }, d)

  -- AppenderFile::OpenFile
  unfoldable pub open_file :
      Text → Text → Text → Bool → AppenderFile → Disk → Option Text × AppenderFile × Disk
  unfolding make_backup opened
  open_file now name mode backup a d =
      let full = a.log_dir ++ name in
      let (a', d') = if backup then make_backup now full a d else (a, d) in
      let (position, d'') = fopen full mode d' in opened position full a' d''

  -- AppenderFile::AppenderFile
  pub new_appender_file : Text → Text → Text → Text → ℕ → ℕ → Disk → AppenderFile × Disk
  unfolding open_file has_placeholder
  new_appender_file now name dir mode flags max_size d =
      let a : AppenderFile = record {
        logfile = none;
        file_name = name;
        log_dir = dir;
        mode = mode;
        dynamic_name = has_placeholder name;
        backup = has_flag flags 16;
        max_file_size = max_size;
        file_size = 0;
      } in
      if a.dynamic_name
      then (a, d)
      else (let (file, a', d') =
            open_file now name mode (same_text mode (codes "w") && a.backup) a d in
          (record a' { logfile = file }, d'))

  -- The end of AppenderFile::_write, for the file that is open, if one is.
  unfoldable pub write_line : Option Text → LogMessage → AppenderFile → Disk → AppenderFile × Disk
  write_line none m a d = (a, d)
  write_line (some name) m a d =
      (record a { file_size = (a.file_size + message_size m) % 2 ^ 64 }, fprintf name (line m) d)

  -- `logfile = OpenFile(...)` and the end of AppenderFile::_write
  unfoldable pub write_opened : LogMessage → Option Text × AppenderFile × Disk → AppenderFile × Disk
  unfolding write_line
  write_opened m (file, a, d) = write_line file m (record a { logfile = file }) d

  -- The branch of a dynamic name; `name` is what snprintf makes of it.
  unfoldable pub write_dynamic :
      Text → Text → Bool → LogMessage → AppenderFile → Disk → AppenderFile × Disk
  unfolding open_file
  write_dynamic now name exceed m a d =
      let (file, a', d') = open_file now name (codes "a") (a.backup || exceed) a d in
      elim file [
        | none ↦ (a', d')
        | some full ↦ (
          record a' { file_size = (a'.file_size + message_size m) % 2 ^ 64 },
          fclose full (fprintf full (line m) d'),
        )
      ]

  -- AppenderFile::_write
  unfoldable pub write_file : Text → Text → LogMessage → AppenderFile → Disk → AppenderFile × Disk
  unfolding open_file write_dynamic write_opened write_line
  write_file now name m a d =
      if a.dynamic_name
      then write_dynamic now name (exceeds m a) m a d
      else if exceeds m a
      then write_opened m (open_file now a.file_name (codes "w") true a d)
      else write_line a.logfile m a d
