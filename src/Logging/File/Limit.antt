-- ===== src/Logging/File/Limit.antt =====
-- The size of a log file (server/shared/Logging/AppenderFile.cpp).
use Prim.Native.Nat.{max}
use landlord.Prelude.{
  ℕ, ◌+◌, ◌%◌, ◌^◌, ◌≤◌, ◌<◌, ◌≡◌, refl, ap, ◌∙◌, ◌⊎◌, inl, inr, true, false, Option, none, some,
  [], ◌++◌, arith, Bool-cases, if◌then◌else◌, length, length-append,
}
use landlord.Text.Times.{codes}
use landlord.Logging.{Text, LogMessage}
use landlord.Logging.File.{
  FileSystem, AppenderFile, line, exceeds, write_line, write_file, open_file, make_backup, opened,
  write_opened,
}

-- What holds of the file that is open, if one is.
abbrev pub OnFile : Option Text → (Text → Type 0) → Type 0
OnFile none P = Unit {0}
OnFile (some f) P = P f

OnFile-map :
    (o : Option Text) (P Q : Text → Type 0) → ((f : Text) → P f → Q f) → OnFile o P → OnFile o Q
OnFile-map none P Q h p = p
OnFile-map (some f) P Q h p = h f p

-- A limit of 0 is none, and a line that is longer than the limit has a file for itself.
abbrev pub InLimit : ℕ → LogMessage → Text → Type 0
InLimit limit m text = (limit ≡ 0) ⊎ (length text ≤ max limit (length (line m)))

within :
    (m : LogMessage) (a : AppenderFile)
    → exceeds m a ≡ false
    → length (line m) < 2 ^ 32
    → a.file_size + length (line m) < 2 ^ 64
    → (a.max_file_size ≡ 0) ⊎ (a.file_size + length (line m) ≤ a.max_file_size)
within m a h short room = ground (arith, length-append m.prefix m.text)

in_limit :
    (limit old new : ℕ) (m : LogMessage) (text : Text)
    → (limit ≡ 0) ⊎ (old + length (line m) ≤ limit)
    → new ≤ old + length (line m)
    → new ≡ length text
    → InLimit limit m text
in_limit limit old new m text (inl unbounded) h e = inl unbounded
in_limit limit old new m text (inr le) h e = inr (omega arith)

module _ (fs : FileSystem) where
  open fs use {Disk, contents, fopen, fprintf, fopen_w, fprintf_appends}

  -- The size that the appender keeps is that of the file.
  abbrev pub IsTracked : AppenderFile → Disk → Text → Type 0
  IsTracked a d f = a.file_size ≡ length (contents f d)

  -- The file after a write of `m`: what was there before, the line, and the size.
  abbrev pub Wrote : (Text → Text) → LogMessage → AppenderFile × Disk → Text → Type 0
  Wrote before m r f = (contents f r.1 ≡ before f ++ line m) × IsTracked r.0 r.1 f

  write_line-Wrote :
      (o : Option Text) (before : Text → Text) (m : LogMessage) (a : AppenderFile) (d : Disk)
      → a.logfile ≡ o
      → OnFile o (λ f. (contents f d ≡ before f) × (a.file_size ≡ length (before f)))
      → length (line m) < 2 ^ 32
      → a.file_size + length (line m) < 2 ^ 64
      → OnFile (write_line fs o m a d).0.logfile (Wrote before m (write_line fs o m a d))
  unfolding write_line
  write_line-Wrote none before m a d e same short room = rw e tt
  write_line-Wrote (some f) before m a d e same short room =
      let c : contents f (fprintf f (line m) d) ≡ before f ++ line m =
        fprintf_appends f (line m) d ∙ ap (λ b. b ++ line m) same.0 in
      rw e (
        c,
        omega (
          arith,
          same.1,
          ap length c,
          length-append (before f) (line m),
          length-append m.prefix m.text,
        ),
      )

  write_line-size :
      (o : Option Text) (m : LogMessage) (a : AppenderFile) (d : Disk)
      → length (line m) < 2 ^ 32
      → (write_line fs o m a d).0.file_size ≤ a.file_size + length (line m)
  unfolding write_line
  write_line-size none m a d short = omega arith
  write_line-size (some f) m a d short = omega (arith, length-append m.prefix m.text)

  -- The file opened anew: it is empty.
  reopened-Wrote :
      (o : Option ℕ) (full : Text) (m : LogMessage) (a : AppenderFile) (d : Disk)
      → length (line m) < 2 ^ 32
      → ((p : ℕ) → o ≡ some p → (p ≡ 0) × (contents full d ≡ []))
      → OnFile
          (write_opened fs m (opened fs o full a d)).0.logfile
          (Wrote (λ _. []) m (write_opened fs m (opened fs o full a d)))
  unfolding write_opened write_line opened
  reopened-Wrote none full m a d short empty = tt
  reopened-Wrote (some p) full m a d short empty =
      let (start, clean) = empty p refl in
      write_line-Wrote (some full) (λ _. []) m
        (record a { file_size = p % 2 ^ 64; logfile = some full }) d refl (clean, omega arith) short
        (omega arith)

  module _ (now name : Text) (m : LogMessage) (a : AppenderFile) (d : Disk)
      (static : a.dynamic_name ≡ false) where
    write_file-over :
        exceeds m a ≡ true
        → write_file fs now name m a d
          ≡ write_opened fs m (
              opened fs
                (fopen
                  (a.log_dir ++ a.file_name)
                  (codes "w")
                  (make_backup fs now (a.log_dir ++ a.file_name) a d).1).0
                (a.log_dir ++ a.file_name)
                (make_backup fs now (a.log_dir ++ a.file_name) a d).0
                (fopen
                  (a.log_dir ++ a.file_name)
                  (codes "w")
                  (make_backup fs now (a.log_dir ++ a.file_name) a d).1).1)
    unfolding write_file open_file
    write_file-over over = simp (static, over)

    write_file-under :
        exceeds m a ≡ false → write_file fs now name m a d ≡ write_line fs a.logfile m a d
    unfolding write_file
    write_file-under under = simp (static, under)

  -- A write to a file of a fixed name: the line is put behind what was there, or, if the file would
  -- grow beyond the limit, into a new file. The size that the appender keeps is that of the file, and
  -- the file stays within the limit, unless the line alone is longer. So if the file could be opened,
  -- for a line of less than 2 ^ 32 bytes and sizes below 2 ^ 64.
  pub write_file_lem :
      (now name : Text) (m : LogMessage) (a : AppenderFile) (d : Disk)
      → a.dynamic_name ≡ false
      → length (line m) < 2 ^ 32
      → a.file_size + length (line m) < 2 ^ 64
      → OnFile a.logfile (IsTracked a d)
      → OnFile (write_file fs now name m a d).0.logfile (λ f.
        Wrote (λ g. if exceeds m a then [] else contents g d) m (write_file fs now name m a d) f
        × InLimit a.max_file_size m (contents f (write_file fs now name m a d).1))
  write_file_lem now name m a d static short room tracked = elim (Bool-cases (exceeds m a)) [
    | inl over ↦
        let full : Text = a.log_dir ++ a.file_name in
        let r1 : AppenderFile × Disk = make_backup fs now full a d in
        let o : Option ℕ × Disk = fopen full (codes "w") r1.1 in
        let r : AppenderFile × Disk = write_opened fs m (opened fs o.0 full r1.0 o.1) in
        rw (write_file-over now name m a d static over, over)
          (OnFile-map r.0.logfile (Wrote (λ _. []) m r) _
            (λ f w. (w, inr (omega (arith, ap length w.0))))
            (reopened-Wrote o.0 full m r1.0 o.1 short (λ p e. fopen_w full r1.1 p e)))
    | inr under ↦
        let r : AppenderFile × Disk = write_line fs a.logfile m a d in
        let before : Text → Text = λ f. contents f d in
        let w : OnFile r.0.logfile (Wrote before m r) =
          write_line-Wrote a.logfile before m a d refl
            (OnFile-map a.logfile (IsTracked a d) _ (λ f t. (refl, t)) tracked) short room in
        rw (write_file-under now name m a d static under, under)
          (OnFile-map r.0.logfile (Wrote before m r) _
            (λ f w. (
              w,
              in_limit a.max_file_size a.file_size r.0.file_size m (contents f r.1)
                  (within m a under short room) (write_line-size a.logfile m a d short) w.1,
            ))
            w)
  ]
