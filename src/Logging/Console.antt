-- ===== src/Logging/Console.antt =====
-- class AppenderConsole (server/shared/Logging/AppenderConsole.cpp) on a Unix host. What it prints is
-- the list of the bytes of each stream.
use landlord.Prelude.{
  ℕ, zero, suc, Bool, true, false, ◌&&◌, ◌||◌, not, Option, none, some, List, [], ◌∷◌, ◌++◌, bind,
  ltb, leb, ◌==◌, if◌then◌else◌, get_elem?, replicate, is_negative, length,
}
use landlord.Text.Times.{codes, digits}
use landlord.Logging.{Text, LogMessage}

-- ColorTypes and MaxColors: black is 0, white is 14.
abbrev max_colors : ℕ
max_colors = 15

abbrev yellow : ℕ
yellow = 8

abbrev max_log_levels : ℕ
max_log_levels = 6

pub record AppenderConsole : Type 0 where
  pub colored : Bool
  pub colors : List ℕ

-- AppenderConsole::AppenderConsole
abbrev pub new_appender_console : AppenderConsole
new_appender_console = record { colored = false; colors = replicate max_log_levels max_colors }

-- The first loop of InitColors over `n` levels. `read_int` is `ss >> color[i]`: an int32 and the rest
-- of the stream, if there is a number.
unfoldable pub read_colors : (Text → Option (ℕ × Text)) → ℕ → Text → Option (List ℕ)
read_colors read_int zero text = some []
read_colors read_int (suc n) text = bind (read_int text) λ r.
    if is_negative r.0 || leb max_colors r.0
    then none
    else bind (read_colors read_int n r.1) λ colors. some (r.0 ∷ colors)

-- AppenderConsole::InitColors
unfoldable pub init_colors : (Text → Option (ℕ × Text)) → Text → AppenderConsole → AppenderConsole
unfolding read_colors
init_colors read_int text a =
    if length text == 0
    then record a { colored = false }
    else elim (read_colors read_int max_log_levels text) [
      | none ↦ a
      | some colors ↦ record { colored = true; colors = colors }
    ]

-- UnixColorFG
abbrev unix_colors : List ℕ
unix_colors = 30 ∷ 31 ∷ 32 ∷ 33 ∷ 34 ∷ 35 ∷ 36 ∷ 37 ∷ 38 ∷ 31 ∷ 32 ∷ 34 ∷ 35 ∷ 36 ∷ 37 ∷ []

-- AppenderConsole::SetColor and ResetColor; `none` if the color is not in the table.
set_color : ℕ → Option Text
unfolding digits
set_color color = bind (get_elem? unix_colors color) λ fg. some (
    (27 ∷ b'[' ∷ digits 3 fg)
    ++ ((if leb yellow color && ltb color max_colors then codes ";1" else []) ++ (b'm' ∷ [])))

abbrev reset_color : Text
reset_color = 27 ∷ b'[' ∷ b'0' ∷ b'm' ∷ []

-- The place of the color for a level.
color_index : ℕ → ℕ
color_index level =
    if level == 1
    then 5
    else if level == 2
    then 4
    else if level == 3
    then 3
    else if level == 4
    then 2
    else if level == 6
    then 0
    else 1

-- Errors go to the other stream.
to_stdout : ℕ → Bool
to_stdout level = not (level == 5 || level == 6)

-- AppenderConsole::_write: whether it is standard output, and the bytes.
unfoldable pub write_console : LogMessage → AppenderConsole → Option (Bool × Text)
unfolding set_color color_index to_stdout
write_console m a =
    if a.colored
    then (bind (get_elem? a.colors (color_index m.level)) λ color.
        bind (set_color color)
          λ start. some (to_stdout m.level, start ++ ((m.prefix ++ m.text) ++ reset_color)))
    else some (to_stdout m.level, m.prefix ++ m.text)
