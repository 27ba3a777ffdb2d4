-- ===== src/Configuration.antt =====
-- class ConfigMgr (server/shared/Configuration/Config.cpp), over the trees that Boost reads.
pub mod Tests
use landlord.Prelude.{
  ℕ, ◌+◌, Bool, true, false, ◌&&◌, ◌||◌, not, Option, none, some, List, [], ◌∷◌, ◌++◌, ◌==◌,
  if◌then◌else◌, length,
}
use landlord.Text.Times.{codes, same_text, digits}

abbrev pub Text : Type 0
Text = List ℕ

-- What ConfigMgr asks of the section of a file: the text of a name, its number if it is one (the
-- pattern of an int32), and the names in their order.
pub record Section : Type 0 where
  pub text_of : Text → Option Text
  pub int_of : Text → Option ℕ
  pub keys : List Text

-- What `ini_parser::read_ini` makes of a file: an error with its message, the name of the file and
-- the line, or the sections.
pub data Ini : Type 0 where
  ini_parser_error : Text → Text → ℕ → Ini
  sections : List Section → Ini

pub record ConfigMgr : Type 0 where
  pub file_name : Text
  pub config : Section

-- The message of a parser error.
error_text : Text → Text → ℕ → Text
unfolding digits
error_text message file line =
    if line == 0
    then message ++ (codes " (" ++ (file ++ codes ")"))
    else message ++ (codes " (" ++ (file ++ (codes ":" ++ (digits 20 line ++ codes ")"))))

-- ConfigMgr::LoadInitial: success, the error and the new state.
unfoldable pub load_initial : (Text → Ini) → Text → ConfigMgr → Bool × Text × ConfigMgr
unfolding error_text
load_initial read_ini file c =
    let named = record c { file_name = file } in
    elim (read_ini file) [
      | ini_parser_error message name line ↦ (false, error_text message name line, named)
      | sections found ↦ elim found [
        | [] ↦ (false, codes "empty file (" ++ (file ++ codes ")"), named)
        | s ∷ _ ↦ (true, [], record named { config = s })
      ]
    ]

-- ConfigMgr::Reload
unfoldable pub reload : (Text → Ini) → ConfigMgr → Bool × Text × ConfigMgr
unfolding load_initial
reload read_ini c = load_initial read_ini c.file_name c

-- `std::remove` of quotes, and `erase`.
unfoldable pub without_quotes : Text → Text
without_quotes [] = []
without_quotes (c ∷ text) = let rest = without_quotes text in if c == 34 then rest else c ∷ rest

-- ConfigMgr::GetStringDefault
unfoldable pub get_string_default : Text → Text → ConfigMgr → Text
unfolding without_quotes
get_string_default name def c =
    without_quotes (elim (c.config.text_of name) [ none ↦ def | some text ↦ text ])

-- What counts as true.
is_true : Text → Bool
is_true val =
    same_text val (codes "true")
    || same_text val (codes "TRUE")
    || same_text val (codes "yes")
    || same_text val (codes "YES")
    || same_text val (codes "1")

-- ConfigMgr::GetBoolDefault
unfoldable pub get_bool_default : Text → Bool → ConfigMgr → Bool
unfolding without_quotes is_true same_text
get_bool_default name def c = elim (c.config.text_of name) [
  | none ↦ def
  | some text ↦ is_true (without_quotes text)
]

-- ConfigMgr::GetIntDefault
unfoldable pub get_int_default : Text → ℕ → ConfigMgr → ℕ
get_int_default name def c = elim (c.config.int_of name) [ none ↦ def | some n ↦ n ]

-- `child.first.compare(0, name.length(), name) == 0`
unfoldable pub begins_with : Text → Text → Bool
begins_with [] key = true
begins_with (c ∷ name) [] = false
begins_with (c ∷ name) (d ∷ key) = d == c && begins_with name key

-- ConfigMgr::GetKeysByString
keys_from : Text → List Text → List Text
unfolding begins_with
keys_from name [] = []
keys_from name (key ∷ keys) =
    let rest = keys_from name keys in if begins_with name key then key ∷ rest else rest

unfoldable pub get_keys_by_string : Text → ConfigMgr → List Text
unfolding keys_from
get_keys_by_string name c = keys_from name c.config.keys
