-- ===== src/Text/Letters.antt =====
-- The letters of Util.h (server/shared/Utilities). A character is its code.
pub mod Cases
use landlord.Prelude.{
  ℕ, zero, suc, ◌+◌, ◌-◌, ◌*◌, ◌/◌, ◌%◌, ◌^◌, ◌≤◌, ◌<◌, min, ◌≡◌, refl, sym, ap, ◌∙◌, ◌≢◌, ◌↔◌, ◌⊎◌,
  inl, inr, Bool, true, false, not, ◌&&◌, ◌||◌, Option, none, some, List, [], ◌∷◌, ◌++◌, map, arith,
  ltb, leb, ◌==◌, if◌then◌else◌, ==_iff, Bool-cases, Option-cases, bind, length, get_elem?, set,
  take, drop, replicate, length-append, length-set, take-append-drop, length-take, length-drop,
  length-replicate, get_elem?_total, get_elem?-set_self, get_elem?-set_ne, one_if_eq, count,
  count-append, count-set, u32_mod, add32, sub32, minus_one, is_negative, is_positive, signed_key,
  max32,
}

abbrev pub within : ℕ → ℕ → ℕ → Bool
within low high c = leb low c && leb c high

-- isBasicLatinCharacter
is_basic_latin_character : ℕ → Bool
is_basic_latin_character c = within b'a' b'z' c || within b'A' b'Z' c

-- isExtendedLatinCharacter
is_extended_latin_character : ℕ → Bool
unfolding is_basic_latin_character
is_extended_latin_character c =
    is_basic_latin_character c
    || within 0xC0 0xD6 c
    || within 0xD8 0xDE c
    || c == 0xDF
    || within 0xE0 0xF6 c
    || within 0xF8 0xFE c
    || within 0x100 0x12F c
    || c == 0x1E9E

-- isCyrillicCharacter
unfoldable pub is_cyrillic_character : ℕ → Bool
is_cyrillic_character c = within 0x410 0x44F c || c == 0x401 || c == 0x451

-- isEastAsianCharacter
is_east_asian_character : ℕ → Bool
is_east_asian_character c =
    within 0x1100 0x11F9 c
    || within 0x3041 0x30FF c
    || within 0x3131 0x318E c
    || within 0x31F0 0x31FF c
    || within 0x3400 0x4DB5 c
    || within 0x4E00 0x9FC3 c
    || within 0xAC00 0xD7A3 c
    || within 0xFF01 0xFFEE c

-- isNumeric and isNumericOrSpace
abbrev is_numeric : ℕ → Bool
is_numeric c = within b'0' b'9' c

is_numeric_or_space : ℕ → Bool
is_numeric_or_space c = is_numeric c || c == b' '

-- The loop of isBasicLatinString and the three like it, for one kind of character.
is_string_of : (ℕ → Bool) → Bool → List ℕ → Bool
unfolding is_numeric_or_space
is_string_of kind numeric_or_space [] = true
is_string_of kind numeric_or_space (c ∷ rest) =
    (kind c || (numeric_or_space && is_numeric_or_space c))
    && is_string_of kind numeric_or_space rest

-- wcharToUpper
pub wchar_to_upper : ℕ → ℕ
wchar_to_upper c =
    if within b'a' b'z' c
    then c - 0x20
    else if c == 0xDF
    then 0x1E9E
    else if within 0xE0 0xF6 c
    then c - 0x20
    else if within 0xF8 0xFE c
    then c - 0x20
    else if within 0x101 0x12F c && c % 2 == 1
    then c - 1
    else if within 0x430 0x44F c
    then c - 0x20
    else if c == 0x451
    then 0x401
    else c

-- wcharToLower
pub wchar_to_lower : ℕ → ℕ
wchar_to_lower c =
    if within b'A' b'Z' c
    then c + 0x20
    else if within 0xC0 0xD6 c
    then c + 0x20
    else if within 0xD8 0xDE c
    then c + 0x20
    else if within 0x100 0x12E c && c % 2 == 0
    then c + 1
    else if c == 0x1E9E
    then 0xDF
    else if c == 0x401
    then 0x451
    else if within 0x410 0x42F c
    then c + 0x20
    else c

-- wcharToUpperOnlyLatin
wchar_to_upper_only_latin : ℕ → ℕ
unfolding is_basic_latin_character wchar_to_upper
wchar_to_upper_only_latin c = if is_basic_latin_character c then wchar_to_upper c else c

-- wstrToUpper and wstrToLower
pub wstr_to_upper : List ℕ → List ℕ
unfolding wchar_to_upper
wstr_to_upper str = map wchar_to_upper str

pub wstr_to_lower : List ℕ → List ℕ
unfolding wchar_to_lower
wstr_to_lower str = map wchar_to_lower str
