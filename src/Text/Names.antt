-- ===== src/Text/Names.antt =====
-- Names, money and bytes as texts (server/shared/Utilities/Util.cpp).
use landlord.Prelude.{
  ℕ, ◌+◌, ◌-◌, ◌*◌, ◌/◌, ◌%◌, Bool, not, ◌||◌, Option, none, some, List, [], ◌∷◌, ◌++◌, ltb, ◌==◌,
  if◌then◌else◌, length, get_elem?, take, drop, count, u32_mod, add32,
}
use landlord.Text.Times.{same_text}
use landlord.Text.Letters.{is_cyrillic_character}
use landlord.Text.Tokens.{tokenizer}

-- `dropEnds`
abbrev all_drop_ends : List (List (List ℕ))
all_drop_ends =
    ((0x430 ∷ []) ∷ (0x43E ∷ []) ∷ (0x44F ∷ []) ∷ (0x435 ∷ []) ∷ (0x44C ∷ []) ∷ (0x439 ∷ []) ∷ [])
    ∷ ((0x430 ∷ []) ∷ (0x44F ∷ []) ∷ (0x44B ∷ []) ∷ (0x438 ∷ []) ∷ [])
    ∷ ((0x435 ∷ []) ∷ (0x443 ∷ []) ∷ (0x44E ∷ []) ∷ (0x438 ∷ []) ∷ [])
    ∷ ((0x443 ∷ [])
        ∷ (0x44E ∷ [])
        ∷ (0x43E ∷ [])
        ∷ (0x435 ∷ [])
        ∷ (0x44C ∷ [])
        ∷ (0x44F ∷ [])
        ∷ (0x430 ∷ [])
        ∷ [])
    ∷ ((0x43E ∷ 0x439 ∷ [])
        ∷ (0x451 ∷ 0x439 ∷ [])
        ∷ (0x435 ∷ 0x439 ∷ [])
        ∷ (0x43E ∷ 0x43C ∷ [])
        ∷ (0x451 ∷ 0x43C ∷ [])
        ∷ (0x435 ∷ 0x43C ∷ [])
        ∷ (0x44E ∷ [])
        ∷ [])
    ∷ ((0x435 ∷ []) ∷ (0x438 ∷ []) ∷ [])
    ∷ []

abbrev drop_ends : ℕ → List (List ℕ)
drop_ends declension = elim (get_elem? all_drop_ends declension) [ none ↦ [] | some ends ↦ ends ]

-- The loop over the ends. `substr` of a place behind the end of the text throws: `none`.
unfoldable pub strip_end : List (List ℕ) → List ℕ → Option (List ℕ)
unfolding same_text
strip_end [] wname = some wname
strip_end (e ∷ ends) wname =
    let others = strip_end ends wname in
    let front = length wname - length e in
    if ltb (length wname) (length e)
    then none
    else if same_text (drop front wname) e
    then some (take front wname)
    else others

-- GetMainPartOfName
unfoldable pub get_main_part_of_name : List ℕ → ℕ → Option (List ℕ)
unfolding strip_end is_cyrillic_character
get_main_part_of_name wname declension = elim wname [
  | [] ↦ some []
  | c ∷ rest ↦
      if not (is_cyrillic_character c) || ltb 5 declension
      then some (c ∷ rest)
      else strip_end (drop_ends declension) (c ∷ rest)
]

-- One token of MoneyStringToMoney, of what `atoi` reads from it as a uint32.
unfoldable pub token_money : ℕ → List ℕ → Option ℕ
token_money amount token =
    let gold = count b'g' token in
    let silver = count b's' token in
    let copper = count b'c' token in
    if not (gold + silver + copper == 1)
    then none
    else if gold == 1
    then some ((amount * 100 * 100) % u32_mod)
    else if silver == 1
    then some ((amount * 100) % u32_mod)
    else some (amount % u32_mod)

unfoldable pub sum_money : (List ℕ → ℕ) → ℕ → List (List ℕ) → ℕ
unfolding token_money
sum_money atoi money [] = money
sum_money atoi money (token ∷ tokens) = elim (token_money (atoi token) token) [
  | none ↦ 0
  | some m ↦ sum_money atoi (add32 money m) tokens
]

-- MoneyStringToMoney; the separator is not 0, so the tokenizer returns.
unfoldable pub money_string_to_money : (List ℕ → ℕ) → List ℕ → ℕ
unfolding sum_money
money_string_to_money atoi money_string =
    if not
      (count b'g' money_string == 1 || count b's' money_string == 1 || count b'c' money_string == 1)
    then 0
    else (elim (tokenizer money_string b' ') [ none ↦ 0 | some ts ↦ sum_money atoi 0 ts ])

abbrev pub hex_digit : ℕ → ℕ
hex_digit n = if ltb n 10 then b'0' + n else b'A' + (n - 10)

-- `%02X` of each byte.
unfoldable pub hex_bytes : List ℕ → List ℕ
hex_bytes [] = []
hex_bytes (b ∷ bytes) = hex_digit (b / 16) ∷ hex_digit (b % 16) ∷ hex_bytes bytes

abbrev reversed : List ℕ → List ℕ
reversed [] = []
reversed (b ∷ bytes) = reversed bytes ++ (b ∷ [])

-- ByteArrayToHexStr
unfoldable pub byte_array_to_hex_str : List ℕ → Bool → List ℕ
unfolding hex_bytes
byte_array_to_hex_str bytes reverse = hex_bytes (if reverse then reversed bytes else bytes)
