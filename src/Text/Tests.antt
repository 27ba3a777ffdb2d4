-- ===== src/Text/Tests.antt =====
-- Times, tokens and letters of some texts.
use landlord.Prelude.{◌≡◌, refl, true, false, none, some, [], ◌∷◌, arith}
use landlord.Text.Times.{
  codes, digits, same_text, secs_to_time_string, read_time, time_string_to_secs,
}
use landlord.Text.Times.RoundTrip.{time_string_to_secs-secs_to_time_string}
use landlord.Text.Names.{
  strip_end, get_main_part_of_name, token_money, sum_money, money_string_to_money, hex_bytes,
  byte_array_to_hex_str,
}
use landlord.Text.Letters.{is_cyrillic_character}
use landlord.Text.Tokens.{split, tokenizer}
use landlord.Text.Tokens.Splitting.{tokenizer-joined}

long_time :
    secs_to_time_string 93784 false false ≡ codes "1 Day(s) 2 Hour(s) 3 Minute(s) 4 Second(s)."
unfolding secs_to_time_string digits
long_time = refl

short_time : secs_to_time_string 93784 true false ≡ codes "1d2h3m4s"
unfolding secs_to_time_string digits
short_time = refl

-- A text in the long form is refused.
long_time_refused : time_string_to_secs (codes "1 Day(s) ") ≡ 0
unfolding time_string_to_secs read_time
long_time_refused = refl

time_string_to_secs-secs_to_time_string_example :
    time_string_to_secs (secs_to_time_string 93784 true false) ≡ 93784
time_string_to_secs-secs_to_time_string_example =
    time_string_to_secs-secs_to_time_string 93784 false (omega arith)

tokens_of_text : tokenizer (codes "ab,,c") b',' ≡ some (codes "ab" ∷ [] ∷ codes "c" ∷ [])
unfolding tokenizer split
tokens_of_text = refl

tokenizer-joined_example : tokenizer (codes "ab,,c") b',' ≡ some (codes "ab" ∷ [] ∷ codes "c" ∷ [])
tokenizer-joined_example =
    tokenizer-joined b',' (codes "ab" ∷ [] ∷ []) (codes "c") (ground arith) (ground arith)
      (ground arith)

-- The end of a Cyrillic name is stripped.
main_part : get_main_part_of_name (0x410 ∷ 0x43D ∷ 0x430 ∷ []) 0 ≡ some (0x410 ∷ 0x43D ∷ [])
unfolding get_main_part_of_name strip_end same_text is_cyrillic_character
main_part = refl

-- A name of one letter makes substr throw when an end of two letters is tried.
short_name : get_main_part_of_name (0x410 ∷ []) 4 ≡ none
unfolding get_main_part_of_name strip_end is_cyrillic_character
short_name = refl

bytes_reversed : byte_array_to_hex_str (0x1F ∷ 0xA0 ∷ []) true ≡ codes "A01F"
unfolding byte_array_to_hex_str hex_bytes
bytes_reversed = refl

-- Of two tokens, for which `atoi` reads 2 and 2.
money_of_text : money_string_to_money (λ token. 2) (codes "2g 2s") ≡ 20200
unfolding money_string_to_money sum_money token_money tokenizer split
money_of_text = refl
