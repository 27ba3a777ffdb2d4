-- ===== src/Text/Times.antt =====
-- secsToTimeString and TimeStringToSecs (server/shared/Utilities/Util.cpp).
pub mod RoundTrip
use Prim.Native.Char.{code}
use Prim.Native.String.{String}
use landlord.Prelude.{
  ℕ, zero, suc, ◌+◌, ◌-◌, ◌*◌, ◌/◌, ◌%◌, ◌^◌, ◌≤◌, ◌<◌, min, ◌≡◌, refl, sym, ap, ◌∙◌, ◌≢◌, ◌↔◌, ◌⊎◌,
  inl, inr, Bool, true, false, not, ◌&&◌, ◌||◌, Option, none, some, List, [], ◌∷◌, ◌++◌, map, arith,
  ltb, leb, ◌==◌, if◌then◌else◌, ==_iff, Bool-cases, Option-cases, bind, length, get_elem?, set,
  take, drop, replicate, length-append, length-set, take-append-drop, length-take, length-drop,
  length-replicate, get_elem?_total, get_elem?-set_self, get_elem?-set_ne, one_if_eq, count,
  count-append, count-set, u32_mod, add32, sub32, minus_one, is_negative, is_positive, signed_key,
  max32,
}

-- The codes of a text.
abbrev pub codes : String → List ℕ
codes String.[] = []
codes (String.◌∷◌ c s) = code c ∷ codes s

-- Two texts are the same.
unfoldable pub same_text : List ℕ → List ℕ → Bool
same_text [] [] = true
same_text [] (d ∷ b) = false
same_text (c ∷ a) [] = false
same_text (c ∷ a) (d ∷ b) = c == d && same_text a b

-- TimeConstants
abbrev pub minute : ℕ
minute = 60

abbrev pub hour : ℕ
hour = 60 * 60

abbrev pub day : ℕ
day = 24 * 60 * 60

-- The decimal digits that a stream writes for a number, at most `f` of them.
unfoldable pub digits : ℕ → ℕ → List ℕ
digits zero n = []
digits (suc f) n = if ltb n 10 then (48 + n) ∷ [] else digits f (n / 10) ++ ((48 + n % 10) ∷ [])

-- A uint64 has at most twenty digits.
abbrev pub decimal : ℕ → List ℕ
unfolding digits
decimal n = digits 20 n

-- One number with its unit.
abbrev pub time_part : Bool → ℕ → List ℕ → List ℕ
unfolding digits
time_part b n unit = if b then decimal n ++ unit else []

-- `shortText ? short : long`
abbrev unit_text : Bool → String → String → List ℕ
unit_text short_text short long = if short_text then codes short else codes long

-- secsToTimeString
unfoldable pub secs_to_time_string : ℕ → Bool → Bool → List ℕ
unfolding digits
secs_to_time_string time_in_secs short_text hours_only =
    let secs = time_in_secs % minute in
    let minutes = time_in_secs % hour / minute in
    let hours = time_in_secs % day / hour in
    let days = time_in_secs / day in
    time_part (not (days == 0)) days (unit_text short_text "d" " Day(s) ")
    ++ (time_part (not (hours == 0) || hours_only) hours (unit_text short_text "h" " Hour(s) ")
        ++ (if hours_only
            then []
            else time_part (not (minutes == 0)) minutes (unit_text short_text "m" " Minute(s) ")
              ++ time_part (not (secs == 0) || (days == 0 && (hours == 0 && minutes == 0))) secs
                  (unit_text short_text "s" " Second(s).")))

abbrev pub is_digit : ℕ → Bool
is_digit c = leb b'0' c && leb c b'9'

-- The multiplier of a letter.
abbrev pub multiplier : ℕ → Option ℕ
multiplier c =
    if c == b'd'
    then some day
    else if c == b'h'
    then some hour
    else if c == b'm'
    then some minute
    else if c == b's'
    then some 1
    else none

-- The loop of TimeStringToSecs, with its `secs` and `buffer`, which are uint32.
unfoldable pub read_time : ℕ → ℕ → List ℕ → ℕ
read_time secs buffer [] = secs
read_time secs buffer (c ∷ rest) = elim (is_digit c) [
  | true ↦ read_time secs (((buffer * 10) % u32_mod + (c - b'0')) % u32_mod) rest
  | false ↦ elim (multiplier c) [
    | none ↦ 0
    | some m ↦ read_time (add32 secs ((buffer * m) % u32_mod)) 0 rest
  ]
]

-- TimeStringToSecs
unfoldable pub time_string_to_secs : List ℕ → ℕ
unfolding read_time
time_string_to_secs timestring = read_time 0 0 timestring
