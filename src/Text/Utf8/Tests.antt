-- ===== src/Text/Utf8/Tests.antt =====
-- A text of UTF-8 with a character that UTF-16 writes as two units.
use landlord.Prelude.{
  ℕ, zero, suc, ◌+◌, ◌-◌, ◌*◌, ◌≡◌, refl, true, ◌&&◌, Option, none, some, List, [], ◌∷◌, ltb, leb,
  if◌then◌else◌, bind, length,
}
use landlord.Text.Utf8.{Utf8, done, overflow, utf8_to_wstr}
use landlord.Text.Utf8.Overflow.{has_high, utf16, Converts, expected, utf8_to_wstr_lem}

-- A reader of characters of one byte and of four: `n` bytes of a character with the bits `v` so far
-- are to come.
abbrev read_points : ℕ → ℕ → List ℕ → Option (List ℕ)
read_points zero v [] = some []
read_points (suc n) v [] = none
read_points zero v (a ∷ text) =
    if ltb a 128
    then bind (read_points zero 0 text) (λ points. some (a ∷ points))
    else if leb 240 a && ltb a 248
    then read_points 3 (a - 240) text
    else none
read_points (suc zero) v (a ∷ text) =
    bind (read_points zero 0 text) (λ points. some ((v * 64 + (a - 128)) ∷ points))
read_points (suc (suc n)) v (a ∷ text) = read_points (suc n) (v * 64 + (a - 128)) text

abbrev read_text : List ℕ → Option (List ℕ)
read_text text = read_points 0 0 text

-- It writes no bytes, which Utf8toWStr does not ask for.
abbrev one_or_four : Utf8
one_or_four = record {
  distance = λ text. bind (read_text text) (λ points. some (length points));
  utf8to16 = λ text. bind (read_text text) (λ points. some (utf16 points));
  utf16to8 = λ units. none;
}

one_or_four-Converts : Converts one_or_four read_text
one_or_four-Converts = record {
  counts = λ text points e. rw e refl;
  writes = λ text points e. rw e refl;
  throws = λ text e. rw e refl;
}

-- The letter h and a smiling face.
abbrev greeting : List ℕ
greeting = 0x68 ∷ 0xF0 ∷ 0x9F ∷ 0x98 ∷ 0x80 ∷ []

utf8_to_wstr_lem_example : utf8_to_wstr one_or_four greeting [] ≡ overflow
unfolding expected has_high
utf8_to_wstr_lem_example = utf8_to_wstr_lem one_or_four read_text greeting [] one_or_four-Converts

-- The empty text leaves what the string held.
empty_text : utf8_to_wstr one_or_four [] (1 ∷ []) ≡ done (true, 1 ∷ [])
unfolding utf8_to_wstr
empty_text = refl
