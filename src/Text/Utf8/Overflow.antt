-- ===== src/Text/Utf8/Overflow.antt =====
-- The buffer of Utf8toWStr (server/shared/Utilities/Util.cpp) has room for one unit a character.
use landlord.Prelude.{
  ℕ, zero, suc, ◌+◌, ◌-◌, ◌/◌, ◌%◌, ◌≤◌, ◌<◌, ◌≡◌, refl, ap, Bool, true, false, ◌||◌, Option, none,
  some, List, [], ◌∷◌, ◌++◌, arith, ltb, leb, if◌then◌else◌, Bool-cases, inl, inr, length, drop,
  take, replicate, length-append, length-take, length-replicate,
}
use mathlib.Core.List.{append-nil}
use landlord.Text.Utf8.{Utf8, Outcome, done, overflow, resized, write_front, utf8_to_wstr}

-- Characters that UTF-16 writes as two units.
abbrev pub is_high : ℕ → Bool
is_high p = leb 65536 p

unfoldable pub has_high : List ℕ → Bool
has_high [] = false
has_high (p ∷ points) = is_high p || has_high points

-- UTF-16, with a pair of surrogates for a high character.
abbrev pub unit_list : ℕ → List ℕ
unit_list p =
    if is_high p
    then (0xD800 + (p - 65536) / 1024) ∷ (0xDC00 + (p - 65536) % 1024) ∷ []
    else (p ∷ [])

pub utf16 : List ℕ → List ℕ
utf16 [] = []
utf16 (p ∷ points) = unit_list p ++ utf16 points

-- What the library promises of valid texts, whose characters `decode` gives, and of others, on which
-- it throws.
pub record Converts (lib : Utf8) (decode : List ℕ → Option (List ℕ)) : Type 0 where
  pub counts :
      (text points : List ℕ) → decode text ≡ some points → lib.distance text ≡ some (length points)
  pub writes :
      (text points : List ℕ) → decode text ≡ some points → lib.utf8to16 text ≡ some (utf16 points)
  pub throws : (text : List ℕ) → decode text ≡ none → lib.distance text ≡ none

-- What becomes of the string `wstr` and a text with these characters.
unfoldable pub expected : List ℕ → Option (List ℕ) → Outcome (Bool × List ℕ)
expected wstr none = done (false, [])
expected wstr (some []) = done (true, wstr)
expected wstr (some (p ∷ points)) =
    if has_high (p ∷ points) then overflow else done (true, p ∷ points)

-- A high character takes one unit more than there is room for.
length-utf16 : (points : List ℕ) → length points ≤ length (utf16 points)
unfolding utf16
length-utf16 [] = omega arith
length-utf16 (p ∷ points) = elim (Bool-cases (is_high p)) [
  | inl h ↦ rw h (omega (arith, length-utf16 points))
  | inr l ↦ rw l (omega (arith, length-utf16 points))
]

length-utf16_high :
    (points : List ℕ) → has_high points ≡ true → length points < length (utf16 points)
unfolding utf16 has_high
length-utf16_high [] h = absurd (ground arith)
length-utf16_high (p ∷ points) h = elim (Bool-cases (is_high p)) [
  | inl t ↦ rw t (omega (arith, length-utf16 points))
  | inr f ↦ rw f (omega (arith, length-utf16_high points (rw f at h)))
]

utf16_low : (points : List ℕ) → has_high points ≡ false → utf16 points ≡ points
unfolding utf16 has_high
utf16_low [] h = refl
utf16_low (p ∷ points) h = elim (Bool-cases (is_high p)) [
  | inl t ↦ absurd (ground arith)
  | inr f ↦ rw f (ap (λ (rest : List ℕ). p ∷ rest) (utf16_low points (rw f at h)))
]

length-resized : (n : ℕ) (xs : List ℕ) → length (resized n xs) ≡ n
length-resized n xs = omega (
  arith,
  length-append (take n xs) (replicate (n - length xs) 0),
  length-take n xs,
  length-replicate {A = ℕ} (n - length xs) 0,
)

drop_whole : (n : ℕ) (xs : List ℕ) → length xs ≡ n → drop n xs ≡ []
drop_whole zero [] e = refl
drop_whole zero (x ∷ xs) e = absurd (omega arith)
drop_whole (suc n) [] e = absurd (omega arith)
drop_whole (suc n) (x ∷ xs) e = drop_whole n xs (omega arith)

-- A buffer that is written from end to end, and one that is too short.
write_front-exact :
    (xs buffer : List ℕ) → length buffer ≡ length xs → write_front xs buffer ≡ done xs
unfolding write_front
write_front-exact xs buffer e =
    let room : ltb (length buffer) (length xs) ≡ false = ground arith in
    rw (room, drop_whole (length xs) buffer e, append-nil xs)

write_front-short :
    (xs buffer : List ℕ) → length buffer < length xs → write_front xs buffer ≡ overflow
unfolding write_front
write_front-short xs buffer lt =
    let full : ltb (length buffer) (length xs) ≡ true = ground arith in rw full

written :
    (lib : Utf8) (decode : List ℕ → Option (List ℕ)) (text wstr points : List ℕ) (p : ℕ)
    → Converts lib decode
    → decode text ≡ some (p ∷ points)
    → utf8_to_wstr lib text wstr
      ≡ (if has_high (p ∷ points) then overflow else done (true, p ∷ points))
unfolding utf8_to_wstr
written lib decode text wstr points p v e =
    let all : List ℕ = p ∷ points in
    let room : length (resized (length all) wstr) ≡ length all = length-resized (length all) wstr in
    elim (Bool-cases (has_high all)) [
      | inl h ↦
          let short : write_front (utf16 all) (resized (length all) wstr) ≡ overflow =
            write_front-short (utf16 all) (resized (length all) wstr)
              (omega (arith, room, length-utf16_high all h)) in
          rw (utf8_to_wstr, v.counts text all e, v.writes text all e, h, short)
      | inr l ↦
          let exact : write_front all (resized (length all) wstr) ≡ done all =
            write_front-exact all (resized (length all) wstr) room in
          rw (utf8_to_wstr, v.counts text all e, v.writes text all e, utf16_low all l, l, exact)
    ]

-- The library as it is documented: Utf8toWStr empties the string for a text that is not valid, leaves
-- the string as it is for the empty text, writes behind the end of the string if a character needs two
-- units, and else gives the characters.
pub utf8_to_wstr_lem :
    (lib : Utf8) (decode : List ℕ → Option (List ℕ)) (text wstr : List ℕ)
    → Converts lib decode
    → utf8_to_wstr lib text wstr ≡ expected wstr (decode text)
unfolding utf8_to_wstr expected
utf8_to_wstr_lem lib decode text wstr v = go (decode text) refl
  where
    go : (d : Option (List ℕ)) → decode text ≡ d → utf8_to_wstr lib text wstr ≡ expected wstr d
    go none e = rw (utf8_to_wstr, v.throws text e)
    go (some []) e = rw (utf8_to_wstr, v.counts text [] e)
    go (some (p ∷ points)) e = written lib decode text wstr points p v e
