-- ===== src/Text/Utf8.antt =====
-- Texts between UTF-8 and UTF-16 (server/shared/Utilities/Util.cpp). The library that converts them
-- is a parameter.
pub mod Overflow
mod Tests
use landlord.Prelude.{
  ℕ, zero, suc, ◌+◌, ◌-◌, ◌*◌, Bool, true, false, not, Option, none, some, List, [], ◌∷◌, ◌++◌, ltb,
  leb, ◌==◌, if◌then◌else◌, length, set, take, drop, replicate,
}
use landlord.Text.Letters.{wstr_to_lower}
use landlord.Text.Lines.{contains}

-- utf8::distance, the number of code points; utf8to16 and utf16to8, the units and the bytes that they
-- write. Each may throw.
pub record Utf8 : Type 0 where
  pub distance : List ℕ → Option ℕ
  pub utf8to16 : List ℕ → Option (List ℕ)
  pub utf16to8 : List ℕ → Option (List ℕ)

-- A function returns, or it writes behind the end of a buffer.
pub data Outcome (A : Type 0) : Type 0 where
  done : A → Outcome A
  overflow : Outcome A

abbrev pub and_then : {A B : Type 0} → Outcome A → (A → Outcome B) → Outcome B
and_then (done a) f = f a
and_then overflow f = overflow

-- `resize` of a string.
abbrev pub resized : ℕ → List ℕ → List ℕ
resized n xs = take n xs ++ replicate (n - length xs) 0

-- What a library function writes from the front of a buffer on.
pub write_front : List ℕ → List ℕ → Outcome (List ℕ)
write_front xs buffer =
    if ltb (length buffer) (length xs) then overflow else done (xs ++ drop (length xs) buffer)

-- A write of 0 at a place of an array.
write_zero : ℕ → List ℕ → Outcome (List ℕ)
write_zero i array = if ltb i (length array) then done (set array i 0) else overflow

module _ (lib : Utf8) where
  -- utf8length, which empties a text that is not valid
  utf8length : List ℕ → ℕ × List ℕ
  utf8length utf8str = elim (lib.distance utf8str) [ some n ↦ (n, utf8str) | none ↦ (0, []) ]

  -- utf8truncate
  utf8truncate : List ℕ → ℕ → Outcome (List ℕ)
  unfolding write_front
  utf8truncate utf8str len = elim (lib.distance utf8str) [
    | none ↦ done []
    | some wlen ↦ if leb wlen len then done utf8str else elim (lib.utf8to16 utf8str) [
      | none ↦ done []
      | some units ↦ and_then (write_front units (replicate wlen 0)) (λ wstr.
          elim (lib.utf16to8 (resized len wstr)) [
            | none ↦ done []
            | some bytes ↦
                and_then (write_front bytes utf8str) (λ str. done (resized (length bytes) str))
          ])
    ]
  ]

  -- Utf8toWStr into an array, when the text does not fit and when it is not valid
  no_text : List ℕ → ℕ → Outcome (Bool × (List ℕ × ℕ))
  unfolding write_zero
  no_text wstr wsize =
      and_then (if ltb 0 wsize then write_zero 0 wstr else done wstr)
        (λ array. done (false, (array, 0)))

  -- Utf8toWStr into an array: the array and the size
  utf8_to_array : List ℕ → List ℕ → ℕ → Outcome (Bool × (List ℕ × ℕ))
  unfolding no_text write_front write_zero
  utf8_to_array utf8str wstr wsize = elim (lib.distance utf8str) [
    | none ↦ no_text wstr wsize
    | some len ↦ if ltb wsize len then no_text wstr wsize else elim (lib.utf8to16 utf8str) [
      | none ↦ no_text wstr len
      | some units ↦
          and_then (write_front units wstr)
            (λ array. and_then (write_zero len array) (λ ended. done (true, (ended, len))))
    ]
  ]

  -- Utf8toWStr into a string
  pub utf8_to_wstr : List ℕ → List ℕ → Outcome (Bool × List ℕ)
  unfolding write_front
  utf8_to_wstr utf8str wstr = elim (lib.distance utf8str) [
    | none ↦ done (false, [])
    | some zero ↦ done (true, wstr)
    | some (suc n) ↦ elim (lib.utf8to16 utf8str) [
      | none ↦ done (false, [])
      | some units ↦ and_then (write_front units (resized (suc n) wstr)) (λ str. done (true, str))
    ]
  ]

  -- WStrToUtf8, for both kinds of its argument
  wstr_to_utf8 : List ℕ → Outcome (Bool × List ℕ)
  unfolding write_front
  wstr_to_utf8 wstr = if length wstr == 0 then done (true, []) else elim (lib.utf16to8 wstr) [
    | none ↦ done (false, [])
    | some bytes ↦
        and_then (write_front bytes (replicate (length wstr * 4) 0))
          (λ str. done (true, resized (length bytes) str))
  ]

  -- Utf8FitTo
  utf8_fit_to : List ℕ → List ℕ → Outcome Bool
  unfolding utf8_to_wstr
  utf8_fit_to str search =
      and_then (utf8_to_wstr str [])
        (λ r. done (if not r.0 then false else contains search (wstr_to_lower r.1)))

-- utf8ToConsole and consoleToUtf8, on a host that is not Windows
utf8_to_console : List ℕ → Bool × List ℕ
utf8_to_console utf8str = (true, utf8str)

console_to_utf8 : List ℕ → Bool × List ℕ
console_to_utf8 con_str = (true, con_str)
