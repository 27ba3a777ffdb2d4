-- ===== src/Text/Letters/Cases.antt =====
-- How the two cases of letters fit together.
use landlord.Prelude.{
  ℕ, ◌+◌, ◌-◌, ◌%◌, ◌≤◌, ◌≡◌, refl, sym, ◌≢◌, ◌⊎◌, inl, inr, Bool, true, false, not, ◌&&◌, ◌||◌,
  List, [], ◌∷◌, arith, ◌==◌, Bool-cases,
}
use mathlib.Core.Path.{subst}
use landlord.Text.Letters.{within, wchar_to_upper, wchar_to_lower, wstr_to_upper, wstr_to_lower}

-- `u` is the capital of the small letter `l`.
abbrev IsPair : ℕ → ℕ → Type 0
IsPair u l =
    (wchar_to_upper u ≡ u)
    × (wchar_to_lower u ≡ l)
    × (wchar_to_upper l ≡ u)
    × (wchar_to_lower l ≡ l)

latin : (u : ℕ) → 65 ≤ u → u ≤ 90 → IsPair u (u + 32)
unfolding wchar_to_upper wchar_to_lower
latin u h k = (ground arith, ground arith, ground arith, ground arith)

accented : (u : ℕ) → 0xC0 ≤ u → u ≤ 0xDE → u ≢ 0xD7 → IsPair u (u + 32)
unfolding wchar_to_upper wchar_to_lower
accented u h k n = (ground arith, ground arith, ground arith, ground arith)

cyrillic : (u : ℕ) → 0x410 ≤ u → u ≤ 0x42F → IsPair u (u + 32)
unfolding wchar_to_upper wchar_to_lower
cyrillic u h k = (ground arith, ground arith, ground arith, ground arith)

extended : (u : ℕ) → 0x100 ≤ u → u ≤ 0x12E → u % 2 ≡ 0 → IsPair u (u + 1)
unfolding wchar_to_upper wchar_to_lower
extended u h k e = (ground arith, ground arith, ground arith, ground arith)

sharp_s : IsPair 0x1E9E 0xDF
unfolding wchar_to_upper wchar_to_lower
sharp_s = (refl, refl, refl, refl)

io : IsPair 0x401 0x451
unfolding wchar_to_upper wchar_to_lower
io = (refl, refl, refl, refl)

-- The capitals, and the small letters.
abbrev is_capital : ℕ → Bool
is_capital c =
    within 65 90 c
    || (within 0xC0 0xDE c && not (c == 0xD7))
    || (within 0x100 0x12E c && c % 2 == 0)
    || within 0x410 0x42F c
    || c == 0x401
    || c == 0x1E9E

abbrev is_small : ℕ → Bool
is_small c =
    within 97 122 c
    || (within 0xDF 0xFE c && not (c == 0xF7))
    || (within 0x101 0x12F c && c % 2 == 1)
    || within 0x430 0x44F c
    || c == 0x451

neither :
    (c : ℕ)
    → is_capital c ≡ false
    → is_small c ≡ false
    → (wchar_to_upper c ≡ c) × (wchar_to_lower c ≡ c)
unfolding wchar_to_upper wchar_to_lower
neither c h k = (ground arith, ground arith)

Fits : ℕ → Type 0
Fits c =
    (wchar_to_lower (wchar_to_upper c) ≡ wchar_to_lower c)
    × (wchar_to_upper (wchar_to_lower c) ≡ wchar_to_upper c)

capital-Fits : (u l : ℕ) → IsPair u l → Fits u
unfolding Fits
capital-Fits u l (a, b, c, d) = (rw (a, b) refl, rw (b, c, a) refl)

small-Fits : (u l : ℕ) → IsPair u l → Fits l
unfolding Fits
small-Fits u l (a, b, c, d) = (rw (c, b, d) refl, rw (d, c) refl)

capital-range :
    (c : ℕ)
    → is_capital c ≡ true
    → ((65 ≤ c) × (c ≤ 90))
      ⊎ ((0xC0 ≤ c) × (c ≤ 0xDE) × (c ≢ 0xD7))
      ⊎ ((0x100 ≤ c) × (c ≤ 0x12E) × (c % 2 ≡ 0))
      ⊎ ((0x410 ≤ c) × (c ≤ 0x42F))
      ⊎ (c ≡ 0x401)
      ⊎ (c ≡ 0x1E9E)
capital-range c h = ground arith

small-range :
    (c : ℕ)
    → is_small c ≡ true
    → ((97 ≤ c) × (c ≤ 122))
      ⊎ ((0xE0 ≤ c) × (c ≤ 0xFE) × (c ≢ 0xF7))
      ⊎ ((0x101 ≤ c) × (c ≤ 0x12F) × (c % 2 ≡ 1))
      ⊎ ((0x430 ≤ c) × (c ≤ 0x44F))
      ⊎ (c ≡ 0x451)
      ⊎ (c ≡ 0xDF)
small-range c h = ground arith

-- A small letter that lies `d` behind its capital.
small_of : (c d : ℕ) → d ≤ c → IsPair (c - d) (c - d + d) → Fits c
small_of c d h p =
    let same : c - d + d ≡ c = omega arith in subst Fits same (small-Fits (c - d) (c - d + d) p)

letter-Fits : (c : ℕ) → Fits c
unfolding Fits
letter-Fits c = elim (Bool-cases (is_capital c)) [
  | inl h ↦ elim (capital-range c h) [
    | inl (a, b) ↦ capital-Fits c (c + 32) (latin c a b)
    | inr (inl (a, b, n)) ↦ capital-Fits c (c + 32) (accented c a b n)
    | inr (inr (inl (a, b, e))) ↦ capital-Fits c (c + 1) (extended c a b e)
    | inr (inr (inr (inl (a, b)))) ↦ capital-Fits c (c + 32) (cyrillic c a b)
    | inr (inr (inr (inr (inl e)))) ↦ subst Fits (sym e) (capital-Fits 0x401 0x451 io)
    | inr (inr (inr (inr (inr e)))) ↦ subst Fits (sym e) (capital-Fits 0x1E9E 0xDF sharp_s)
  ]
  | inr h ↦ elim (Bool-cases (is_small c)) [
    | inl k ↦ elim (small-range c k) [
      | inl (a, b) ↦ small_of c 32 (omega arith) (latin (c - 32) (omega arith) (omega arith))
      | inr (inl (a, b, n)) ↦
          small_of c 32 (omega arith)
            (accented (c - 32) (omega arith) (omega arith) (λ e. n (omega arith)))
      | inr (inr (inl (a, b, e))) ↦
          small_of c 1 (omega arith) (extended (c - 1) (omega arith) (omega arith) (omega arith))
      | inr (inr (inr (inl (a, b)))) ↦
          small_of c 32 (omega arith) (cyrillic (c - 32) (omega arith) (omega arith))
      | inr (inr (inr (inr (inl e)))) ↦ subst Fits (sym e) (small-Fits 0x401 0x451 io)
      | inr (inr (inr (inr (inr e)))) ↦ subst Fits (sym e) (small-Fits 0x1E9E 0xDF sharp_s)
    ]
    | inr k ↦ let (u, l) = neither c h k in (rw (u, l) refl, rw (l, u) refl)
  ]
]

-- The two cases of a text determine each other: what wstrToLower makes of a text it makes of its
-- capitals too, and what wstrToUpper makes of a text it makes of its small letters too.
wstr-cases :
    (str : List ℕ)
    → (wstr_to_lower (wstr_to_upper str) ≡ wstr_to_lower str)
      × (wstr_to_upper (wstr_to_lower str) ≡ wstr_to_upper str)
unfolding wstr_to_lower wstr_to_upper Fits
wstr-cases [] = (refl, refl)
wstr-cases (c ∷ str) =
    let (a, b) = letter-Fits c in let (s, t) = wstr-cases str in (cc (a, s), cc (b, t))
