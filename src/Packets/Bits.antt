-- ===== src/Packets/Bits.antt =====
-- The bit operations of packed GUIDs (server/shared/Packets/ByteBuffer.h) as arithmetic.
use Prim.Native.Nat.{max, digits, bitwise, bit_and, bit_or, bit_and-bitwise, bit_or-bitwise}
use native.Mathlib.Nat.{pow-suc, mul_comm, mul_assoc}
use native.Mathlib.Decide.{dec_lt}
use landlord.Prelude.{
  ℕ, zero, suc, ◌+◌, ◌*◌, ◌/◌, ◌%◌, ◌^◌, ◌≤◌, ◌<◌, ◌≡◌, refl, ap, ◌∙◌, arith, min,
}

-- The digits of a bitwise operation, where `f` joins two digits and `top` gives what is left of the
-- second number when the first is used up.
module _ (top : ℕ → ℕ) (f : ℕ → ℕ → ℕ) where
  one_fuel_more : (n a b : ℕ) → a ≤ n → digits top f (suc n) a b ≡ digits top f n a b
  one_fuel_more zero zero b le = refl
  one_fuel_more zero (suc a) b le = absurd (omega arith)
  one_fuel_more (suc n) zero b le = refl
  one_fuel_more (suc n) (suc a) b le = rw (one_fuel_more n (suc a / 2) (b / 2) (omega arith))

  least_fuel : (n a b : ℕ) → a ≤ n → digits top f n a b ≡ digits top f a a b
  least_fuel zero zero b le = refl
  least_fuel zero (suc a) b le = absurd (omega arith)
  least_fuel (suc n) a b le = elim (dec_lt n a) [
    | yes last ↦ let same : suc n ≡ a = omega arith in ap (λ (t : ℕ). digits top f t a b) same
    | no more ↦ one_fuel_more n a b (omega arith) ∙ least_fuel n a b (omega arith)
  ]

  -- Half of both numbers and the lowest digits make the whole.
  halves :
      (a b : ℕ)
      → bitwise top f (suc a) b ≡ 2 * bitwise top f (suc a / 2) (b / 2) + f (suc a % 2) (b % 2)
  halves a b = omega (arith, least_fuel a (suc a / 2) (b / 2) (omega arith))

or_halves : (x y : ℕ) → bit_or x y ≡ 2 * bit_or (x / 2) (y / 2) + max (x % 2) (y % 2)
or_halves zero y = rw (bit_or-bitwise zero y, bit_or-bitwise zero (y / 2)) (omega arith)
or_halves (suc x) y =
    rw (bit_or-bitwise (suc x) y, bit_or-bitwise (suc x / 2) (y / 2))
      (halves (λ rest. rest) max x y)

pub and_halves : (x y : ℕ) → bit_and x y ≡ 2 * bit_and (x / 2) (y / 2) + min (x % 2) (y % 2)
and_halves zero y = rw (bit_and-bitwise zero y, bit_and-bitwise zero (y / 2)) (omega arith)
and_halves (suc x) y =
    rw (bit_and-bitwise (suc x) y, bit_and-bitwise (suc x / 2) (y / 2)) (halves (λ rest. 0) min x y)

-- No digit of 0 is set; `k` bounds the number.
pub and_nothing : (k x : ℕ) → x ≤ k → bit_and x 0 ≡ 0
and_nothing k zero le = refl
and_nothing zero (suc x) le = absurd (omega arith)
and_nothing (suc k) (suc x) le =
    omega (arith, and_halves (suc x) 0, and_nothing k (suc x / 2) (omega arith))

doubled : (c i : ℕ) → c * 2 ^ suc i ≡ c * 2 ^ i * 2
doubled c i =
    let p : 2 ^ suc i ≡ 2 ^ i * 2 = omega (arith, pow-suc 2 i) in grind (arith, p, mul_assoc)

-- Or with a multiple of a power of two that is larger is a sum.
pub bit_or-add : (i a c t : ℕ) → a < 2 ^ i → t ≡ c * 2 ^ i → bit_or a t ≡ a + t
bit_or-add zero zero c t h e = simp bit_or-bitwise (omega arith)
bit_or-add zero (suc a) c t h e = absurd (omega arith)
bit_or-add (suc i) a c t h e =
    let u : ℕ = c * 2 ^ i in
    let e' : t ≡ u * 2 = e ∙ doubled c i in
    omega (
      arith,
      or_halves a t,
      bit_or-add i (a / 2) c (t / 2) (omega (arith, pow-suc 2 i)) (omega (arith, e')),
      e',
    )

or_nothing : (k x : ℕ) → x ≤ k → bit_or x 0 ≡ x
or_nothing k zero le = refl
or_nothing zero (suc x) le = absurd (omega arith)
or_nothing (suc k) (suc x) le =
    omega (arith, or_halves (suc x) 0, or_nothing k (suc x / 2) (omega arith))

-- The same with the numbers the other way round.
pub bit_or-add_low : (i a c t : ℕ) → a < 2 ^ i → t ≡ c * 2 ^ i → bit_or t a ≡ t + a
bit_or-add_low zero zero c t h e = or_nothing t t (omega arith) ∙ omega arith
bit_or-add_low zero (suc a) c t h e = absurd (omega arith)
bit_or-add_low (suc i) a c t h e =
    let u : ℕ = c * 2 ^ i in
    let e' : t ≡ u * 2 = e ∙ doubled c i in
    omega (
      arith,
      or_halves t a,
      bit_or-add_low i (a / 2) c (t / 2) (omega (arith, pow-suc 2 i)) (omega (arith, e')),
      e',
    )

-- The digit of a number at a place.
pub bit_and-digit :
    (i low d r m : ℕ)
    → low < 2 ^ i
    → d < 2
    → m ≡ low + 2 ^ i * (d + 2 * r)
    → bit_and m (2 ^ i) ≡ d * 2 ^ i
bit_and-digit zero low d r m h hd e =
    omega (arith, and_halves m 1, and_nothing (m / 2) (m / 2) (omega arith))
bit_and-digit (suc i) low d r m h hd e =
    let p : 2 ^ suc i ≡ 2 ^ i * 2 = omega (arith, pow-suc 2 i) in
    let k : 2 ^ suc i * (d + 2 * r) ≡ 2 ^ i * (d + 2 * r) * 2 =
      mul_comm (2 ^ suc i) (d + 2 * r)
      ∙ doubled (d + 2 * r) i
      ∙ ap (λ (t : ℕ). t * 2) (mul_comm (d + 2 * r) (2 ^ i)) in
    let ih : bit_and (m / 2) (2 ^ i) ≡ d * 2 ^ i =
      bit_and-digit i (low / 2) d r (m / 2) (omega arith) hd (omega arith) in
    let q : d * 2 ^ suc i ≡ d * 2 ^ i * 2 = doubled d i in
    let s : 2 ^ suc i / 2 ≡ 2 ^ i = omega arith in
    let z : 2 ^ suc i % 2 ≡ 0 = omega arith in
    let n : min (m % 2) 0 ≡ 0 = omega arith in
    let ih' : bit_and (m / 2) (2 ^ suc i / 2) ≡ d * 2 ^ i = rw s ih in
    let st : bit_and m (2 ^ suc i)
        ≡ 2 * bit_and (m / 2) (2 ^ suc i / 2) + min (m % 2) (2 ^ suc i % 2) =
      and_halves m (2 ^ suc i) in
    st ∙ omega (arith, ih')
