-- ===== src/Text/Flags/Order.antt =====
-- The order of the flags is that of the numbers that their parts make.
use landlord.Prelude.{ℕ, ◌+◌, ◌*◌, ◌^◌, ◌<◌, ◌≡◌, arith, ltb}
use landlord.Text.Flags.{Flag96, less}

-- The number of 96 bits.
abbrev value : Flag96 → ℕ
value f = f.part0 + 2 ^ 32 * f.part1 + 2 ^ 64 * f.part2

-- With parts below 2 ^ 32, `<` compares the numbers of 96 bits.
less-value :
    (f right : Flag96)
    → f.part0 < 2 ^ 32
    → f.part1 < 2 ^ 32
    → right.part0 < 2 ^ 32
    → right.part1 < 2 ^ 32
    → less f right ≡ ltb (value f) (value right)
unfolding less
less-value f right a b c d = ground arith
