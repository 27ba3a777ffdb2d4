-- ===== src/Text/Flags.antt =====
-- flag96 and CompareValues (server/shared/Utilities/Util.h).
pub mod Order
use Prim.Native.Nat.{bit_and, bit_or, bit_xor}
use landlord.Prelude.{
  ℕ, zero, suc, ◌+◌, ◌-◌, ◌*◌, ◌/◌, ◌%◌, ◌^◌, ◌≤◌, ◌<◌, min, ◌≡◌, refl, sym, ap, ◌∙◌, ◌≢◌, ◌↔◌, ◌⊎◌,
  inl, inr, Bool, true, false, not, ◌&&◌, ◌||◌, Option, none, some, List, [], ◌∷◌, ◌++◌, map, arith,
  ltb, leb, ◌==◌, if◌then◌else◌, ==_iff, Bool-cases, Option-cases, bind, length, get_elem?, set,
  take, drop, replicate, length-append, length-set, take-append-drop, length-take, length-drop,
  length-replicate, get_elem?_total, get_elem?-set_self, get_elem?-set_ne, one_if_eq, count,
  count-append, count-set, u32_mod, add32, sub32, minus_one, is_negative, is_positive, signed_key,
  max32,
}

-- `part`, three uint32.
pub record Flag96 : Type 0 where
  pub part0 : ℕ
  pub part1 : ℕ
  pub part2 : ℕ

-- flag96::flag96 and Set
abbrev new_flag : ℕ → ℕ → ℕ → Flag96
new_flag p1 p2 p3 = record { part0 = p1; part1 = p2; part2 = p3 }

-- flag96::IsEqual, and `==` of two flags
is_equal : ℕ → ℕ → ℕ → Flag96 → Bool
is_equal p1 p2 p3 f = f.part0 == p1 && f.part1 == p2 && f.part2 == p3

equals : Flag96 → Flag96 → Bool
unfolding is_equal
equals f right = is_equal right.part0 right.part1 right.part2 f

-- flag96::HasFlag
has_flag : ℕ → ℕ → ℕ → Flag96 → Bool
has_flag p1 p2 p3 f =
    not (bit_and f.part0 p1 == 0) || not (bit_and f.part1 p2 == 0) || not (bit_and f.part2 p3 == 0)

-- `<`: the last part counts most.
pub less : Flag96 → Flag96 → Bool
less f right =
    if ltb f.part2 right.part2
    then true
    else if ltb right.part2 f.part2
    then false
    else if ltb f.part1 right.part1
    then true
    else if ltb right.part1 f.part1
    then false
    else ltb f.part0 right.part0

-- The operations part by part: `&`, `|`, `^` and `~`, and the assignments with them.
abbrev by_parts : (ℕ → ℕ → ℕ) → Flag96 → Flag96 → Flag96
by_parts op f right =
    new_flag (op f.part0 right.part0) (op f.part1 right.part1) (op f.part2 right.part2)

flag_and : Flag96 → Flag96 → Flag96
flag_and f right = by_parts bit_and f right

flag_or : Flag96 → Flag96 → Flag96
flag_or f right = by_parts bit_or f right

flag_xor : Flag96 → Flag96 → Flag96
flag_xor f right = by_parts bit_xor f right

flag_not : Flag96 → Flag96
flag_not f = new_flag (2 ^ 32 - 1 - f.part0) (2 ^ 32 - 1 - f.part1) (2 ^ 32 - 1 - f.part2)

-- `operator bool`
is_set : Flag96 → Bool
is_set f = not (f.part0 == 0) || not (f.part1 == 0) || not (f.part2 == 0)

-- `operator []`; there are three parts.
part_at : ℕ → Flag96 → Option ℕ
part_at el f = get_elem? (f.part0 ∷ f.part1 ∷ f.part2 ∷ []) el

pub data ComparisionType : Type 0 where
  comp_type_eq comp_type_high comp_type_low comp_type_high_eq comp_type_low_eq comp_type_max :
      ComparisionType

-- CompareValues; `none` is a failed ASSERT.
compare_values : ComparisionType → ℕ → ℕ → Option Bool
compare_values comp_type_eq val1 val2 = some (val1 == val2)
compare_values comp_type_high val1 val2 = some (ltb val2 val1)
compare_values comp_type_low val1 val2 = some (ltb val1 val2)
compare_values comp_type_high_eq val1 val2 = some (leb val2 val1)
compare_values comp_type_low_eq val1 val2 = some (leb val1 val2)
compare_values comp_type_max val1 val2 = none
