-- ===== src/Text/Lines.antt =====
-- stripLineInvisibleChars (server/shared/Utilities/Util.cpp).
pub mod Squeeze
use landlord.Prelude.{
  ℕ, zero, suc, ◌+◌, ◌-◌, ◌*◌, ◌/◌, ◌%◌, ◌^◌, ◌≤◌, ◌<◌, min, ◌≡◌, refl, sym, ap, ◌∙◌, ◌≢◌, ◌↔◌, ◌⊎◌,
  inl, inr, Bool, true, false, not, ◌&&◌, ◌||◌, Option, none, some, List, [], ◌∷◌, ◌++◌, map, arith,
  ltb, leb, ◌==◌, if◌then◌else◌, ==_iff, Bool-cases, Option-cases, bind, length, get_elem?, set,
  take, drop, replicate, length-append, length-set, take-append-drop, length-take, length-drop,
  length-replicate, get_elem?_total, get_elem?-set_self, get_elem?-set_ne, one_if_eq, count,
  count-append, count-set, u32_mod, add32, sub32, minus_one, is_negative, is_positive, signed_key,
  max32,
}
use landlord.Text.Times.{codes}

-- One of the characters of `invChars`.
abbrev pub is_invisible : ℕ → Bool
is_invisible c = c == b' ' || c == 9 || c == 7 || c == 10

-- The loop, in the text itself: `n` characters are left from `pos` on, those before `wpos` are done.
pub strip_loop : ℕ → ℕ → ℕ → Bool → List ℕ → ℕ × List ℕ
strip_loop zero pos wpos space str = (wpos, str)
strip_loop (suc n) pos wpos space str = elim (get_elem? str pos) [
  | none ↦ (wpos, str)
  | some c ↦ elim (is_invisible c) [
    | true ↦ elim space [
      | true ↦ strip_loop n (suc pos) wpos true str
      | false ↦ strip_loop n (suc pos) (suc wpos) true (set str wpos b' ')
    ]
    | false ↦ strip_loop n (suc pos) (suc wpos) false (if wpos == pos then str else set str wpos c)
  ]
]

-- The text begins with the other one, and has it somewhere in it.
unfoldable pub begins_with : List ℕ → List ℕ → Bool
begins_with [] str = true
begins_with (c ∷ part) [] = false
begins_with (c ∷ part) (d ∷ str) = c == d && begins_with part str

unfoldable pub contains : List ℕ → List ℕ → Bool
unfolding begins_with
contains part [] = begins_with part []
contains part (c ∷ str) = begins_with part (c ∷ str) || contains part str

-- stripLineInvisibleChars
pub strip_line_invisible_chars : List ℕ → List ℕ
unfolding strip_loop contains
strip_line_invisible_chars str =
    let (wpos, written) = strip_loop (length str) 0 0 false str in
    let stripped = take wpos written in
    if contains (codes "|TInterface") stripped then [] else stripped
