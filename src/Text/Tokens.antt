-- ===== src/Text/Tokens.antt =====
-- class Tokenizer (server/shared/Utilities/Util.h and Util.cpp).
pub mod Splitting
use landlord.Prelude.{
  ℕ, zero, suc, ◌+◌, ◌-◌, ◌*◌, ◌/◌, ◌%◌, ◌^◌, ◌≤◌, ◌<◌, min, ◌≡◌, refl, sym, ap, ◌∙◌, ◌≢◌, ◌↔◌, ◌⊎◌,
  inl, inr, Bool, true, false, not, ◌&&◌, ◌||◌, Option, none, some, List, [], ◌∷◌, ◌++◌, map, arith,
  ltb, leb, ◌==◌, if◌then◌else◌, ==_iff, Bool-cases, Option-cases, bind, length, get_elem?, set,
  take, drop, replicate, length-append, length-set, take-append-drop, length-take, length-drop,
  length-replicate, get_elem?_total, get_elem?-set_self, get_elem?-set_ne, one_if_eq, count,
  count-append, count-set, u32_mod, add32, sub32, minus_one, is_negative, is_positive, signed_key,
  max32,
}

-- `if (posold != posnew) m_storage.push_back(posold);`
abbrev pub last_token : List ℕ → List (List ℕ)
last_token [] = []
last_token (c ∷ token) = (c ∷ token) ∷ []

-- The loop of Tokenizer over the copy of the text, which ends in 0; `token` is what stands between
-- `posold` and `posnew`. Without an end in sight, the loop leaves the array.
unfoldable pub split : ℕ → List ℕ → List ℕ → Option (List (List ℕ))
split sep token [] = none
split sep token (c ∷ rest) = elim (c == sep) [
  | true ↦ bind (split sep [] rest) λ tokens. some (token ∷ tokens)
  | false ↦ elim (c == 0) [
    | true ↦ some (last_token token)
    | false ↦ split sep (token ++ (c ∷ [])) rest
  ]
]

-- Tokenizer::Tokenizer; the capacity that it reserves does not show.
unfoldable pub tokenizer : List ℕ → ℕ → Option (List (List ℕ))
unfolding split
tokenizer src sep = split sep [] (src ++ (0 ∷ []))
