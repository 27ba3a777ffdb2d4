-- ===== src/Text/Tokens/Splitting.antt =====
-- What Tokenizer makes of a text.
use landlord.Prelude.{
  ℕ, ◌≡◌, refl, sym, ap, ◌∙◌, ◌≢◌, inl, inr, true, false, none, some, List, [], ◌∷◌, ◌++◌, arith,
  ◌==◌, Bool-cases,
}
use mathlib.Core.List.{append_assoc, append-nil}
use landlord.Text.Tokens.{last_token, split, tokenizer}

-- A token has neither the separator nor the end of a C string in it.
abbrev IsToken : ℕ → List ℕ → Type 0
IsToken sep [] = Unit
IsToken sep (c ∷ token) = (c ≢ sep) × (c ≢ 0) × IsToken sep token

abbrev AreTokens : ℕ → List (List ℕ) → Type 0
AreTokens sep [] = Unit
AreTokens sep (token ∷ tokens) = IsToken sep token × AreTokens sep tokens

-- The tokens, each with the separator behind it.
abbrev pub joined : ℕ → List (List ℕ) → List ℕ
joined sep [] = []
joined sep (token ∷ tokens) = token ++ (sep ∷ joined sep tokens)

split-token :
    (sep : ℕ) (old token rest : List ℕ)
    → IsToken sep token
    → split sep old (token ++ rest) ≡ split sep (old ++ token) rest
unfolding split
split-token sep old [] rest h = ap (λ x. split sep x rest) (sym (append-nil old))
split-token sep old (c ∷ token) rest h =
    let other : (c == sep) ≡ false = ground (arith, h.0) in
    let inside : (c == 0) ≡ false = ground (arith, h.1) in
    rw (split, other, inside)
      (split-token sep (old ++ (c ∷ [])) token rest h.2
        ∙ ap (λ x. split sep x rest) (append_assoc old (c ∷ []) token))

split-joined :
    (sep : ℕ) (tokens : List (List ℕ)) (last : List ℕ)
    → sep ≢ 0
    → AreTokens sep tokens
    → IsToken sep last
    → split sep [] (joined sep tokens ++ (last ++ (0 ∷ []))) ≡ some (tokens ++ last_token last)
unfolding split
split-joined sep [] last n h l =
    let other : (0 == sep) ≡ false = ground (arith, n) in
    split-token sep [] last (0 ∷ []) l ∙ rw (split, other) refl
split-joined sep (token ∷ tokens) last n h l =
    let same : (sep == sep) ≡ true = ground arith in
    ap (split sep []) (append_assoc token (sep ∷ joined sep tokens) (last ++ (0 ∷ [])))
    ∙ split-token sep [] token (sep ∷ (joined sep tokens ++ (last ++ (0 ∷ [])))) h.0
    ∙ rw (split, same, split-joined sep tokens last n h.1 l) refl

-- With a separator other than 0, Tokenizer gives back the tokens of a text in which each has the
-- separator behind it, empty ones included, where no token has the separator or a 0 in it. What
-- follows the last separator, which has neither in it too, is a token of its own unless it is empty.
pub tokenizer-joined :
    (sep : ℕ) (tokens : List (List ℕ)) (last : List ℕ)
    → sep ≢ 0
    → AreTokens sep tokens
    → IsToken sep last
    → tokenizer (joined sep tokens ++ last) sep ≡ some (tokens ++ last_token last)
unfolding tokenizer
tokenizer-joined sep tokens last n h l =
    ap (split sep []) (append_assoc (joined sep tokens) last (0 ∷ []))
    ∙ split-joined sep tokens last n h l

-- With the separator 0, Tokenizer never finds the end and leaves its copy of the text.
tokenizer-zero : (src token : List ℕ) → split 0 token src ≡ none
unfolding split
tokenizer-zero [] token = refl
tokenizer-zero (c ∷ src) token = elim (Bool-cases (c == 0)) [
  | inl e ↦ rw (split, e, tokenizer-zero src []) refl
  | inr e ↦ rw (split, e, e) (tokenizer-zero src (token ++ (c ∷ [])))
]
