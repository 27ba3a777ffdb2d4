-- ===== src/Text/Lines/Squeeze.antt =====
-- What stripLineInvisibleChars makes of a text.
use landlord.Prelude.{
  ℕ, zero, suc, ◌+◌, ◌≤◌, ◌<◌, ◌≡◌, refl, sym, ap, ◌∙◌, inl, inr, Bool, true, false, some, List, [],
  ◌∷◌, ◌++◌, arith, ◌==◌, if◌then◌else◌, ==_iff, Bool-cases, length, get_elem?, set, take, drop,
  length-set, get_elem?_total,
}
use mathlib.Core.Path.{subst}
use mathlib.Core.List.{append_assoc, append-nil}
use landlord.Text.Times.{codes}
use landlord.Text.Lines.{is_invisible, strip_loop, contains, strip_line_invisible_chars}

-- A run of invisible characters becomes one space; after a space it becomes nothing.
unfoldable pub squeeze : Bool → List ℕ → List ℕ
squeeze space [] = []
squeeze space (c ∷ rest) =
    if is_invisible c
    then if space then squeeze true rest else b' ' ∷ squeeze true rest
    else c ∷ squeeze false rest

take-set :
    (str : List ℕ) (w v : ℕ) → w < length str → take (suc w) (set str w v) ≡ take w str ++ (v ∷ [])
take-set [] w v h = absurd (omega arith)
take-set (c ∷ str) zero v h = refl
take-set (c ∷ str) (suc w) v h = ap (◌∷◌ c) (take-set str w v (omega arith))

drop-set : (str : List ℕ) (w p v : ℕ) → w ≤ p → drop (suc p) (set str w v) ≡ drop (suc p) str
drop-set [] w p v h = refl
drop-set (c ∷ str) zero p v h = refl
drop-set (c ∷ str) (suc w) zero v h = absurd (omega arith)
drop-set (c ∷ str) (suc w) (suc p) v h = drop-set str w p v (omega arith)

-- The character at a place ends what is up to it, and begins what is from it on.
at_place :
    (str : List ℕ) (p c : ℕ)
    → get_elem? str p ≡ some c
    → (take (suc p) str ≡ take p str ++ (c ∷ [])) × (drop p str ≡ c ∷ drop (suc p) str)
at_place [] p c h = absurd (ground (arith, h))
at_place (d ∷ str) zero c h =
    let same : d ≡ c = cc in (ap (λ x. x ∷ []) same, ap (λ x. x ∷ str) same)
at_place (d ∷ str) (suc p) c h = let (t, r) = at_place str p c h in (ap (◌∷◌ d) t, r)

drop-long : (str : List ℕ) (p : ℕ) → length str ≤ p → drop p str ≡ []
drop-long [] zero h = refl
drop-long [] (suc p) h = refl
drop-long (c ∷ str) zero h = absurd (omega arith)
drop-long (c ∷ str) (suc p) h = drop-long str p (omega arith)

-- One character more is done.
written :
    (str str' : List ℕ) (x wpos pos : ℕ) (space : Bool)
    → take (suc wpos) str' ≡ take wpos str ++ (x ∷ [])
    → drop (suc pos) str' ≡ drop (suc pos) str
    → take (suc wpos) str' ++ squeeze space (drop (suc pos) str')
      ≡ take wpos str ++ (x ∷ squeeze space (drop (suc pos) str))
written str str' x wpos pos space t d =
    rw (t, d) (append_assoc (take wpos str) (x ∷ []) (squeeze space (drop (suc pos) str)))

-- What the loop leaves in front of `wpos`.
abbrev kept : ℕ × List ℕ → List ℕ
kept r = take r.0 r.1

strip_loop-squeeze :
    (n pos wpos : ℕ) (space : Bool) (str : List ℕ)
    → wpos ≤ pos
    → pos + n ≡ length str
    → kept (strip_loop n pos wpos space str) ≡ take wpos str ++ squeeze space (drop pos str)
unfolding strip_loop squeeze
strip_loop-squeeze zero pos wpos space str h e =
    rw (drop-long str pos (omega arith)) (sym (append-nil (take wpos str)))
strip_loop-squeeze (suc n) pos wpos space str h e =
    let (c, at) = get_elem?_total str pos (omega arith) in
    let (upto, from) = at_place str pos c at in
    let room : wpos < length str = omega arith in
    elim (Bool-cases (is_invisible c)) [
      | inl i ↦ elim (Bool-cases space) [
        | inl s ↦
            rw (strip_loop, at, i, s, from)
              (rw (squeeze, i)
                (strip_loop-squeeze n (suc pos) wpos true str (omega arith) (omega arith)))
        | inr s ↦
            rw (strip_loop, at, i, s, from)
              (rw (squeeze, i)
                (strip_loop-squeeze n (suc pos) (suc wpos) true (set str wpos b' ') (omega arith)
                    (omega (arith, length-set str wpos b' '))
                  ∙ written str (set str wpos b' ') b' ' wpos pos true (take-set str wpos b' ' room)
                      (drop-set str wpos pos b' ' h)))
      ]
      | inr v ↦ elim (Bool-cases (wpos == pos)) [
        | inl same ↦
            let equal : pos ≡ wpos = sym ((==_iff wpos pos).0 same) in
            rw (strip_loop, at, v, same, from)
              (rw (squeeze, v)
                (strip_loop-squeeze n (suc pos) (suc wpos) false str (omega arith) (omega arith)
                  ∙ written str str c wpos pos false
                      (subst (λ k. take (suc k) str ≡ take k str ++ (c ∷ [])) equal upto) refl))
        | inr other ↦
            rw (strip_loop, at, v, other, from)
              (rw (squeeze, v)
                (strip_loop-squeeze n (suc pos) (suc wpos) false (set str wpos c) (omega arith)
                    (omega (arith, length-set str wpos c))
                  ∙ written str (set str wpos c) c wpos pos false (take-set str wpos c room)
                      (drop-set str wpos pos c h)))
      ]
    ]

-- stripLineInvisibleChars, which works in the text itself, makes one space of each run of spaces,
-- tabs, bells and line ends and keeps the other characters in their order; a text that then has
-- "|TInterface" in it becomes empty.
pub strip_line_invisible_chars-squeeze :
    (str : List ℕ)
    → strip_line_invisible_chars str
      ≡ (if contains (codes "|TInterface") (squeeze false str) then [] else squeeze false str)
unfolding strip_line_invisible_chars
strip_line_invisible_chars-squeeze str =
    let all = strip_loop-squeeze (length str) 0 0 false str (omega arith) (omega arith) in
    ap (λ x. if contains (codes "|TInterface") x then [] else x) all
