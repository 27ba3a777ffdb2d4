-- ===== src/Logging/Lookup.antt =====
-- Which logger Log::GetLoggerByType finds.
use landlord.Prelude.{
  ℕ, zero, suc, ◌+◌, ◌≤◌, ◌<◌, ◌≡◌, refl, sym, ap, ◌∙◌, inl, inr, true, Option, none, some, List,
  [], ◌∷◌, ◌++◌, map, arith, ◌==◌, if◌then◌else◌, ==_iff, Bool-cases, Option-cases, length,
}
use mathlib.Core.Path.{subst}
use landlord.Text.Times.{same_text}
use landlord.Logging.{
  Text, Logger, Log, root, find_logger, before_last_dot, parent_logger, get_logger,
  get_logger_by_type,
}

pub same_text_refl : (a : Text) → same_text a a ≡ true
unfolding same_text
same_text_refl [] = refl
same_text_refl (c ∷ a) =
    let same : (c == c) ≡ true = ground arith in rw (same, same_text_refl a) refl

same_text-eq : (a b : Text) → same_text a b ≡ true → a ≡ b
unfolding same_text
same_text-eq [] [] h = refl
same_text-eq [] (d ∷ b) h = absurd (ground (arith, h))
same_text-eq (c ∷ a) [] h = absurd (ground (arith, h))
same_text-eq (c ∷ a) (d ∷ b) h = elim (Bool-cases (c == d)) [
  | inl e ↦
      let eq : c ≡ d = (==_iff c d).0 e in
      let rest : same_text a b ≡ true = rw e at h in cc (eq, same_text-eq a b rest)
  | inr e ↦ absurd (ground (arith, e, h))
]

-- What stands in front of each dot, the longest first.
prefixes : Text → List Text
prefixes [] = []
prefixes (c ∷ rest) = map (◌∷◌ c) (prefixes rest) ++ (if c == b'.' then [] ∷ [] else [])

-- The first of these types that has a logger.
pub nearest : List Text → Log → Option Logger
nearest [] log = none
nearest (type ∷ types) log = elim (find_logger type log.loggers) [
  | none ↦ nearest types log
  | some logger ↦ some logger
]

-- The type, the types above it, and the root.
abbrev pub lineage : Text → List Text
unfolding prefixes
lineage type = type ∷ (prefixes type ++ (root ∷ []))

prefixes-none : (type : Text) → before_last_dot type ≡ none → prefixes type ≡ []
unfolding prefixes before_last_dot
prefixes-none [] h = refl
prefixes-none (c ∷ rest) h = elim (Option-cases (before_last_dot rest)) [
  | inl e ↦ elim (Bool-cases (c == b'.')) [
    | inl d ↦ absurd (ground (arith, e, d, h))
    | inr d ↦ rw (prefixes-none rest e, d) refl
  ]
  | inr (front, e) ↦ absurd (ground (arith, e, h))
]

some_inj : {a b : Text} → some a ≡ some b → a ≡ b
some_inj e = cc

prefixes-some :
    (type front : Text)
    → before_last_dot type ≡ some front
    → (prefixes type ≡ front ∷ prefixes front) × (length front < length type)
unfolding prefixes before_last_dot
prefixes-some [] front h = absurd (ground (arith, h))
prefixes-some (c ∷ rest) front h = elim (Option-cases (before_last_dot rest)) [
  | inl e ↦ elim (Bool-cases (c == b'.')) [
    | inl d ↦
        let same : [] ≡ front = some_inj (sym (rw (before_last_dot, e, d) refl) ∙ h) in
        subst (λ x. (prefixes (c ∷ rest) ≡ x ∷ prefixes x) × (length x < length (c ∷ rest))) same
          (rw (prefixes-none rest e, d) refl, omega arith)
    | inr d ↦ absurd (ground (arith, e, d, h))
  ]
  | inr (f, e) ↦
      let (same_rest, shorter) = prefixes-some rest f e in
      let same : c ∷ f ≡ front = some_inj (sym (rw (before_last_dot, e) refl) ∙ h) in
      subst (λ x. (prefixes (c ∷ rest) ≡ x ∷ prefixes x) × (length x < length (c ∷ rest))) same
        (rw same_rest refl, omega arith)
]

-- With a logger, the first type decides; without, those behind it do.
nearest-none :
    (type : Text) (types : List Text) (log : Log)
    → find_logger type log.loggers ≡ none
    → nearest (type ∷ types) log ≡ nearest types log
unfolding nearest
nearest-none type types log e = rw (nearest, e) refl

root-lineage : (log : Log) → nearest (lineage root) log ≡ nearest (root ∷ []) log
unfolding nearest prefixes
root-lineage log = elim (Option-cases (find_logger root log.loggers)) [
  | inl e ↦ rw (nearest, e) (rw (nearest, e) refl)
  | inr (l, e) ↦ rw (nearest, e) refl
]

get_logger-root :
    (n : ℕ) (log : Log) → 0 < n → get_logger n root log ≡ some (nearest (root ∷ []) log)
unfolding get_logger nearest same_text
get_logger-root zero log h = absurd (omega arith)
get_logger-root (suc n) log h = elim (Option-cases (find_logger root log.loggers)) [
  | inl e ↦ rw (get_logger, nearest, e) refl
  | inr (l, e) ↦ rw (get_logger, nearest, e) refl
]

-- A type that is the root itself and has no logger.
no_root :
    (type : Text) (log : Log)
    → type ≡ root
    → find_logger type log.loggers ≡ none
    → nearest (lineage type) log ≡ none
unfolding nearest lineage
no_root type log r e =
    let without : find_logger root log.loggers ≡ none =
      subst (λ t. find_logger t log.loggers ≡ none) r e in
    subst (λ t. nearest (lineage t) log ≡ none) (sym r)
      (root-lineage log ∙ rw (nearest, without) refl)

get_logger-nearest :
    (n : ℕ) (type : Text) (log : Log)
    → length type + 2 ≤ n
    → get_logger n type log ≡ some (nearest (lineage type) log)
unfolding get_logger parent_logger lineage nearest
get_logger-nearest zero type log h = absurd (omega arith)
get_logger-nearest (suc n) type log h = elim (Option-cases (find_logger type log.loggers)) [
  | inr (logger, e) ↦ rw (get_logger, nearest, e) refl
  | inl e ↦ elim (Bool-cases (same_text type root)) [
    | inl r ↦ rw (get_logger, e, r) (ap some (sym (no_root type log (same_text-eq type root r) e)))
    | inr r ↦ elim (Option-cases (before_last_dot type)) [
      | inl d ↦
          rw (get_logger, e, r, parent_logger, d)
            (get_logger-root n log (omega arith)
              ∙ ap some (
                  sym (
                    nearest-none type (prefixes type ++ (root ∷ [])) log e
                    ∙ rw (prefixes-none type d) refl)))
      | inr (front, d) ↦
          let (same, shorter) = prefixes-some type front d in
          rw (get_logger, e, r, parent_logger, d)
            (get_logger-nearest n front log (omega arith)
              ∙ ap some
                  (sym (nearest-none type (prefixes type ++ (root ∷ [])) log e ∙ rw same refl)))
    ]
  ]
]

-- GetLoggerByType returns: what it finds is the logger of the type itself if there is one, otherwise
-- that of the longest part in front of a dot that has one, otherwise the root's, and null if there is
-- none of these either.
pub get_logger_by_type-nearest :
    (type : Text) (log : Log) → get_logger_by_type type log ≡ some (nearest (lineage type) log)
unfolding get_logger_by_type
get_logger_by_type-nearest type log = get_logger-nearest (length type + 2) type log (omega arith)
