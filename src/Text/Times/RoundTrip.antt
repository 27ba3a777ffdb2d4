-- ===== src/Text/Times/RoundTrip.antt =====
-- What TimeStringToSecs reads from what secsToTimeString writes.
use landlord.Prelude.{
  ℕ, zero, suc, ◌+◌, ◌-◌, ◌*◌, ◌/◌, ◌%◌, ◌^◌, ◌<◌, ◌≡◌, refl, sym, ap, ◌∙◌, inl, inr, Bool, true,
  false, not, ◌&&◌, ◌||◌, some, List, [], ◌∷◌, ◌++◌, arith, ltb, ◌==◌, if◌then◌else◌, Bool-cases,
  u32_mod, add32,
}
use mathlib.Core.List.{append_assoc, append-nil}
use landlord.Text.Times.{
  codes, minute, hour, day, digits, time_part, secs_to_time_string, is_digit, multiplier, read_time,
  time_string_to_secs,
}

-- 10 ^ f
abbrev ten_to : ℕ → ℕ
ten_to zero = 1
ten_to (suc f) = 10 * ten_to f

read-digit :
    (s b d : ℕ) (rest : List ℕ)
    → d < 10
    → b * 10 + d < 2 ^ 32
    → read_time s b ((48 + d) ∷ rest) ≡ read_time s (b * 10 + d) rest
unfolding read_time
read-digit s b d rest h room =
    let digit : is_digit (48 + d) ≡ true = ground arith in
    let value : ((b * 10) % u32_mod + (48 + d - 48)) % u32_mod ≡ b * 10 + d = omega arith in
    rw (read_time, digit, value) refl

-- The digits of a number bring it into the buffer.
read-digits :
    (f n s : ℕ) (rest : List ℕ)
    → n < ten_to f
    → n < 2 ^ 32
    → read_time s 0 (digits f n ++ rest) ≡ read_time s n rest
unfolding digits
read-digits zero n s rest h room = let none : n ≡ 0 = omega arith in rw none refl
read-digits (suc f) n s rest h room = elim (Bool-cases (ltb n 10)) [
  | inl c ↦ rw c (
      read-digit s 0 n rest (ground arith) (ground arith)
      ∙ ap (λ x. read_time s x rest) (omega arith))
  | inr c ↦
      rw (c, append_assoc (digits f (n / 10)) ((48 + n % 10) ∷ []) rest)
        (read-digits f (n / 10) s ((48 + n % 10) ∷ rest) (omega arith) (omega arith)
          ∙ read-digit s (n / 10) (n % 10) rest (omega arith) (omega arith)
          ∙ ap (λ x. read_time s x rest) (omega arith))
]

-- A unit adds what is in the buffer.
read-unit :
    (s b c m : ℕ) (rest : List ℕ)
    → is_digit c ≡ false
    → multiplier c ≡ some m
    → s + b * m < 2 ^ 32
    → read_time s b (c ∷ rest) ≡ read_time (s + b * m) 0 rest
unfolding read_time
read-unit s b c m rest d u room =
    let value : add32 s ((b * m) % u32_mod) ≡ s + b * m = omega arith in
    rw (read_time, d, u, value) refl

read-part :
    (b : Bool) (s n c m : ℕ) (rest : List ℕ)
    → (b ≡ false → n * m ≡ 0)
    → is_digit c ≡ false
    → multiplier c ≡ some m
    → n < 2 ^ 32
    → s + n * m < 2 ^ 32
    → read_time s 0 (time_part b n (c ∷ []) ++ rest) ≡ read_time (s + n * m) 0 rest
unfolding time_part read_time
read-part false s n c m rest z d u small room =
    let same : s ≡ s + n * m = omega (arith, z refl) in ap (λ x. read_time x 0 rest) same
read-part true s n c m rest z d u small room =
    ap (read_time s 0) (append_assoc (digits 20 n) (c ∷ []) rest)
    ∙ read-digits 20 n s (c ∷ rest) (omega arith) small
    ∙ read-unit s n c m rest d u room

-- TimeStringToSecs reads back every time below 2 ^ 32 seconds that secsToTimeString writes in its
-- short form; of a text that has the hours only, it reads the whole hours.
pub time_string_to_secs-secs_to_time_string :
    (time : ℕ) (hours_only : Bool)
    → time < 2 ^ 32
    → time_string_to_secs (secs_to_time_string time true hours_only)
      ≡ (if hours_only then time / hour * hour else time)
unfolding time_string_to_secs secs_to_time_string
time_string_to_secs-secs_to_time_string time true h =
    let days = time / day in
    let hours = time % day / hour in
    read-part (not (days == 0)) 0 days b'd' day _ (λ e. ground arith) refl refl (omega arith)
      (omega arith)
    ∙ read-part (not (hours == 0) || true) (0 + days * day) hours b'h' hour [] (λ e. ground arith)
        refl refl (omega arith) (omega arith)
    ∙ omega arith
time_string_to_secs-secs_to_time_string time false h =
    let days = time / day in
    let hours = time % day / hour in
    let minutes = time % hour / minute in
    let secs = time % minute in
    read-part (not (days == 0)) 0 days b'd' day _ (λ e. ground arith) refl refl (omega arith)
      (omega arith)
    ∙ read-part (not (hours == 0) || false) (0 + days * day) hours b'h' hour _ (λ e. ground arith)
        refl refl (omega arith) (omega arith)
    ∙ read-part (not (minutes == 0)) (0 + days * day + hours * hour) minutes b'm' minute _
        (λ e. ground arith) refl refl (omega arith) (omega arith)
    ∙ ap (read_time (0 + days * day + hours * hour + minutes * minute) 0) (
        sym (
          append-nil (
            time_part (not (secs == 0) || (days == 0 && (hours == 0 && minutes == 0))) secs
              (codes "s"))))
    ∙ read-part (not (secs == 0) || (days == 0 && (hours == 0 && minutes == 0)))
        (0 + days * day + hours * hour + minutes * minute) secs b's' 1 [] (λ e. ground arith) refl
        refl (omega arith) (omega arith)
    ∙ omega arith
