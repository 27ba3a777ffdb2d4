-- ===== src/Packets/ByteBuffer/Marks.antt =====
-- What appendPackGUID (server/shared/Packets/ByteBuffer.h) makes of a GUID: a mark and bytes.
use native.Mathlib.Nat.{pow-suc, mul_assoc}
use native.Mathlib.Numerals.{add-one}
use landlord.Prelude.{
  ℕ, zero, suc, ◌+◌, ◌*◌, ◌/◌, ◌%◌, ◌^◌, ◌≤◌, ◌<◌, ◌≡◌, refl, sym, ap, ◌∙◌, true, false, List, [],
  ◌∷◌, ◌++◌, arith, ◌==◌, if◌then◌else◌, ==_iff, Bool-cases, inl, inr, length,
}
use Prim.Native.Nat.{bit_or}
use mathlib.Core.Path.{ap₂}
use mathlib.Core.List.{append_assoc, append-nil}
use landlord.Packets.Bits.{bit_or-add}
use landlord.Packets.ByteBuffer.Guid.{pack_guid}

-- 1 unless the lowest byte is 0.
abbrev mark_bit : ℕ → ℕ
mark_bit guid = if guid % 256 == 0 then 0 else 1

-- The mark of the lowest `n` bytes, a bit for each that is not 0, and those bytes.
unfoldable pub marks : ℕ → ℕ → ℕ
marks zero guid = 0
marks (suc n) guid = mark_bit guid + 2 * marks n (guid / 256)

unfoldable pub present : ℕ → ℕ → List ℕ
present zero guid = []
present (suc n) guid =
    let rest = present n (guid / 256) in if guid % 256 == 0 then rest else guid % 256 ∷ rest

pub marks-zero : (n : ℕ) → marks n 0 ≡ 0
unfolding marks
marks-zero zero = refl
marks-zero (suc n) = omega (arith, marks-zero n)

present-zero : (n : ℕ) → present n 0 ≡ []
unfolding present
present-zero zero = refl
present-zero (suc n) = present-zero n

pub marks-lt : (n guid : ℕ) → marks n guid < 2 ^ n
unfolding marks
marks-lt zero guid = omega arith
marks-lt (suc n) guid = ground (arith, marks-lt n (guid / 256), pow-suc 2 n)

pub length-present : (n guid : ℕ) → length (present n guid) ≤ n
unfolding present
length-present zero guid = omega arith
length-present (suc n) guid = ground (arith, length-present n (guid / 256))

pub pair_eq : {m m' : ℕ} {b b' : List ℕ} → m ≡ m' → b ≡ b' → ◌≡◌ {A = ℕ × List ℕ} (m, b) (m', b')
pair_eq h k = ap₂ (λ m b. (m, b)) h k

pub pow-add_one : (i : ℕ) → 2 ^ (i + 1) ≡ 2 ^ i * 2
pow-add_one i =
    let e : 2 ^ suc i ≡ 2 ^ i * 2 = omega (arith, pow-suc 2 i) in
    ap (λ (t : ℕ). 2 ^ t) (add-one i) ∙ e

shifted : (m i : ℕ) → m * 2 ^ (i + 1) ≡ 2 * m * 2 ^ i
shifted m i =
    omega
      (arith, ap (λ (t : ℕ). m * t) (pow-add_one i), mul_assoc m (2 ^ i) 2, mul_assoc 2 m (2 ^ i))

added : (m i : ℕ) → (1 + 2 * m) * 2 ^ i ≡ 2 ^ i + 2 * m * 2 ^ i
added m i = grind arith

module _ (n guid : ℕ) where
  pub marks-skip : (guid % 256 == 0) ≡ true → marks (suc n) guid ≡ 2 * marks n (guid / 256)
  unfolding marks
  marks-skip e = rw e (omega arith)

  pub marks-keep : (guid % 256 == 0) ≡ false → marks (suc n) guid ≡ 1 + 2 * marks n (guid / 256)
  unfolding marks
  marks-keep e = rw e

  pub present-skip : (guid % 256 == 0) ≡ true → present (suc n) guid ≡ present n (guid / 256)
  unfolding present
  present-skip e = rw e

  pub present-keep :
      (guid % 256 == 0) ≡ false → present (suc n) guid ≡ guid % 256 ∷ present n (guid / 256)
  unfolding present
  present-keep e = rw e

-- What the loop of appendPackGUID makes of the bytes from `i` on.
pub pack_guid_lem :
    (n i guid mark : ℕ) (bytes : List ℕ)
    → guid < 256 ^ n
    → mark < 2 ^ i
    → pack_guid n i guid mark bytes ≡ (mark + marks n guid * 2 ^ i, bytes ++ present n guid)
unfolding pack_guid
pack_guid_lem zero i guid mark bytes h k =
    pair_eq (unfold marks in omega arith) (unfold present in sym (append-nil bytes))
pack_guid_lem (suc n) i guid mark bytes h k = elim (Bool-cases (guid == 0)) [
  | inl e ↦
      let z : guid ≡ 0 = (==_iff guid 0).0 e in
      rw (e, pack_guid)
        (pair_eq
          (omega (arith, ap (λ (t : ℕ). t * 2 ^ i) (ap (marks (suc n)) z ∙ marks-zero (suc n))))
          (sym (
            ap (λ b. bytes ++ b) (ap (present (suc n)) z ∙ present-zero (suc n))
            ∙ append-nil bytes)))
  | inr e ↦ elim (Bool-cases (guid % 256 == 0)) [
    | inl e' ↦
        rw (e, pack_guid, e')
          (pack_guid_lem n (i + 1) (guid / 256) mark bytes (omega (arith, pow-suc 256 n))
              (omega (arith, pow-add_one i))
            ∙ pair_eq
                (ap (λ (t : ℕ). mark + t)
                  (shifted (marks n (guid / 256)) i
                    ∙ ap (λ (t : ℕ). t * 2 ^ i) (sym (marks-skip n guid e'))))
                (ap (λ b. bytes ++ b) (sym (present-skip n guid e'))))
    | inr e' ↦
        let o : bit_or mark (2 ^ i) ≡ mark + 2 ^ i = bit_or-add i mark 1 (2 ^ i) k (omega arith) in
        rw (e, pack_guid, e', o)
          (pack_guid_lem n (i + 1) (guid / 256) (mark + 2 ^ i) (bytes ++ (guid % 256 ∷ []))
              (omega (arith, pow-suc 256 n)) (omega (arith, pow-add_one i))
            ∙ pair_eq
                (omega (
                  arith,
                  shifted (marks n (guid / 256)) i,
                  added (marks n (guid / 256)) i,
                  ap (λ (t : ℕ). t * 2 ^ i) (marks-keep n guid e'),
                ))
                (append_assoc bytes (guid % 256 ∷ []) (present n (guid / 256))
                  ∙ ap (λ b. bytes ++ b) (sym (present-keep n guid e'))))
  ]
]
