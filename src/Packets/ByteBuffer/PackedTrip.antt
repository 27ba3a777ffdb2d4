-- ===== src/Packets/ByteBuffer/PackedTrip.antt =====
-- Packed GUIDs (server/shared/Packets/ByteBuffer.h, appendPackGUID and readPackGUID) come back.
use native.Mathlib.Nat.{pow-suc, mul_comm, mul_assoc, add-mul, mul-add}
use landlord.Prelude.{
  ℕ, zero, suc, ◌+◌, ◌*◌, ◌/◌, ◌%◌, ◌^◌, ◌≤◌, ◌<◌, ◌≡◌, refl, sym, ap, ◌∙◌, true, false, List, [],
  ◌∷◌, ◌++◌, arith, ◌==◌, ==_iff, Bool-cases, inl, inr,
}
use Prim.Native.Nat.{bit_and, bit_or}
use mathlib.Core.List.{append-nil}
use landlord.Packets.ByteBuffer.Marks.{
  marks, present, marks-lt, length-present, pair_eq, pow-add_one, pack_guid_lem, marks-skip,
  marks-keep, present-skip, present-keep,
}
use landlord.Packets.Bits.{bit_or-add, bit_and-digit}
use landlord.Packets.Bytes.{le_bytes}
use landlord.Packets.ByteBuffer.{ok, ByteBuffer, size, append, read_number}
use landlord.Packets.ByteBuffer.Guid.{append_pack_guid, unpack_guid, read_pack_guid}
use landlord.Packets.ByteBuffer.Appending.{IsOpen, unread, append-unread}
use landlord.Packets.ByteBuffer.RoundTrip.{read_number-unread}

byte_fits : (guid v p : ℕ) → guid < p → v < 256 → guid + v * p < p * 256
byte_fits guid v p h k = grind arith

-- The lowest byte and the others make the number.
bytes_join : (t p q : ℕ) → q ≡ p * 256 → t % 256 * p + t / 256 * q ≡ t * p
bytes_join t p q e =
    let s : t ≡ t % 256 + t / 256 * 256 = omega arith in
    omega (
      arith,
      ap (λ (x : ℕ). x * p) s,
      add-mul (t % 256) (t / 256 * 256) p,
      mul_assoc (t / 256) 256 p,
      mul_comm p 256,
      ap (λ (x : ℕ). t / 256 * x) e,
    )

pow_pos : (i : ℕ) → 0 < 2 ^ i
pow_pos zero = omega arith
pow_pos (suc i) = omega (arith, pow_pos i, pow-suc 2 i)

pow_byte : (i : ℕ) → 2 ^ (8 * (i + 1)) ≡ 2 ^ (8 * i) * 256
pow_byte i =
    let k : ℕ = 8 * i in
    let e : 8 * (i + 1) ≡ k + 1 + 1 + 1 + 1 + 1 + 1 + 1 + 1 = omega arith in
    ap (λ (t : ℕ). 2 ^ t) e
    ∙ omega (
      arith,
      pow-add_one k,
      pow-add_one (k + 1),
      pow-add_one (k + 1 + 1),
      pow-add_one (k + 1 + 1 + 1),
      pow-add_one (k + 1 + 1 + 1 + 1),
      pow-add_one (k + 1 + 1 + 1 + 1 + 1),
      pow-add_one (k + 1 + 1 + 1 + 1 + 1 + 1),
      pow-add_one (k + 1 + 1 + 1 + 1 + 1 + 1 + 1),
    )

module _ (n i target mark low : ℕ) (below : low < 2 ^ i)
    (em : mark ≡ low + 2 ^ i * marks (suc n) target) where
  higher : (m : ℕ) → 2 ^ (i + 1) * m ≡ 2 ^ i * (2 * m)
  higher m = ap (λ (t : ℕ). t * m) (pow-add_one i) ∙ mul_assoc (2 ^ i) 2 m

  absent_bit : (target % 256 == 0) ≡ true → (bit_and mark (2 ^ i) == 0) ≡ true
  absent_bit e =
      let m : ℕ = marks n (target / 256) in
      let k : marks (suc n) target ≡ 0 + 2 * m = omega (arith, marks-skip n target e) in
      let d : bit_and mark (2 ^ i) ≡ 0 * 2 ^ i =
        bit_and-digit i low 0 m mark below (omega arith) (em ∙ ap (λ (t : ℕ). low + 2 ^ i * t) k) in
      (==_iff _ 0).1 (omega (arith, d))

  absent_rest : (target % 256 == 0) ≡ true → mark ≡ low + 2 ^ (i + 1) * marks n (target / 256)
  absent_rest e = omega (
    arith,
    em,
    ap (λ (t : ℕ). 2 ^ i * t) (marks-skip n target e),
    higher (marks n (target / 256)),
  )

  present_bit : (target % 256 == 0) ≡ false → (bit_and mark (2 ^ i) == 0) ≡ false
  present_bit e =
      let m : ℕ = marks n (target / 256) in
      let d : bit_and mark (2 ^ i) ≡ 1 * 2 ^ i =
        bit_and-digit i low 1 m mark below (omega arith)
          (em ∙ ap (λ (t : ℕ). low + 2 ^ i * t) (marks-keep n target e)) in
      let pos : 0 < bit_and mark (2 ^ i) = omega (arith, d, pow_pos i) in ground arith

  present_rest :
      (target % 256 == 0) ≡ false → mark ≡ low + 2 ^ i + 2 ^ (i + 1) * marks n (target / 256)
  present_rest e = omega (
    arith,
    em,
    ap (λ (t : ℕ). 2 ^ i * t) (marks-keep n target e),
    mul-add (2 ^ i) 1 (2 * marks n (target / 256)),
    higher (marks n (target / 256)),
  )

single : (m : ℕ) → m < 256 → le_bytes 1 m ≡ m ∷ []
unfolding le_bytes
single m h = let e : m % 256 ≡ m = omega arith in rw e

-- One round of readPackGUID, for a bit that is set and for one that is not.
module _ (n i mark guid : ℕ) (buf : ByteBuffer) where
  unpack-absent :
      (bit_and mark (2 ^ i) == 0) ≡ true
      → unpack_guid (suc n) i mark guid buf ≡ unpack_guid n (i + 1) mark guid buf
  unfolding unpack_guid
  unpack-absent z = rw (z, unpack_guid)

  unpack-present :
      (v guid' : ℕ) (b : ByteBuffer)
      → (bit_and mark (2 ^ i) == 0) ≡ false
      → read_number 1 buf ≡ ok (v, b)
      → bit_or guid (v * 2 ^ (8 * i)) ≡ guid'
      → unpack_guid (suc n) i mark guid buf ≡ unpack_guid n (i + 1) mark guid' b
  unfolding unpack_guid
  unpack-present v guid' b z r o = rw (z, unpack_guid, r, o)

-- What the loop of readPackGUID makes of the bytes from `i` on; `low` are the bits of the mark
-- before them.
unpack_guid_lem :
    (n i target mark guid low : ℕ) (rest : List ℕ) (buf : ByteBuffer)
    → size buf < 2 ^ 63
    → buf.rpos ≤ size buf
    → target < 256 ^ n
    → low < 2 ^ i
    → guid < 2 ^ (8 * i)
    → mark ≡ low + 2 ^ i * marks n target
    → unread buf ≡ present n target ++ rest
    → (b : ByteBuffer) × (unpack_guid n i mark guid buf ≡ ok (guid + target * 2 ^ (8 * i), b))
      × (unread b ≡ rest)
unfolding unpack_guid
unpack_guid_lem zero i target mark guid low rest buf small in_front th lh gh em eu =
    let nil : target ≡ 0 = omega arith in
    let z : target * 2 ^ (8 * i) ≡ 0 = omega (arith, ap (λ (t : ℕ). t * 2 ^ (8 * i)) nil) in
    (buf, ap (λ (g : ℕ). ok (g, buf)) (omega (arith, z)), unfold present in eu)
unpack_guid_lem (suc n) i target mark guid low rest buf small in_front th lh gh em eu =
    let p : ℕ = 2 ^ (8 * i) in
    let join : target % 256 * p + target / 256 * 2 ^ (8 * (i + 1)) ≡ target * p =
      bytes_join target p (2 ^ (8 * (i + 1))) (pow_byte i) in
    elim (Bool-cases (target % 256 == 0)) [
      | inl e ↦
          let zero_byte : target % 256 * p ≡ 0 =
            omega (arith, ap (λ (t : ℕ). t * p) ((==_iff (target % 256) 0).0 e)) in
          let (b, run, left) =
            unpack_guid_lem n (i + 1) (target / 256) mark guid low rest buf small in_front
              (omega (arith, pow-suc 256 n)) (omega (arith, pow-add_one i))
              (omega (arith, pow_byte i)) (absent_rest n i target mark low lh em e)
              (eu ∙ ap (λ l. l ++ rest) (present-skip n target e)) in
          (
            b,
            unpack-absent n i mark guid buf (absent_bit n i target mark low lh em e)
                ∙ (run ∙ ap (λ (g : ℕ). ok (g, b)) (omega (arith, join, zero_byte))),
            left,
          )
      | inr e ↦
          let v : ℕ = target % 256 in
          let eu' : unread buf ≡ le_bytes 1 v ++ (present n (target / 256) ++ rest) =
            eu
            ∙ ap (λ l. l ++ rest) (present-keep n target e)
            ∙ ap (λ l. l ++ (present n (target / 256) ++ rest)) (sym (single v (omega arith))) in
          let (b1, read1, unread1, front1, same1) =
            read_number-unread 1 v (present n (target / 256) ++ rest) buf small in_front
              (omega arith) eu' in
          let small1 : size b1 < 2 ^ 63 = rw same1 small in
          let o : bit_or guid (v * p) ≡ guid + v * p = bit_or-add (8 * i) guid v (v * p) gh refl in
          let fit : guid + v * p < p * 256 = byte_fits guid v p gh (omega arith) in
          let (b, run, left) =
            unpack_guid_lem n (i + 1) (target / 256) mark (guid + v * p) (low + 2 ^ i) rest b1
              small1 front1 (omega (arith, pow-suc 256 n)) (omega (arith, pow-add_one i))
              (omega (arith, pow_byte i, fit)) (present_rest n i target mark low lh em e) unread1 in
          (
            b,
            unpack-present n i mark guid buf v (guid + v * p) b1
                  (present_bit n i target mark low lh em e) read1 o
                ∙ (run ∙ ap (λ (g : ℕ). ok (g, b)) (omega (arith, join))),
            left,
          )
    ]

append_pack_guid_lem :
    (guid : ℕ) (buf : ByteBuffer)
    → guid < 2 ^ 64
    → append_pack_guid guid buf ≡ append (marks 8 guid ∷ present 8 guid) buf
unfolding append_pack_guid
append_pack_guid_lem guid buf h =
    ap (λ r. append (r.0 ∷ r.1) buf)
      (pack_guid_lem 8 0 guid 0 [] (omega arith) (omega arith) ∙ pair_eq (omega arith) refl)

-- A packed GUID of 64 bits that is put into an open buffer with nothing left to be read and with
-- less than ten million bytes comes back; again nothing is left to be read.
pub read_pack_guid-append_pack_guid :
    (guid : ℕ) (buf : ByteBuffer)
    → guid < 2 ^ 64
    → IsOpen buf
    → size buf < 10000000
    → unread buf ≡ []
    → (b : ByteBuffer) × (append_pack_guid guid buf ≡ ok b)
      × ((c : ByteBuffer) × (read_pack_guid b ≡ ok (guid, c)) × (unread c ≡ []))
unfolding read_pack_guid
read_pack_guid-append_pack_guid guid buf h v room nothing =
    let src : List ℕ = marks 8 guid ∷ present 8 guid in
    let (b, ran, open_b, left, same, len) =
      append-unread src buf v (omega arith) (omega (arith, length-present 8 guid)) room in
    let m : marks 8 guid < 256 = omega (arith, marks-lt 8 guid) in
    let small : size b < 2 ^ 63 = omega (arith, len, length-present 8 guid) in
    let one : marks 8 guid % 256 ≡ marks 8 guid = omega arith in
    let e : unread b ≡ le_bytes 1 (marks 8 guid) ++ (present 8 guid ++ []) =
      left
      ∙ ap (λ l. l ++ src) nothing
      ∙ ap (λ l. l ++ present 8 guid) (sym (single (marks 8 guid) m))
      ∙ ap (λ l. le_bytes 1 (marks 8 guid) ++ l) (sym (append-nil (present 8 guid))) in
    let (b1, read1, unread1, front1, same1) =
      read_number-unread 1 (marks 8 guid) (present 8 guid ++ []) b small open_b.in_front m e in
    let (c, run, done) =
      unpack_guid_lem 8 0 guid (marks 8 guid) 0 0 [] b1 (rw same1 small) front1 (omega arith)
        (omega arith) (omega arith) (omega arith) unread1 in
    (
      b,
      append_pack_guid_lem guid buf h ∙ ran,
      (c, rw read1 (run ∙ ap (λ (g : ℕ). ok (g, c)) (omega arith)), done),
    )
