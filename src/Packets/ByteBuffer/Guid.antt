-- ===== src/Packets/ByteBuffer/Guid.antt =====
-- Packed GUIDs, and the other ways to reach the bytes of a ByteBuffer
-- (server/shared/Packets/ByteBuffer.h).
use Prim.Native.Nat.{bit_and, bit_or}
use landlord.Prelude.{
  ℕ, zero, suc, ◌+◌, ◌*◌, ◌/◌, ◌%◌, ◌^◌, Bool, true, false, ◌&&◌, none, some, List, [], ◌∷◌, ◌++◌,
  ltb, ◌==◌, if◌then◌else◌, get_elem?, take,
}
use landlord.Packets.ByteBuffer.{
  position, other, Result, ok, err, ◌>>=◌, ByteBuffer, append, read_number,
}

-- The loop of appendPackGUID: the mark and the bytes that are not 0. A GUID has at most eight bytes.
unfoldable pub pack_guid : ℕ → ℕ → ℕ → ℕ → List ℕ → ℕ × List ℕ
pack_guid zero i guid mark bytes = (mark, bytes)
pack_guid (suc n) i guid mark bytes = elim (guid == 0) [
  | true ↦ (mark, bytes)
  | false ↦ elim (guid % 256 == 0) [
    | true ↦ pack_guid n (i + 1) (guid / 256) mark bytes
    | false ↦ pack_guid n (i + 1) (guid / 256) (bit_or mark (2 ^ i)) (bytes ++ (guid % 256 ∷ []))
  ]
]

-- ByteBuffer::appendPackGUID
unfoldable pub append_pack_guid : ℕ → ByteBuffer → Result ByteBuffer
unfolding pack_guid append
append_pack_guid guid buf = let (mark, bytes) = pack_guid 8 0 guid 0 [] in append (mark ∷ bytes) buf

-- The loop of readPackGUID over the `n` bits from `i` on.
unfoldable pub unpack_guid : ℕ → ℕ → ℕ → ℕ → ByteBuffer → Result (ℕ × ByteBuffer)
unfolding read_number
unpack_guid zero i guidmark guid buf = ok (guid, buf)
unpack_guid (suc n) i guidmark guid buf = elim (bit_and guidmark (2 ^ i) == 0) [
  | true ↦ unpack_guid n (i + 1) guidmark guid buf
  | false ↦ read_number 1 buf >>= λ r.
      unpack_guid n (i + 1) guidmark (bit_or guid (r.0 * 2 ^ (8 * i))) r.1
]

-- ByteBuffer::readPackGUID
unfoldable pub read_pack_guid : ByteBuffer → Result (ℕ × ByteBuffer)
unfolding unpack_guid
read_pack_guid buf = read_number 1 buf >>= λ r. unpack_guid 8 0 r.0 0 r.1

-- `>>` of a bool: whether the char is positive.
read_bool : ByteBuffer → Result (Bool × ByteBuffer)
unfolding read_number
read_bool buf = read_number 1 buf >>= λ r. ok (ltb 0 r.0 && ltb r.0 128, r.1)

-- `operator []`
byte_at : ℕ → ByteBuffer → Result ℕ
byte_at pos buf = elim (get_elem? buf.storage pos) [ none ↦ err position | some b ↦ ok b ]

-- rpos, wpos and rfinish
set_rpos : ℕ → ByteBuffer → ByteBuffer
set_rpos rpos buf = record buf { rpos = rpos }

set_wpos : ℕ → ByteBuffer → ByteBuffer
set_wpos wpos buf = record buf { wpos = wpos }

rfinish : ByteBuffer → ByteBuffer
rfinish buf = record buf { rpos = buf.wpos }

-- ByteBuffer::contents
contents : ByteBuffer → Result (List ℕ)
contents buf = elim buf.storage [ [] ↦ err other | b ∷ bytes ↦ ok (b ∷ bytes) ]

-- ByteBuffer::append of a ByteBuffer, whose writing place is not behind its end
append_buffer : ByteBuffer → ByteBuffer → Result ByteBuffer
unfolding contents append
append_buffer buffer buf =
    if buffer.wpos == 0
    then ok buf
    else contents buffer >>= λ bytes. append (take buffer.wpos bytes) buf
