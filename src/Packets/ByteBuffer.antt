-- ===== src/Packets/ByteBuffer.antt =====
-- class ByteBuffer (server/shared/Packets/ByteBuffer.h): bytes with a reading and a writing place.
pub mod Appending
pub mod RoundTrip
pub mod Guid
pub mod Marks
pub mod PackedTrip
pub mod Dates
pub mod Maps
pub mod Texts
use landlord.Prelude.{
  ℕ, zero, suc, ◌+◌, ◌-◌, ◌*◌, ◌/◌, ◌%◌, ◌^◌, ◌≤◌, ◌<◌, min, ◌≡◌, refl, sym, ap, ◌∙◌, ◌≢◌, ◌↔◌, ◌⊎◌,
  inl, inr, Bool, true, false, not, ◌&&◌, ◌||◌, Option, none, some, List, [], ◌∷◌, ◌++◌, map, arith,
  ltb, leb, ◌==◌, if◌then◌else◌, ==_iff, Bool-cases, Option-cases, bind, length, get_elem?, set,
  take, drop, replicate, length-append, length-set, take-append-drop, length-take, length-drop,
  length-replicate, get_elem?_total, get_elem?-set_self, get_elem?-set_ne, one_if_eq, count,
  count-append, count-set, u32_mod, add32, sub32, minus_one, is_negative, is_positive, signed_key,
  max32,
}
use landlord.Packets.Bytes.{le_bytes, from_le}

-- The exceptions, `other` for the root of their hierarchy, and a failed ASSERT.
pub data Error : Type 0 where
  position source other assertion : Error

pub data Result (A : Type 0) : Type 0 where
  ok : A → Result A
  err : Error → Result A

infixl 5 ◌>>=◌
abbrev pub ◌>>=◌ : {A B : Type 0} → Result A → (A → Result B) → Result B
ok a >>= f = f a
err e >>= f = err e

pub record ByteBuffer : Type 0 where
  pub rpos : ℕ
  pub wpos : ℕ
  pub storage : List ℕ

-- `size_t` addition.
abbrev pub add_size : ℕ → ℕ → ℕ
add_size a b = (a + b) % 2 ^ 64

abbrev pub size : ByteBuffer → ℕ
size buf = length buf.storage

-- ByteBuffer::ByteBuffer and clear
abbrev pub empty_buffer : ByteBuffer
empty_buffer = record { rpos = 0; wpos = 0; storage = [] }

-- `std::vector::resize`, filled up with zeros.
abbrev pub vector_resize : ℕ → List ℕ → List ℕ
vector_resize n xs = take n xs ++ replicate (n - length xs) 0

-- `memcpy` of `src` to the place `pos` of an array that has room for it.
abbrev pub copy_to : ℕ → List ℕ → List ℕ → List ℕ
copy_to pos src xs = take pos xs ++ (src ++ drop (pos + length src) xs)

-- ByteBuffer::resize
resize : ℕ → ByteBuffer → ByteBuffer
resize n buf = record { rpos = 0; wpos = n; storage = vector_resize n buf.storage }

-- ByteBuffer::append of bytes
unfoldable pub append : List ℕ → ByteBuffer → Result ByteBuffer
append src buf =
    if length src == 0
    then err source
    else if ltb (size buf) 10000000
    then (let end = add_size buf.wpos (length src) in
        let room = if ltb (size buf) end then vector_resize end buf.storage else buf.storage in
        ok (record buf { wpos = end; storage = copy_to buf.wpos src room }))
    else err assertion

-- ByteBuffer::append<T> and `<<` of a number of `w` bytes
pub append_number : ℕ → ℕ → ByteBuffer → Result ByteBuffer
append_number w v buf = append (le_bytes w v) buf

-- ByteBuffer::put
pub put : ℕ → List ℕ → ByteBuffer → Result ByteBuffer
put pos src buf =
    if ltb (size buf) (add_size pos (length src))
    then err position
    else ok (record buf { storage = copy_to pos src buf.storage })

-- ByteBuffer::read_skip
unfoldable pub read_skip : ℕ → ByteBuffer → Result ByteBuffer
read_skip skip buf =
    if ltb (size buf) (add_size buf.rpos skip)
    then err position
    else ok (record buf { rpos = add_size buf.rpos skip })

-- ByteBuffer::peek, and read at a place: `w` is the size of the type.
unfoldable pub read_at : ℕ → ℕ → ByteBuffer → Result ℕ
read_at w pos buf =
    if ltb (size buf) (add_size pos w)
    then err position
    else ok (from_le (take w (drop pos buf.storage)))

-- ByteBuffer::read<T> and `>>` of a number of `w` bytes
unfoldable pub read_number : ℕ → ByteBuffer → Result (ℕ × ByteBuffer)
unfolding read_at
read_number w buf =
    read_at w buf.rpos buf >>= λ v. ok (v, record buf { rpos = add_size buf.rpos w })

-- ByteBuffer::read of `len` bytes
unfoldable pub read_bytes : ℕ → ByteBuffer → Result (List ℕ × ByteBuffer)
read_bytes len buf =
    if ltb (size buf) (add_size buf.rpos len)
    then err position
    else ok (take len (drop buf.rpos buf.storage), record buf { rpos = add_size buf.rpos len })

-- `<<` of a string: its bytes, if there are any, and a zero.
append_string : List ℕ → ByteBuffer → Result ByteBuffer
unfolding append
append_string text buf =
    (if length text == 0 then ok buf else append text buf) >>= λ b. append (0 ∷ []) b

-- `>>` of a string: bytes up to a zero or to the end of the buffer. The loop takes the bytes that are
-- left as its fuel.
read_chars : ℕ → ByteBuffer → Result (List ℕ × ByteBuffer)
unfolding read_number
read_chars zero buf = ok ([], buf)
read_chars (suc left) buf =
    if ltb buf.rpos (size buf)
    then (read_number 1 buf >>= λ r. elim r.0 [
      | zero ↦ ok ([], r.1)
      | suc n ↦ read_chars left r.1 >>= λ s. ok (suc n ∷ s.0, s.1)
    ])
    else ok ([], buf)

read_string : ByteBuffer → Result (List ℕ × ByteBuffer)
unfolding read_chars
read_string buf = read_chars (size buf - buf.rpos) buf

-- `<<` of a vector or list of uint32: the number of its elements, then each.
pub append_all : List ℕ → ByteBuffer → Result ByteBuffer
unfolding append_number
append_all [] buf = ok buf
append_all (v ∷ vs) buf = append_number 4 v buf >>= append_all vs

pub append_vector : List ℕ → ByteBuffer → Result ByteBuffer
unfolding append_all
append_vector vs buf = append_number 4 (length vs % u32_mod) buf >>= append_all vs

-- `>>` of a vector or list of uint32.
pub read_all : ℕ → ByteBuffer → Result (List ℕ × ByteBuffer)
unfolding read_number
read_all zero buf = ok ([], buf)
read_all (suc n) buf = read_number 4 buf >>= λ r. read_all n r.1 >>= λ s. ok (r.0 ∷ s.0, s.1)

pub read_vector : ByteBuffer → Result (List ℕ × ByteBuffer)
unfolding read_all
read_vector buf = read_number 4 buf >>= λ r. read_all r.0 r.1
