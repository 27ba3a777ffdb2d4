-- ===== src/Packets/ByteBuffer/RoundTrip.antt =====
-- What is appended to a ByteBuffer (server/shared/Packets/ByteBuffer.h) is read back.
use landlord.Prelude.{
  ℕ, zero, suc, ◌+◌, ◌*◌, ◌%◌, ◌^◌, ◌≤◌, ◌<◌, ◌≡◌, refl, sym, ap, ◌∙◌, false, List, [], ◌∷◌, ◌++◌,
  arith, ltb, length, take, drop, length-append, length-drop, u32_mod,
}
use mathlib.Core.List.{append_assoc, append-nil}
use landlord.Packets.Bytes.{le_bytes, length-le_bytes, from_le-le_bytes}
use landlord.Packets.ByteBuffer.{
  ok, ByteBuffer, add_size, size, empty_buffer, append, append_number, read_number, read_bytes,
  append_all, append_vector, read_all, read_vector,
}
use landlord.Packets.ByteBuffer.Appending.{
  IsOpen, take_all, drop_all, drop_long, unread, append-unread,
}

drop-drop : (n m : ℕ) (xs : List ℕ) → drop m (drop n xs) ≡ drop (n + m) xs
drop-drop zero m xs = let e : zero + m ≡ m = omega arith in rw e
drop-drop (suc n) m [] = drop_long m [] (omega arith) ∙ sym (drop_long (suc n + m) [] (omega arith))
drop-drop (suc n) m (x ∷ xs) =
    let e : suc n + m ≡ suc (n + m) = omega arith in rw e (drop-drop n m xs)

-- Where a text is the next to be read, it lies inside the buffer.
in_buffer :
    (text rest : List ℕ) (buf : ByteBuffer)
    → size buf < 2 ^ 63
    → buf.rpos ≤ size buf
    → unread buf ≡ text ++ rest
    → (add_size buf.rpos (length text) ≡ buf.rpos + length text)
      × (buf.rpos + length text ≤ size buf)
in_buffer text rest buf small in_front e =
    omega (arith, length-drop buf.rpos buf.storage, ap length e, length-append text rest)

-- The buffer after a text has been read.
abbrev advanced : ℕ → ByteBuffer → ByteBuffer
advanced n buf = record buf { rpos = buf.rpos + n }

unread-advanced :
    (text rest : List ℕ) (buf : ByteBuffer)
    → unread buf ≡ text ++ rest
    → unread (advanced (length text) buf) ≡ rest
unread-advanced text rest buf e =
    sym (drop-drop buf.rpos (length text) buf.storage)
    ∙ ap (drop (length text)) e
    ∙ drop_all text rest

-- Reading as many bytes as a text has, from a buffer whose unread bytes begin with that text, gives
-- the text and leaves the rest.
pub read_bytes-unread :
    (text rest : List ℕ) (buf : ByteBuffer)
    → size buf < 2 ^ 63
    → buf.rpos ≤ size buf
    → unread buf ≡ text ++ rest
    → (b : ByteBuffer) × (read_bytes (length text) buf ≡ ok (text, b))
      × (unread b ≡ rest)
      × (b.rpos ≤ size b)
      × (b.storage ≡ buf.storage)
unfolding read_bytes
read_bytes-unread text rest buf small in_front e =
    let (sum, inside) = in_buffer text rest buf small in_front e in
    let fits : ltb (size buf) (buf.rpos + length text) ≡ false = ground arith in
    (
      advanced (length text) buf,
      rw (sum, fits, e, take_all text rest),
      unread-advanced text rest buf e,
      inside,
      refl,
    )

-- So for a number of `w` bytes.
pub read_number-unread :
    (w v : ℕ) (rest : List ℕ) (buf : ByteBuffer)
    → size buf < 2 ^ 63
    → buf.rpos ≤ size buf
    → v < 256 ^ w
    → unread buf ≡ le_bytes w v ++ rest
    → (b : ByteBuffer) × (read_number w buf ≡ ok (v, b))
      × (unread b ≡ rest)
      × (b.rpos ≤ size b)
      × (b.storage ≡ buf.storage)
unfolding read_number
read_number-unread w v rest buf small in_front fits e =
    let (sum, inside) = in_buffer (le_bytes w v) rest buf small in_front e in
    let len : length (le_bytes w v) ≡ w = length-le_bytes w v in
    let sum' : add_size buf.rpos w ≡ buf.rpos + w = omega arith in
    let room : ltb (size buf) (buf.rpos + w) ≡ false = ground arith in
    let taken : take w (unread buf) ≡ le_bytes w v =
      rw e (ap (λ k. take k (le_bytes w v ++ rest)) (sym len) ∙ take_all (le_bytes w v) rest) in
    (
      advanced w buf,
      rw (sum', room, taken, from_le-le_bytes w v fits),
      ap (λ k. unread (advanced k buf)) (sym len) ∙ unread-advanced (le_bytes w v) rest buf e,
      omega arith,
      refl,
    )

-- All numbers fit into four bytes.
abbrev pub AllWords : List ℕ → Type 0
AllWords [] = Unit {0}
AllWords (v ∷ vs) = (v < u32_mod) × AllWords vs

-- The bytes of a list of uint32.
abbrev pub word_bytes : List ℕ → List ℕ
word_bytes [] = []
word_bytes (v ∷ vs) = le_bytes 4 v ++ word_bytes vs

read_all-unread :
    (vs rest : List ℕ) (buf : ByteBuffer)
    → size buf < 2 ^ 63
    → buf.rpos ≤ size buf
    → AllWords vs
    → unread buf ≡ word_bytes vs ++ rest
    → (b : ByteBuffer) × (read_all (length vs) buf ≡ ok (vs, b)) × (unread b ≡ rest)
unfolding read_all
read_all-unread [] rest buf small in_front fit e = (buf, refl, e)
read_all-unread (v ∷ vs) rest buf small in_front fit e =
    let e' : unread buf ≡ le_bytes 4 v ++ (word_bytes vs ++ rest) =
      e ∙ append_assoc (le_bytes 4 v) (word_bytes vs) rest in
    let (b, r1, u1, f1, s1) =
      read_number-unread 4 v (word_bytes vs ++ rest) buf small in_front fit.0 e' in
    let small' : size b < 2 ^ 63 = rw s1 small in
    let (c, r2, u2) = read_all-unread vs rest b small' f1 fit.1 u1 in (c, rw (r1, r2), u2)

pub append_all-unread :
    (vs : List ℕ) (buf : ByteBuffer)
    → IsOpen buf
    → size buf + 4 * length vs ≤ 10000000
    → (b : ByteBuffer) × (append_all vs buf ≡ ok b)
      × IsOpen b
      × (unread b ≡ unread buf ++ word_bytes vs)
      × (size b ≡ size buf + 4 * length vs)
unfolding append_all append_number
append_all-unread [] buf v room = (buf, refl, v, sym (append-nil (unread buf)), omega arith)
append_all-unread (w ∷ ws) buf v room =
    let len : length (le_bytes 4 w) ≡ 4 = length-le_bytes 4 w in
    let (b, a1, o1, u1, r1, s1) =
      append-unread (le_bytes 4 w) buf v (omega arith) (omega arith) (omega arith) in
    let (c, a2, o2, u2, s2) = append_all-unread ws b o1 (omega arith) in
    (
      c,
      rw (a1, a2),
      o2,
      u2
          ∙ ap (λ xs. xs ++ word_bytes ws) u1
          ∙ append_assoc (unread buf) (le_bytes 4 w) (word_bytes ws),
      omega arith,
    )

read_vector-unread :
    (vs rest : List ℕ) (buf : ByteBuffer)
    → size buf < 2 ^ 63
    → buf.rpos ≤ size buf
    → length vs < u32_mod
    → AllWords vs
    → unread buf ≡ le_bytes 4 (length vs) ++ (word_bytes vs ++ rest)
    → (c : ByteBuffer) × (read_vector buf ≡ ok (vs, c)) × (unread c ≡ rest)
unfolding read_vector
read_vector-unread vs rest buf small in_front short fit e =
    let (b, r1, u1, f1, s1) =
      read_number-unread 4 (length vs) (word_bytes vs ++ rest) buf small in_front short e in
    let small' : size b < 2 ^ 63 = rw s1 small in
    let (c, r2, u2) = read_all-unread vs rest b small' f1 fit u1 in (c, rw (r1, r2), u2)

append_vector_steps :
    (vs : List ℕ) (a b c : ByteBuffer)
    → length vs < u32_mod
    → append (le_bytes 4 (length vs)) a ≡ ok b
    → append_all vs b ≡ ok c
    → append_vector vs a ≡ ok c
unfolding append_vector append_number
append_vector_steps vs a b c short h k =
    let n : length vs % u32_mod ≡ length vs = omega arith in rw (n, h) k

-- A vector of uint32 that is put into an empty buffer comes back whole, if it takes at most ten
-- million bytes; nothing is left to be read.
pub read_vector-append_vector :
    (vs : List ℕ)
    → 4 + 4 * length vs ≤ 10000000
    → AllWords vs
    → (b : ByteBuffer) × (append_vector vs empty_buffer ≡ ok b)
      × ((c : ByteBuffer) × (read_vector b ≡ ok (vs, c)) × (unread c ≡ []))
read_vector-append_vector vs room fit =
    let len : length (le_bytes 4 (length vs)) ≡ 4 = length-le_bytes 4 (length vs) in
    let v : IsOpen empty_buffer = omega arith in
    let (b, a1, o1, u1, r1, s1) =
      append-unread (le_bytes 4 (length vs)) empty_buffer v (omega arith) (omega arith)
        (omega arith) in
    let (c, a2, o2, u2, s2) = append_all-unread vs b o1 (omega arith) in
    let e : unread c ≡ le_bytes 4 (length vs) ++ (word_bytes vs ++ []) =
      u2
      ∙ ap (λ xs. xs ++ word_bytes vs) u1
      ∙ ap (λ xs. le_bytes 4 (length vs) ++ xs) (sym (append-nil (word_bytes vs))) in
    let (d, r2, u3) = read_vector-unread vs [] c (omega arith) o2.in_front (omega arith) fit e in
    (c, append_vector_steps vs empty_buffer b c (omega arith) a1 a2, (d, r2, u3))
