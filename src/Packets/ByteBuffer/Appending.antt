-- ===== src/Packets/ByteBuffer/Appending.antt =====
-- What appending leaves in a ByteBuffer (server/shared/Packets/ByteBuffer.h).
use landlord.Prelude.{
  ℕ, zero, suc, ◌+◌, ◌-◌, ◌^◌, ◌≤◌, ◌<◌, ◌≡◌, refl, ap, ◌≢◌, true, false, List, [], ◌∷◌, ◌++◌,
  arith, ltb, ◌==◌, length, take, drop, replicate, length-append, length-replicate,
}
use mathlib.Core.List.{append-nil}
use landlord.Packets.ByteBuffer.{ok, ByteBuffer, add_size, size, vector_resize, copy_to, append}

-- The buffer of a packet that is being written: the writing place is the end.
pub record IsOpen (buf : ByteBuffer) : Type 0 where
  pub at_end : buf.wpos ≡ size buf
  pub in_front : buf.rpos ≤ size buf

pub take_all : (xs ys : List ℕ) → take (length xs) (xs ++ ys) ≡ xs
take_all [] ys = refl
take_all (x ∷ xs) ys = ap (◌∷◌ x) (take_all xs ys)

pub drop_all : (xs ys : List ℕ) → drop (length xs) (xs ++ ys) ≡ ys
drop_all [] ys = refl
drop_all (x ∷ xs) ys = drop_all xs ys

pub take_long : (n : ℕ) (xs : List ℕ) → length xs ≤ n → take n xs ≡ xs
take_long zero [] h = refl
take_long zero (x ∷ xs) h = absurd (omega arith)
take_long (suc n) [] h = refl
take_long (suc n) (x ∷ xs) h = ap (◌∷◌ x) (take_long n xs (omega arith))

pub drop_long : (n : ℕ) (xs : List ℕ) → length xs ≤ n → drop n xs ≡ []
drop_long zero [] h = refl
drop_long zero (x ∷ xs) h = absurd (omega arith)
drop_long (suc n) [] h = refl
drop_long (suc n) (x ∷ xs) h = drop_long n xs (omega arith)

vector_resize-grow : (k : ℕ) (xs : List ℕ) → vector_resize (length xs + k) xs ≡ xs ++ replicate k 0
vector_resize-grow k xs =
    let e : length xs + k - length xs ≡ k = omega arith in
    rw (e, take_long (length xs + k) xs (omega arith))

-- At the end of the array a copy into the grown array is an append.
copy_to-end :
    (src xs : List ℕ)
    → copy_to (length xs) src (vector_resize (length xs + length src) xs) ≡ xs ++ src
copy_to-end src xs = rw (
  vector_resize-grow (length src) xs,
  take_all xs (replicate (length src) 0),
  drop_long (length xs + length src) (xs ++ replicate (length src) 0) bound,
  append-nil,
)
  where
    bound : length (xs ++ replicate (length src) 0) ≤ length xs + length src
    bound = omega (
      arith,
      length-append xs (replicate (length src) 0),
      length-replicate {A = ℕ} (length src) 0,
    )

-- What an open buffer becomes by an append.
abbrev pub extended : List ℕ → ByteBuffer → ByteBuffer
extended src buf = record buf { wpos = size buf + length src; storage = buf.storage ++ src }

-- Appending bytes to an open buffer puts them behind the others.
append-extended :
    (src : List ℕ) (buf : ByteBuffer)
    → IsOpen buf
    → length src ≢ 0
    → length src < 2 ^ 63
    → size buf < 10000000
    → append src buf ≡ ok (extended src buf)
unfolding append
append-extended src buf v ne small room =
    rw (e0, e1, v.at_end, e2, e3)
      (ap (λ xs. ok (record buf { wpos = size buf + length src; storage = xs }))
        (copy_to-end src buf.storage))
  where
    e0 : (length src == 0) ≡ false
    e0 = ground arith

    e1 : ltb (size buf) 10000000 ≡ true
    e1 = ground arith

    e2 : add_size (size buf) (length src) ≡ size buf + length src
    e2 = omega arith

    e3 : ltb (size buf) (size buf + length src) ≡ true
    e3 = ground arith

extended-IsOpen : (src : List ℕ) (buf : ByteBuffer) → IsOpen buf → IsOpen (extended src buf)
extended-IsOpen src buf v = record {
  at_end = omega (arith, length-append buf.storage src);
  in_front = omega (arith, v.in_front, length-append buf.storage src);
}

-- What is still to be read.
abbrev pub unread : ByteBuffer → List ℕ
unread buf = drop buf.rpos buf.storage

drop-append : (n : ℕ) (xs ys : List ℕ) → n ≤ length xs → drop n (xs ++ ys) ≡ drop n xs ++ ys
drop-append zero xs ys h = refl
drop-append (suc n) [] ys h = absurd (omega arith)
drop-append (suc n) (x ∷ xs) ys h = drop-append n xs ys (omega arith)

-- Bytes that are appended to an open buffer come last of what is still to be read; the buffer stays
-- open and the reading place stays.
pub append-unread :
    (src : List ℕ) (buf : ByteBuffer)
    → IsOpen buf
    → length src ≢ 0
    → length src < 2 ^ 63
    → size buf < 10000000
    → (b : ByteBuffer) × (append src buf ≡ ok b)
      × IsOpen b
      × (unread b ≡ unread buf ++ src)
      × (b.rpos ≡ buf.rpos)
      × (size b ≡ size buf + length src)
append-unread src buf v ne small room = (
  extended src buf,
  append-extended src buf v ne small room,
  extended-IsOpen src buf v,
  drop-append buf.rpos buf.storage src v.in_front,
  refl,
  length-append buf.storage src,
)
