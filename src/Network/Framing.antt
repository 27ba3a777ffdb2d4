-- ===== src/Network/Framing.antt =====
-- How WorldSocket cuts the stream of bytes into packets.
use landlord.Prelude.{
  ℕ, suc, ◌+◌, ◌%◌, ◌^◌, ◌<◌, ◌≡◌, refl, sym, ap, ◌∙◌, inl, inr, true, false, Option, none, some,
  List, [], ◌∷◌, ◌++◌, arith, if◌then◌else◌, Option-cases, bind, length, drop, length-append,
  length-drop,
}
use mathlib.Core.List.{append_assoc, append-nil}
use landlord.Packets.ByteBuffer.{copy_to}
use landlord.Packets.ByteBuffer.Appending.{take_all, drop_long}
use landlord.Network.MessageBuffer.{MessageBuffer, is_message_ready, receive, filled, full}
use landlord.Network.Socket.{Reading, Socket, complete, arrive_all, arrived}

-- The bytes of all pieces.
abbrev pub flatten : List (List ℕ) → List ℕ
flatten [] = []
flatten (c ∷ cs) = c ++ flatten cs

-- Every piece has a byte at least: an asynchronous read that ends without an error has read some.
abbrev pub NonEmpty : List (List ℕ) → Type 0
NonEmpty [] = Unit
NonEmpty (c ∷ cs) = (0 < length c) × NonEmpty cs

drop-behind : (xs ys : List ℕ) (k : ℕ) → drop (length xs + k) (xs ++ ys) ≡ drop k ys
drop-behind [] ys k = let e : 0 + k ≡ k = omega arith in ap (λ n. drop n ys) e
drop-behind (x ∷ xs) ys k =
    let e : suc (length xs) + k ≡ suc (length xs + k) = omega arith in
    ap (λ n. drop n (x ∷ (xs ++ ys))) e ∙ drop-behind xs ys k

full-ready : (xs : List ℕ) → is_message_ready (full xs) ≡ true
full-ready xs = ground arith

filled-waits : (xs rest : List ℕ) → 0 < length rest → is_message_ready (filled xs rest) ≡ false
filled-waits xs rest h = ground (arith, length-append xs rest)

receive-filled :
    (xs c rest : List ℕ)
    → length xs + length c < 2 ^ 63
    → receive c (filled xs rest) ≡ filled (xs ++ c) (drop (length c) rest)
unfolding receive
receive-filled xs c rest h =
    let w : (length xs + length c) % 2 ^ 64 ≡ length (xs ++ c) =
      omega (arith, length-append xs c) in
    let e : copy_to (length xs) c (xs ++ rest) ≡ (xs ++ c) ++ drop (length c) rest =
      rw (take_all xs rest, drop-behind xs rest (length c))
        (sym (append_assoc xs c (drop (length c) rest))) in
    λ i. record { wpos = w i; storage = e i }

receive-full :
    (xs c rest : List ℕ)
    → length xs + length c < 2 ^ 63
    → length c ≡ length rest
    → receive c (filled xs rest) ≡ full (xs ++ c)
receive-full xs c rest h e =
    receive-filled xs c rest h
    ∙ ap (λ ys. record { wpos = length (xs ++ c); storage = ys })
        (ap (λ r. (xs ++ c) ++ r) (drop_long (length c) rest (omega arith)) ∙ append-nil (xs ++ c))

bind-some : (o : Option Socket) → bind o some ≡ o
bind-some none = refl
bind-some (some s) = refl

pub arrive_all-append :
    (limit : ℕ) (bs cs : List (List ℕ)) (s : Socket)
    → arrive_all limit (bs ++ cs) s ≡ bind (arrive_all limit bs s) (arrive_all limit cs)
unfolding arrive_all
arrive_all-append limit [] cs s = refl
arrive_all-append limit (b ∷ bs) cs s = elim (Option-cases (complete limit (arrived b) s)) [
  | inl e ↦ rw e
  | inr (s', e) ↦ rw e (arrive_all-append limit bs cs s')
]

-- A buffer that is read in pieces: `put b r` is the socket with the buffer `b` while the read `r` is
-- under way, and `handle` is called once the buffer is full.
module _ (limit : ℕ) (put : MessageBuffer → Reading → Socket) (r : Reading)
    (handle : Socket → Option Socket)
    (step : (c : List ℕ) (b : MessageBuffer)
      → complete limit (arrived c) (put b r) ≡ (
          if is_message_ready (receive c b)
          then handle (put (receive c b) Reading.nothing)
          else some (put (receive c b) r))) where
  piece-last :
      (xs c rest : List ℕ)
      → length xs + length c < 2 ^ 63
      → length c ≡ length rest
      → complete limit (arrived c) (put (filled xs rest) r)
        ≡ handle (put (full (xs ++ c)) Reading.nothing)
  piece-last xs c rest h e =
      step c (filled xs rest) ∙ rw (receive-full xs c rest h e, full-ready (xs ++ c))

  piece-more :
      (xs c rest : List ℕ)
      → length xs + length rest < 2 ^ 63
      → length c < length rest
      → complete limit (arrived c) (put (filled xs rest) r)
        ≡ some (put (filled (xs ++ c) (drop (length c) rest)) r)
  piece-more xs c rest h e =
      step c (filled xs rest)
      ∙ rw (
        receive-filled xs c rest (omega arith),
        filled-waits (xs ++ c) (drop (length c) rest) (omega (arith, length-drop (length c) rest)),
      )

  pub pieces :
      (c : List ℕ) (cs : List (List ℕ)) (xs rest : List ℕ)
      → NonEmpty (c ∷ cs)
      → length (flatten (c ∷ cs)) ≡ length rest
      → length xs + length rest < 2 ^ 63
      → arrive_all limit (c ∷ cs) (put (filled xs rest) r)
        ≡ handle (put (full (xs ++ flatten (c ∷ cs))) Reading.nothing)
  unfolding arrive_all
  pieces c [] xs rest p e h =
      ap (λ o. bind o (arrive_all limit []))
        (piece-last xs c rest (omega (arith, e, length-append c []))
          (omega (arith, e, length-append c [])))
      ∙ bind-some (handle (put (full (xs ++ c)) Reading.nothing))
      ∙ ap (λ ys. handle (put (full (xs ++ ys)) Reading.nothing)) (sym (append-nil c))
  pieces c (d ∷ ds) xs rest p e h =
      let more : length c < length rest =
        omega (arith, e, p.1.0, length-append c (d ++ flatten ds), length-append d (flatten ds)) in
      ap (λ o. bind o (arrive_all limit (d ∷ ds))) (piece-more xs c rest h more)
      ∙ pieces d ds (xs ++ c) (drop (length c) rest) p.1
          (omega (arith, e, length-append c (d ++ flatten ds), length-drop (length c) rest))
          (omega (arith, length-append xs c, length-drop (length c) rest))
      ∙ ap (λ ys. handle (put (full ys) Reading.nothing)) (append_assoc xs c (d ++ flatten ds))
