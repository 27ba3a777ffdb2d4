-- ===== src/Network/Writing.antt =====
-- The writing side: WorldSocket::AsyncWrite (server/game/Server/WorldSocket.cpp), Socket::WriteHandler
-- (server/shared/Networking/Socket.h) and ServerPktHeader (server/game/Server/Protocol).
use mathlib.Core.List.{append_assoc, append-nil}
use landlord.Prelude.{
  ℕ, ◌+◌, ◌/◌, ◌%◌, ◌^◌, ◌<◌, ◌≡◌, sym, ap, ◌∙◌, Bool, true, false, Option, none, some, List, [],
  ◌∷◌, ◌++◌, arith, if◌then◌else◌, bind, length,
}
use landlord.Packets.Bytes.{le_bytes}
use landlord.Network.Messages.{header_bytes}

-- ServerPktHeader: four numbers of 16 bits.
server_header : ℕ → ℕ → List ℕ
server_header size cmd =
    le_bytes 2 (size % 2 ^ 16)
    ++ (le_bytes 2 (size / 2 ^ 16 % 2 ^ 16)
        ++ (le_bytes 2 (cmd % 2 ^ 16) ++ le_bytes 2 (cmd / 2 ^ 16 % 2 ^ 16)))

-- The bytes of a WorldPacketBuffer, with the size that AsyncWrite gives to the header.
pub frame : ℕ → List ℕ → List ℕ
unfolding server_header
frame opcode contents = server_header ((length contents + 8) % 2 ^ 32) opcode ++ contents

-- `started` are the buffers handed to the operating system so far, the oldest first.
pub record Writer : Type 0 where
  pub closed : Bool
  pub closing : Bool
  pub write_queue : List (List ℕ)
  pub started : List (List ℕ)

abbrev pub new_writer : Writer
new_writer = record { closed = false; closing = false; write_queue = []; started = [] }

-- `AsyncWrite(_writeQueue.front())` of Socket.
abbrev start_write : List ℕ → Writer → Writer
start_write bytes w = record w { started = w.started ++ (bytes ∷ []) }

-- WorldSocket::AsyncWrite, under its lock.
unfoldable pub async_write : ℕ → List ℕ → Writer → Writer
unfolding frame
async_write opcode contents w =
    if w.closed
    then w
    else (let bytes = frame opcode contents in
        let w' = record w { write_queue = w.write_queue ++ (bytes ∷ []) } in
        elim w.write_queue [ [] ↦ start_write bytes w' | _ ∷ _ ↦ w' ])

-- Socket::WriteHandler without an error; `pop` of an empty queue is a fault.
unfoldable pub write_handler : Writer → Option Writer
write_handler w = elim w.write_queue [
  | [] ↦ none
  | _ ∷ [] ↦ some (record w { write_queue = []; closed = if w.closing then true else w.closed })
  | _ ∷ q ∷ qs ↦ some (start_write q (record w { write_queue = q ∷ qs }))
]

-- Socket::WriteHandler with an error.
abbrev write_failed : Writer → Writer
write_failed w = record w { closed = true }

pub data Event : Type 0 where
  send : ℕ → List ℕ → Event
  wrote : Event

write_step : Event → Writer → Option Writer
unfolding async_write write_handler
write_step (send opcode contents) w = some (async_write opcode contents w)
write_step wrote w = write_handler w

unfoldable pub write_steps : List Event → Writer → Option Writer
unfolding write_step
write_steps [] w = some w
write_steps (e ∷ es) w = bind (write_step e w) (write_steps es)

-- The buffers of the packets that are sent, in the order of the calls.
pub frames : List Event → List (List ℕ)
unfolding frame
frames [] = []
frames (send opcode contents ∷ es) = frame opcode contents ∷ frames es
frames (wrote ∷ es) = frames es

-- What is in the queue behind the buffer that is being written.
abbrev pub waiting : List (List ℕ) → List (List ℕ)
waiting [] = []
waiting (q ∷ qs) = qs

abbrev open_writer : List (List ℕ) → List (List ℕ) → Writer
open_writer queue started = record {
  closed = false;
  closing = false;
  write_queue = queue;
  started = started;
}

in_order :
    (es : List Event) (q st : List (List ℕ)) (w : Writer)
    → write_steps es (open_writer q st) ≡ some w
    → w.started ++ waiting w.write_queue ≡ (st ++ waiting q) ++ frames es
unfolding write_steps async_write write_handler frames
in_order [] q st w e =
    sym
      (ap (λ o. elim o [ none ↦ st ++ waiting q | some x ↦ x.started ++ waiting x.write_queue ]) e)
    ∙ sym (append-nil (st ++ waiting q))
in_order (send opcode contents ∷ es) [] st w e =
    let f = frame opcode contents in
    in_order es (f ∷ []) (st ++ (f ∷ [])) w e ∙ simp (append_assoc, append-nil)
in_order (send opcode contents ∷ es) (a ∷ qs) st w e =
    in_order es (a ∷ (qs ++ (frame opcode contents ∷ []))) st w e ∙ simp (append_assoc)
in_order (wrote ∷ es) [] st w e = ground arith
in_order (wrote ∷ es) (a ∷ []) st w e = in_order es [] st w e
in_order (wrote ∷ es) (a ∷ b ∷ qs) st w e =
    in_order es (b ∷ qs) (st ++ (b ∷ [])) w e ∙ simp (append_assoc)

-- Along any sequence of AsyncWrite calls and of completed writes on a new socket, the buffers handed
-- to the operating system, followed by those that wait behind the one that is being written, are
-- the buffers of the packets in the order of the calls: none is lost, doubled or overtaken.
pub write_steps-in_order :
    (es : List Event) (w : Writer)
    → write_steps es new_writer ≡ some w
    → w.started ++ waiting w.write_queue ≡ frames es
write_steps-in_order es w e = in_order es [] [] w e

halves : (v : ℕ) → le_bytes 2 (v % 2 ^ 16) ++ le_bytes 2 (v / 2 ^ 16 % 2 ^ 16) ≡ le_bytes 4 v
unfolding le_bytes
halves v =
    let b0 : v % 2 ^ 16 % 256 ≡ v % 256 = omega arith in
    let b1 : v % 2 ^ 16 / 256 % 256 ≡ v / 256 % 256 = omega arith in
    let b2 : v / 2 ^ 16 % 2 ^ 16 % 256 ≡ v / 256 / 256 % 256 = omega arith in
    let b3 : v / 2 ^ 16 % 2 ^ 16 / 256 % 256 ≡ v / 256 / 256 / 256 % 256 = omega arith in
    λ i. b0 i ∷ b1 i ∷ b2 i ∷ b3 i ∷ []

-- The header that the server writes has the layout of the one it reads: the size of the payload plus
-- 8 in four bytes, then the opcode in four bytes, the lowest byte first. The size fits into 32 bits.
frame-header :
    (opcode : ℕ) (contents : List ℕ)
    → length contents + 8 < 2 ^ 32
    → frame opcode contents ≡ header_bytes (length contents + 8) opcode ++ contents
unfolding frame server_header
frame-header opcode contents h =
    let n = length contents + 8 in
    let fits : n % 2 ^ 32 ≡ n = omega arith in
    ap (λ k. server_header k opcode ++ contents) fits
    ∙ ap (λ bs. bs ++ contents)
        (sym (
            append_assoc (le_bytes 2 (n % 2 ^ 16)) (le_bytes 2 (n / 2 ^ 16 % 2 ^ 16))
              (le_bytes 2 (opcode % 2 ^ 16) ++ le_bytes 2 (opcode / 2 ^ 16 % 2 ^ 16)))
          ∙ λ i. halves n i ++ halves opcode i)
