-- ===== src/Network/Malformed.antt =====
-- Messages that WorldSocket does not survive (server/game/Server/WorldSocket.cpp).
use mathlib.Core.Path.{subst}
use landlord.Prelude.{
  ℕ, ◌+◌, ◌-◌, ◌%◌, ◌^◌, ◌≤◌, ◌<◌, ◌≡◌, sym, ◌∙◌, ◌≢◌, ◌⊎◌, inl, inr, true, false, none, some, List,
  arith, ltb, ◌==◌, if◌then◌else◌, length,
}
use landlord.Packets.ByteBuffer.{err, position, read_skip}
use landlord.Game.Types.Opcodes
use landlord.Network.MessageBuffer.{empty_message, grow}
use landlord.Network.Socket.{
  WorldPacket, Socket, header_size, header_cmd, dispatch, read_data_handler, async_read_data,
  read_header_handler, close_socket,
}
use landlord.Network.Messages.{read_header_handler-valid}

skip-short :
    (bytes : List ℕ)
    → length bytes < 8
    → read_skip 8 (record { rpos = 0; wpos = 0; storage = bytes }) ≡ err position
unfolding read_skip
skip-short bytes h = let short : ltb (length bytes) 8 ≡ true = ground arith in rw short

-- A body of fewer than eight bytes ends in an exception that nothing catches, whatever the opcode is
-- and whether or not somebody is logged in.
read_data_handler-short :
    (limit : ℕ) (s : Socket) → length s.data_buffer.storage < 8 → read_data_handler limit s ≡ none
unfolding read_data_handler
read_data_handler-short limit s h = rw (read_data_handler, skip-short s.data_buffer.storage h)

grow-too_far : (n : ℕ) → 2 ^ 63 ≤ n → n < 2 ^ 64 → grow n empty_message ≡ none
unfolding grow
grow-too_far n h1 h2 = let far : ltb ((0 + n) % 2 ^ 64) (2 ^ 63) ≡ false = ground arith in rw far

async_read_data-lost :
    (limit n : ℕ) (s : Socket)
    → s.closed ≡ false
    → s.data_buffer ≡ empty_message
    → (n ≡ 0) ⊎ ((2 ^ 63 ≤ n) × (n < 2 ^ 64))
    → async_read_data limit n s ≡ none
unfolding async_read_data
async_read_data-lost limit n s o e (inl z) =
    let zero_size : (n == 0) ≡ true = ground arith in
    let short : length s.data_buffer.storage < 8 =
      subst (λ b. length b.storage < 8) (sym e) (omega arith) in
    simp (o, zero_size) (read_data_handler-short limit s short)
async_read_data-lost limit n s o e (inr h) =
    let positive : (n == 0) ≡ false = ground arith in rw (o, positive, e, grow-too_far n h.0 h.1)

-- A header with a size of 4 to 8 and a valid opcode passes the test of IsValid, but ends in an
-- exception that nothing catches: below 8 the size of the body wraps around to more than a vector
-- can hold, and at 8 the body is too short for the skip of eight bytes. The socket is open and its
-- data buffer empty.
pub read_header_handler-short :
    (limit : ℕ) (s : Socket) (size cmd : ℕ)
    → header_size s.header_buffer ≡ size
    → header_cmd s.header_buffer ≡ cmd
    → s.closed ≡ false
    → s.data_buffer ≡ empty_message
    → 4 ≤ size
    → size ≤ 8
    → cmd < Opcodes.num_msg_types
    → read_header_handler limit s ≡ none
read_header_handler-short limit s size cmd es ec o e h1 h2 h3 =
    let rest : ℕ = (size + 2 ^ 64 - 8) % 2 ^ 64 in
    read_header_handler-valid limit s size cmd es ec h1 (omega arith) h3
    ∙ async_read_data-lost limit rest s o e (ground arith)

-- Without a session, a ping follows the null pointer of the session, and any other packet but the
-- login closes the socket.
dispatch-stranger :
    (limit : ℕ) (s : Socket) (packet : WorldPacket)
    → s.session ≡ none
    → packet.opcode ≢ Opcodes.cmsg_player_login
    → dispatch limit packet s
      ≡ (if packet.opcode == Opcodes.cmsg_ping then none else some (close_socket s))
unfolding dispatch
dispatch-stranger limit s packet e h =
    let no_login : (packet.opcode == Opcodes.cmsg_player_login) ≡ false = ground arith in
    simp (no_login, e)
