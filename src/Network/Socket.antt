-- ===== src/Network/Socket.antt =====
-- The reading side of Socket (server/shared/Networking/Socket.h) and the handlers of WorldSocket
-- (server/game/Server/WorldSocket.h and WorldSocket.cpp). `none` is an exception that nothing
-- catches, or a null pointer that is followed.
use landlord.Prelude.{
  ℕ, ◌+◌, ◌-◌, ◌%◌, ◌^◌, Bool, true, ◌&&◌, Option, none, some, List, [], ◌∷◌, ◌++◌, ltb, leb, ◌==◌,
  if◌then◌else◌, bind, take, drop,
}
use landlord.Packets.Bytes.{from_le}
use landlord.Packets.ByteBuffer.{ByteBuffer, ok, err, read_skip, read_at}
use landlord.Game.Types.Opcodes
use landlord.Network.MessageBuffer.{
  MessageBuffer, is_message_ready, grow, reset_write_pointer, reset, move, receive,
}

-- class WorldPacket as it is received.
pub record WorldPacket : Type 0 where
  pub opcode : ℕ
  pub buffer : ByteBuffer

-- The part of WorldSession that the socket uses: `_accountId`, `_recvQueue` with the oldest packet
-- first, and `m_timeOutTime`.
pub record Session : Type 0 where
  pub account_id : ℕ
  pub recv_queue : List WorldPacket
  pub time_out : ℕ

-- The asynchronous read that is under way.
pub data Reading : Type 0 where
  nothing header body : Reading

-- Socket and WorldSocket. `added` are the accounts handed to World::AddSession, the oldest first.
pub record Socket : Type 0 where
  pub header_buffer : MessageBuffer
  pub data_buffer : MessageBuffer
  pub closed : Bool
  pub reading : Reading
  pub session : Option Session
  pub added : List ℕ

-- The two fields of ClientPktHeader.
abbrev pub header_size : MessageBuffer → ℕ
header_size b = from_le (take 4 b.storage)

abbrev pub header_cmd : MessageBuffer → ℕ
header_cmd b = from_le (take 4 (drop 4 b.storage))

-- ClientPktHeader::IsValid
abbrev pub is_valid : ℕ → ℕ → Bool
is_valid size cmd = leb 4 size && ltb size 10240 && ltb cmd Opcodes.num_msg_types

abbrev pub close_socket : Socket → Socket
close_socket s = record s { closed = true }

-- AsyncReadHeader
unfoldable pub async_read_header : Socket → Socket
async_read_header s = if s.closed then s else record s {
  header_buffer = reset_write_pointer s.header_buffer;
  data_buffer = reset s.data_buffer;
  reading = Reading.header;
}

-- WorldSession::ResetTimeOutTime, with the setting CONFIG_SOCKET_TIMEOUTTIME.
abbrev pub reset_time_out : ℕ → Session → Session
reset_time_out limit w = record w { time_out = limit }

-- WorldSession::QueuePacket
abbrev pub queue_packet : WorldPacket → Session → Session
queue_packet packet w = record w { recv_queue = w.recv_queue ++ (packet ∷ []) }

-- WorldSocket::AddSession
add_session : ℕ → WorldPacket → Socket → Option Socket
unfolding read_at
add_session limit packet s = elim (read_at 4 20 packet.buffer) [
  | err e ↦ none
  | ok account ↦ some (record s {
    session = some (
        reset_time_out limit (
          queue_packet packet
            (record { account_id = account; recv_queue = []; time_out = limit })));
    added = s.added ++ (account ∷ []);
  })
]

-- The switch of ReadDataHandler.
unfoldable pub dispatch : ℕ → WorldPacket → Socket → Option Socket
unfolding add_session async_read_header
dispatch limit packet s =
    if packet.opcode == Opcodes.cmsg_player_login
    then elim s.session [
      | some w ↦ some (async_read_header s)
      | none ↦ bind (add_session limit packet s) λ s'. some (async_read_header s')
    ]
    else if packet.opcode == Opcodes.cmsg_ping
    then elim s.session [
      | none ↦ none
      | some w ↦ some (async_read_header (record s { session = some (reset_time_out limit w) }))
    ]
    else elim s.session [
      | none ↦ some (close_socket s)
      | some w ↦ some (
          async_read_header
            (record s { session = some (queue_packet packet (reset_time_out limit w)) }))
    ]

-- WorldSocket::ReadDataHandler; the opcode is cut to 16 bits.
unfoldable pub read_data_handler : ℕ → Socket → Option Socket
unfolding dispatch
read_data_handler limit s =
    let opcode = header_cmd s.header_buffer % 2 ^ 16 in
    let (bytes, rest) = move s.data_buffer in
    elim (read_skip 8 (record { rpos = 0; wpos = 0; storage = bytes })) [
      | err e ↦ none
      | ok packet ↦
          dispatch limit (record { opcode = opcode; buffer = packet })
            (record s { data_buffer = rest })
    ]

-- AsyncReadData
unfoldable pub async_read_data : ℕ → ℕ → Socket → Option Socket
unfolding read_data_handler
async_read_data limit size s =
    if s.closed
    then some s
    else if size == 0
    then read_data_handler limit s
    else bind (grow size s.data_buffer)
        (λ b. some (record s { data_buffer = b; reading = Reading.body }))

-- WorldSocket::ReadHeaderHandler; `sizeof(ClientPktHeader)` is 8.
unfoldable pub read_header_handler : ℕ → Socket → Option Socket
unfolding async_read_data
read_header_handler limit s =
    let size = header_size s.header_buffer in
    if is_valid size (header_cmd s.header_buffer)
    then async_read_data limit ((size + 2 ^ 64 - 8) % 2 ^ 64) s
    else some (close_socket s)

-- How a read ends.
pub data Completion : Type 0 where
  failed : Completion
  arrived : List ℕ → Completion

-- ReadHeaderHandlerInternal
unfoldable pub read_header_internal : ℕ → Completion → Socket → Option Socket
unfolding read_header_handler
read_header_internal limit failed s = some (close_socket (record s { reading = Reading.nothing }))
read_header_internal limit (arrived bytes) s =
    let b = receive bytes s.header_buffer in
    if is_message_ready b
    then read_header_handler limit (record s { header_buffer = b; reading = Reading.nothing })
    else some (record s { header_buffer = b; reading = Reading.header })

-- ReadDataHandlerInternal
unfoldable pub read_data_internal : ℕ → Completion → Socket → Option Socket
unfolding read_data_handler
read_data_internal limit failed s = some (close_socket (record s { reading = Reading.nothing }))
read_data_internal limit (arrived bytes) s =
    let b = receive bytes s.data_buffer in
    if is_message_ready b
    then read_data_handler limit (record s { data_buffer = b; reading = Reading.nothing })
    else some (record s { data_buffer = b; reading = Reading.body })

-- The completion of the read that is under way.
unfoldable pub complete : ℕ → Completion → Socket → Option Socket
unfolding read_header_internal read_data_internal
complete limit c s = elim s.reading [
  | nothing ↦ some s
  | header ↦ read_header_internal limit c s
  | body ↦ read_data_internal limit c s
]

-- Pieces of the stream that arrive one after another.
unfoldable pub arrive_all : ℕ → List (List ℕ) → Socket → Option Socket
unfolding complete
arrive_all limit [] s = some s
arrive_all limit (c ∷ cs) s = bind (complete limit (arrived c) s) (arrive_all limit cs)
