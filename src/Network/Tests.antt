-- ===== src/Network/Tests.antt =====
-- A message that arrives in pieces, messages that are cut short, and two packets that are written
-- (server/game/Server/WorldSocket.cpp, server/shared/Networking/Socket.h).
use landlord.Prelude.{ℕ, ◌≡◌, refl, false, none, some, List, [], ◌∷◌, ◌++◌, arith, replicate}
use landlord.Packets.Bytes.{le_bytes, from_le}
use landlord.Game.Types.Opcodes
use landlord.Network.MessageBuffer.{empty_message, full}
use landlord.Network.Socket.{WorldPacket, Session, Reading, Socket, arrive_all, read_header_handler}
use landlord.Network.Framing.{flatten}
use landlord.Network.Messages.{awaiting, queued, arrive_all-message}
use landlord.Network.Malformed.{read_header_handler-short}
use landlord.Network.Writing.{
  Writer, new_writer, Event, write_steps, write_steps-in_order, frame, frames, waiting, send, wrote,
  async_write, write_handler,
}

abbrev gamer : Session
gamer = record { account_id = 7; recv_queue = []; time_out = 3 }

abbrev idle_socket : Socket
idle_socket = record {
  header_buffer = empty_message;
  data_buffer = empty_message;
  closed = false;
  reading = Reading.nothing;
  session = some gamer;
  added = [];
}

abbrev first_half : List ℕ
first_half = 20 ∷ 0 ∷ 0 ∷ []

abbrev second_half : List ℕ
second_half = 0 ∷ 5 ∷ 0 ∷ 0 ∷ 0 ∷ []

abbrev padding : List ℕ
padding = replicate 8 0

abbrev bid : List ℕ
bid = 3 ∷ 0 ∷ 0 ∷ 0 ∷ []

arrive_all-message_example :
    arrive_all 60
      ((first_half ∷ second_half ∷ []) ++ (padding ∷ bid ∷ []))
      (awaiting idle_socket (replicate 8 9))
    ≡ some (
        awaiting
          (queued 60 idle_socket gamer 5 (flatten (padding ∷ bid ∷ [])))
          (flatten (first_half ∷ second_half ∷ [])))
unfolding le_bytes
arrive_all-message_example =
    arrive_all-message 60 idle_socket gamer (replicate 8 9) 5 first_half (second_half ∷ []) padding
      (bid ∷ []) refl refl refl (omega arith, (omega arith, tt)) (omega arith, (omega arith, tt))
      refl (omega arith) (omega arith) (omega arith) (omega arith) (omega arith)

abbrev short_body : Socket
short_body = record idle_socket { data_buffer = full bid }

abbrev short_header : Socket
short_header = record idle_socket { header_buffer = full (5 ∷ 0 ∷ 0 ∷ 0 ∷ 5 ∷ 0 ∷ 0 ∷ 0 ∷ []) }

read_header_handler-short_example : read_header_handler 60 short_header ≡ none
unfolding from_le
read_header_handler-short_example =
    read_header_handler-short 60 short_header 5 5 refl refl refl refl (omega arith) (omega arith)
      (omega arith)

abbrev stranger : Socket
stranger = record idle_socket { session = none }

abbrev ping : WorldPacket
ping = record {
  opcode = Opcodes.cmsg_ping;
  buffer = record { rpos = 8; wpos = 0; storage = padding };
}

abbrev three_events : List Event
three_events = send 5 bid ∷ send 3 [] ∷ wrote ∷ []

abbrev after_three : Writer
after_three = record {
  closed = false;
  closing = false;
  write_queue = frame 3 [] ∷ [];
  started = frame 5 bid ∷ frame 3 [] ∷ [];
}

three_run : write_steps three_events new_writer ≡ some after_three
unfolding write_steps async_write write_handler
three_run = refl

write_steps-in_order_example :
    after_three.started ++ waiting after_three.write_queue ≡ frames three_events
write_steps-in_order_example = write_steps-in_order three_events after_three three_run
