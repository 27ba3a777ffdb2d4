-- ===== src/Server/Session.antt =====
-- class WorldSession (server/game/Server/WorldSession.h and WorldSession.cpp) and the table of its
-- handlers (server/game/Server/Protocol/Opcodes.cpp).
pub mod Handling
pub mod Silence
pub mod Login
use landlord.Prelude.{
  ℕ, zero, suc, ◌+◌, ◌-◌, ◌*◌, ◌/◌, ◌%◌, ◌^◌, ◌≤◌, ◌<◌, min, ◌≡◌, refl, sym, ap, ◌∙◌, ◌≢◌, ◌↔◌, ◌⊎◌,
  inl, inr, Bool, true, false, not, ◌&&◌, ◌||◌, Option, none, some, List, [], ◌∷◌, ◌++◌, map, arith,
  ltb, leb, ◌==◌, if◌then◌else◌, ==_iff, Bool-cases, Option-cases, bind, length, get_elem?, set,
  take, drop, replicate, length-append, length-set, take-append-drop, length-take, length-drop,
  length-replicate, get_elem?_total, get_elem?-set_self, get_elem?-set_ne, one_if_eq, count,
  count-append, count-set, u32_mod, add32, sub32, minus_one, is_negative, is_positive, signed_key,
  max32,
}
use landlord.Packets.Bytes.{from_le}
use landlord.Packets.ByteBuffer.{ByteBuffer, Result, ok, err, read_number, read_bytes}
use landlord.Game.Types.{
  PlayerInfo, new_info, low_nibble, high_nibble, with_log_outing, PlayerType, is_user, is_ai,
  plays_as_ai, has_user_bit, AtQueueFlags, is_null, is_one_or_two, is_two, is_three, card_type_pass,
  card_type_single, Player, Field, u32, bytes, resized, player_info, Packet, Game, get_int_config,
}
use landlord.Game.Types.GameStatus
use landlord.Game.Types.Opcodes
use landlord.Game.Store.{
  M, ◌>>=◌, ◌>>◌, done, fault, when, pure, and_then, or_else, read, write, modify, config, deref,
  rand, send, update,
}
use landlord.Game.Player.{allocate_player, set_status, set_start}
use landlord.Game.Player.Logout.{log_out_player}
use landlord.Game.Room.{Room, enter_in_one}
use landlord.Network.Socket.{WorldPacket}

-- The map of RoomManager: each number with its room.
abbrev pub Rooms : Type 0
Rooms = List (ℕ × Room)

-- RoomManager::AddPlayer; a room that does not exist leaves all as it is.
pub add_to_room : ℕ → ℕ → ℕ → Rooms → M Rooms
add_to_room id player player_id [] = pure []
add_to_room id player player_id ((k, room) ∷ rooms) = elim (k == id) [
  | true ↦ do room' ← enter_in_one player_id player room; pure ((k, room') ∷ rooms)
  | false ↦ do rest ← add_to_room id player player_id rooms; pure ((k, room) ∷ rest)
]

-- `_player` of the session with this number.
unfoldable pub get_player : ℕ → M (Option ℕ)
get_player session g = some (g.session_player session, g)

abbrev set_session_player : ℕ → Option ℕ → M (Unit {0})
set_session_player session player g =
    some
      (tt, record g { session_player = λ s. if s == session then player else g.session_player s })

-- An exception that a read throws is caught by nobody.
abbrev catch_none : {A : Type 0} → Result A → M A
catch_none (ok a) = pure a
catch_none (err e) = fault

-- WorldSession::SendPacket of a session that has its socket.
pub send_packet : ℕ → Packet → M (Unit {0})
send_packet session packet g = some (tt, record g { sent = (session, packet) ∷ g.sent })

-- `n` numbers of four bytes.
from_le_words : ℕ → List ℕ → List ℕ
from_le_words zero bs = []
from_le_words (suc n) bs = from_le (take 4 bs) ∷ from_le_words n (drop 4 bs)

-- The number at the byte `4 * i` of the memory of a PlayerInfo.
abbrev word_at : ℕ → List ℕ → ℕ
word_at i bs = from_le (take 4 (drop (4 * i) bs))

-- The memory of a PlayerInfo: thirteen numbers, sixteen counts, three texts of twelve bytes.
pub info_from_bytes : List ℕ → PlayerInfo
unfolding from_le_words
info_from_bytes bs = record {
  id = word_at 0 bs;
  icon_id = word_at 1 bs;
  sex = word_at 2 bs;
  gold = word_at 3 bs;
  level = word_at 4 bs;
  score = word_at 5 bs;
  all_chess = word_at 6 bs;
  win_chess = word_at 7 bs;
  win_rate = word_at 8 bs;
  offline_count = word_at 9 bs;
  start = word_at 10 bs;
  type = word_at 11 bs;
  desk_id = word_at 12 bs;
  props_count = from_le_words 16 (drop 52 bs);
  account = take 12 (drop 116 bs);
  name = take 12 (drop 128 bs);
  nick_name = take 12 (drop 140 bs);
}

abbrev pub login_packet : Packet
login_packet = record {
  opcode = Opcodes.cmsg_player_login;
  fields = u32 0 ∷ u32 0 ∷ u32 1 ∷ resized 600 ∷ [];
}

-- WorldSession::SendLoginError
send_login_error : ℕ → ℕ → M (Unit {0})
unfolding send_packet
send_login_error session code =
    send_packet session
      (record { opcode = Opcodes.cmsg_player_login; fields = u32 0 ∷ u32 0 ∷ u32 code ∷ [] })

-- WorldSession::HandlePlayerLogin; RoomManager::getPlayer finds nobody.
pub handle_player_login : ℕ → ByteBuffer → Rooms → M Rooms
unfolding allocate_player enter_in_one add_to_room
handle_player_login session packet rooms = do
  (space_id, b1) ← catch_none (read_number 4 packet)
  (room_id, b2) ← catch_none (read_number 4 b1)
  (same_room, b3) ← catch_none (read_number 4 b2)
  (memory, b4) ← catch_none (read_bytes 152 b3)
  let info = info_from_bytes memory
  player ← allocate_player (some session)
  set_session_player session (some player)
  modify player λ p. record p { info = info; room_id = room_id }
  rooms' ← add_to_room room_id player info.id rooms
  send_packet session login_packet
  pure rooms'

-- `getPlayer()->...`, where the pointer may be null.
pub the_player : ℕ → M ℕ
unfolding get_player
the_player session = do p ← get_player session; deref p

-- WorldSession::HandleWaitStart
handle_wait_start : ℕ → M (Unit {0})
unfolding the_player set_start
handle_wait_start session = do p ← the_player session; set_start p

-- WorldSession::HandleGrabLandlord
handle_grab_landlord : ℕ → ByteBuffer → M (Unit {0})
unfolding the_player
handle_grab_landlord session packet = do
  p ← the_player session
  (score, b) ← catch_none (read_number 4 packet)
  modify p λ a. record a { grab_score = score }
  set_status p GameStatus.grabing_landlord

-- WorldSession::HandleOutCards
handle_out_cards : ℕ → ByteBuffer → M (Unit {0})
unfolding the_player
handle_out_cards session packet = do
  p ← the_player session
  (card_type, b1) ← catch_none (read_bytes 4 packet)
  modify p λ a. record a { card_type = from_le card_type }
  (cards, b2) ← catch_none (read_bytes 24 b1)
  modify p λ a. record a { out_cards = cards }
  set_status p GameStatus.out_carding

-- WorldSession::HandleRoundOver
handle_round_over : ℕ → ByteBuffer → M (Unit {0})
unfolding the_player
handle_round_over session packet = do
  p ← the_player session
  (gold, b) ← catch_none (read_number 4 packet)
  modify p λ a. record a { win_gold = gold }
  set_status p GameStatus.roundovering

-- WorldSession::HandlLogout
handle_logout : ℕ → M (Unit {0})
unfolding the_player
handle_logout session = do
  p ← the_player session
  modify p λ a. record a { game_status = with_log_outing a.game_status }

-- The handlers that `opcodeTable` names.
pub data Handler : Type 0 where
  player_login wait_start grab_landlord out_cards round_over logout nothing : Handler

-- `opcodeTable`, in the order of the opcodes.
abbrev opcode_table : List Handler
opcode_table =
    player_login ∷ nothing ∷ nothing ∷ wait_start ∷ nothing ∷ grab_landlord ∷ nothing ∷ nothing
    ∷ out_cards ∷ nothing ∷ round_over ∷ nothing ∷ nothing ∷ nothing ∷ nothing ∷ nothing ∷ logout
    ∷ nothing ∷ []

-- The call of a handler; only a login changes the rooms.
pub call_handler : Handler → ℕ → ByteBuffer → Rooms → M Rooms
unfolding handle_player_login handle_wait_start handle_grab_landlord handle_out_cards
    handle_round_over handle_logout
call_handler player_login session packet rooms = handle_player_login session packet rooms
call_handler wait_start session packet rooms = do handle_wait_start session; pure rooms
call_handler grab_landlord session packet rooms = do handle_grab_landlord session packet; pure rooms
call_handler out_cards session packet rooms = do handle_out_cards session packet; pure rooms
call_handler round_over session packet rooms = do handle_round_over session packet; pure rooms
call_handler logout session packet rooms = do handle_logout session; pure rooms
call_handler nothing session packet rooms = pure rooms

-- A packet out of the queue; an opcode outside the table is a fault.
pub handle_packet : ℕ → WorldPacket → Rooms → M Rooms
unfolding call_handler
handle_packet session packet rooms = do
  handler ← deref (get_elem? opcode_table packet.opcode)
  call_handler handler session packet.buffer rooms

-- `id` is the number of the object, `connection` whether the socket is open, `none` if `_Socket` is
-- null. The packets are those of `_recvQueue`, the oldest first.
pub record WorldSession : Type 0 where
  pub id : ℕ
  pub account_id : ℕ
  pub connection : Option Bool
  pub time_out : ℕ
  pub recv_queue : List WorldPacket

-- The loop of WorldSession::Update over the packets; `n` more may be handled.
pub handle_packets : ℕ → ℕ → List WorldPacket → Rooms → M (List WorldPacket × Rooms)
unfolding handle_packet
handle_packets zero session queue rooms = pure (queue, rooms)
handle_packets (suc n) session [] rooms = pure ([], rooms)
handle_packets (suc n) session (packet ∷ queue) rooms = do
  rooms' ← handle_packet session packet rooms
  handle_packets n session queue rooms'

-- The loop stops once more than 100 packets are handled.
abbrev pub max_packets : ℕ
max_packets = 101

-- `if (IsTimeOutTime()) _Socket->CloseSocket();`, where the socket may be null.
pub close_late : ℕ → Option Bool → M (Option Bool)
close_late time_out connection =
    if not (is_positive time_out)
    then (do _ ← deref connection; pure (some false))
    else pure connection

-- `_Socket && !_Socket->IsOpen() || getPlayer() == nullptr` drops the socket.
abbrev pub keep_connection : Option Bool → Option ℕ → Option Bool
keep_connection (some true) (some p) = some true
keep_connection _ _ = none

-- WorldSession::Update; the Boolean is what it returns.
unfoldable pub session_update : ℕ → WorldSession → Rooms → M (Bool × WorldSession × Rooms)
unfolding handle_packets close_late get_player
session_update diff s rooms = do
  let time_out = sub32 s.time_out diff
  connection ← close_late time_out s.connection
  (queue, rooms') ← elim connection [
    | none ↦ pure (s.recv_queue, rooms)
    | some _ ↦ handle_packets max_packets s.id s.recv_queue rooms
  ]
  player ← get_player s.id
  let kept = keep_connection connection player
  let s' = record s { connection = kept; time_out = time_out; recv_queue = queue }
  pure (elim kept [ none ↦ false | some _ ↦ true ], s', rooms')

-- WorldSession::~WorldSession: the player logs out; the packets left are deleted.
unfoldable pub destroy_session : ℕ → WorldSession → M (Unit {0})
unfolding get_player
destroy_session fuel s = do
  player ← get_player s.id
  elim player [ none ↦ done | some p ↦ log_out_player fuel p ]
