-- ===== src/Server/Session/Login.antt =====
-- What a login does (WorldSession::HandlePlayerLogin of server/game/Server/WorldSession.cpp).
use landlord.Prelude.{
  ℕ, ◌+◌, ◌%◌, ◌^◌, ◌≤◌, ◌<◌, ◌≡◌, refl, inl, inr, Bool, false, ◌||◌, some, [], ◌∷◌, ◌++◌, arith,
  ltb, ◌==◌, if◌then◌else◌, Bool-cases, take, drop,
}
use landlord.Packets.Bytes.{from_le}
use landlord.Packets.ByteBuffer.{ByteBuffer, ok, size, read_number, read_bytes, read_at}
use landlord.Game.Types.{PlayerInfo, AtQueueFlags, Player, Game}
use landlord.Game.Store.{◌>>=◌, ◌>>◌, write, update}
use landlord.Game.Store.Chain.{modify-ok}
use landlord.Game.Spec.{Ensures}
use landlord.Game.Player.{new_player, allocate_player}
use landlord.Game.Room.{Room, enter, enter_in_one}
use landlord.Server.Session.{
  Rooms, add_to_room, send_packet, info_from_bytes, login_packet, handle_player_login,
}

pub has_room : ℕ → Rooms → Bool
has_room id [] = false
has_room id ((k, room) ∷ rooms) = k == id || has_room id rooms

-- The room with the player in its map and at the end of the list of those alone.
abbrev joined : ℕ → ℕ → Room → Room
joined player_id player room = record (enter player_id player room) {
  one = room.one ++ (player ∷ []);
}

-- The rooms with the player in the room of this number, if there is one.
pub placed : ℕ → ℕ → ℕ → Rooms → Rooms
placed id player player_id [] = []
placed id player player_id ((k, room) ∷ rooms) =
    if k == id
    then (k, joined player_id player room) ∷ rooms
    else (k, room) ∷ placed id player player_id rooms

-- The player while it waits alone in a room.
abbrev pub queued_one : Player → Player
queued_one a = record a { queue_flags = AtQueueFlags.queue_one }

enter_in_one-joined :
    (player_id player : ℕ) (room : Room) (g : Game) (a : Player)
    → g.cell player ≡ some a
    → enter_in_one player_id player room g
      ≡ some (
        joined player_id player room,
        record g { cell = update g.cell player (some (queued_one a)) },
      )
unfolding enter_in_one
enter_in_one-joined player_id player room g a e =
    rw (enter_in_one, modify-ok player queued_one g a e, ◌>>=◌, ◌>>◌)

add_to_room-placed :
    (id player player_id : ℕ) (rooms : Rooms) (g : Game) (a : Player)
    → g.cell player ≡ some a
    → add_to_room id player player_id rooms g
      ≡ some (
        placed id player player_id rooms,
        if has_room id rooms
            then record g { cell = update g.cell player (some (queued_one a)) }
            else g,
      )
unfolding add_to_room placed has_room
add_to_room-placed id player player_id [] g a e = refl
add_to_room-placed id player player_id ((k, room) ∷ rooms) g a e = elim (Bool-cases (k == id)) [
  | inl h ↦ rw (add_to_room, h, enter_in_one-joined player_id player room g a e, ◌>>=◌)
  | inr h ↦ rw (add_to_room, h, add_to_room-placed id player player_id rooms g a e, ◌>>=◌)
]

read_number-ok :
    (w : ℕ) (buf : ByteBuffer)
    → buf.rpos + w ≤ size buf
    → size buf < 2 ^ 63
    → read_number w buf
      ≡ ok (from_le (take w (drop buf.rpos buf.storage)), record buf { rpos = buf.rpos + w })
unfolding read_number read_at
read_number-ok w buf h k =
    let no : ltb (size buf) ((buf.rpos + w) % 2 ^ 64) ≡ false = ground arith in
    let whole : (buf.rpos + w) % 2 ^ 64 ≡ buf.rpos + w = omega arith in rw (no, whole)

read_bytes-ok :
    (n : ℕ) (buf : ByteBuffer)
    → buf.rpos + n ≤ size buf
    → size buf < 2 ^ 63
    → read_bytes n buf ≡ ok (take n (drop buf.rpos buf.storage), record buf { rpos = buf.rpos + n })
unfolding read_bytes
read_bytes-ok n buf h k =
    let no : ltb (size buf) ((buf.rpos + n) % 2 ^ 64) ≡ false = ground arith in
    let whole : (buf.rpos + n) % 2 ^ 64 ≡ buf.rpos + n = omega arith in rw (no, whole)

-- The fields of the login message at the reading place: three numbers and a PlayerInfo.
abbrev pub requested_room : ByteBuffer → ℕ
requested_room packet = from_le (take 4 (drop (packet.rpos + 4) packet.storage))

abbrev pub sent_info : ByteBuffer → PlayerInfo
sent_info packet = info_from_bytes (take 152 (drop (packet.rpos + 4 + 4 + 4) packet.storage))

-- The player that a login makes, before a room takes it.
abbrev pub logged_in : ℕ → ByteBuffer → Game → Player
logged_in session packet g = record (new_player g (some session)) {
  info = sent_info packet;
  room_id = requested_room packet;
}

-- A login message that is long enough makes a new player with the data and the room of the message,
-- ties it to the session, answers the client, and puts the player into the room and behind those
-- who wait alone there. If there is no room of that number, no room changes and the player is in none.
pub handle_player_login_lem :
    (session : ℕ) (packet : ByteBuffer) (rooms : Rooms) (g : Game)
    → packet.rpos + 164 ≤ size packet
    → size packet < 2 ^ 63
    → Ensures
        (λ rooms' g'.
          (rooms' ≡ placed (requested_room packet) g.next (sent_info packet).id rooms)
          × (g'.session_player session ≡ some g.next)
          × (g'.sent ≡ (session, login_packet) ∷ g.sent)
          × (g'.cell g.next
              ≡ some (
                  if has_room (requested_room packet) rooms
                  then queued_one (logged_in session packet g)
                  else logged_in session packet g)))
        (handle_player_login session packet rooms g)
unfolding handle_player_login allocate_player send_packet
handle_player_login_lem session packet rooms g h k =
    let b1 : ByteBuffer = record packet { rpos = packet.rpos + 4 } in
    let b2 : ByteBuffer = record packet { rpos = packet.rpos + 4 + 4 } in
    let b3 : ByteBuffer = record packet { rpos = packet.rpos + 4 + 4 + 4 } in
    let g1 : Game = record g {
      cell =
          update (update g.cell g.next (some (new_player g (some session)))) g.next
            (some (logged_in session packet g));
      next = g.next + 1;
      session_player = λ s. if s == session then some g.next else g.session_player s;
    } in
    let here : update (update g.cell g.next (some (new_player g (some session)))) g.next
          (some (logged_in session packet g)) g.next
        ≡ some (logged_in session packet g) =
      ground arith in
    let made : update g.cell g.next (some (new_player g (some session))) g.next
        ≡ some (new_player g (some session)) =
      ground arith in
    rw
      (
        read_number-ok 4 packet (omega arith) k,
        read_number-ok 4 b1 (omega arith) k,
        read_number-ok 4 b2 (omega arith) k,
        read_bytes-ok 152 b3 (omega arith) k,
        ◌>>=◌,
        ◌>>◌,
        made,
        write,
        made,
        add_to_room-placed (requested_room packet) g.next (sent_info packet).id rooms g1
            (logged_in session packet g) here,
      )
      (elim (Bool-cases (has_room (requested_room packet) rooms)) [
        | inl t ↦ rw t (refl, ground arith, refl, ground arith)
        | inr t ↦ rw t (refl, ground arith, refl, ground arith)
      ])
