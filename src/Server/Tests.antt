-- ===== src/Server/Tests.antt =====
-- Sessions at concrete packets (server/game/Server/WorldSession.cpp, server/game/World/World.cpp).
use landlord.Prelude.{
  ℕ, ◌≡◌, refl, inl, inr, true, none, some, List, [], ◌∷◌, arith, ltb, ◌==◌, if◌then◌else◌,
  replicate,
}
use landlord.Packets.ByteBuffer.{ByteBuffer}
use landlord.Game.Types.{Game}
use landlord.Game.Store.{◌>>=◌}
use landlord.Game.Spec.{Ensures}
use landlord.Game.Fixture.{strangers}
use landlord.Game.Room.{Room}
use landlord.Network.Socket.{WorldPacket}
use landlord.Server.Session.{Rooms, WorldSession, session_update, handle_player_login, login_packet}
use landlord.Server.Session.Handling.{
  handle_all, ended, session_update-first, session_update-no_player,
}
use landlord.Server.Session.Silence.{stays, stays-silent}
use landlord.Server.Session.Login.{
  placed, requested_room, sent_info, has_room, queued_one, logged_in, handle_player_login_lem,
}
use landlord.Server.World.{World, find_session, take_sessions}
use landlord.Server.World.Adding.{first_of, take_sessions-first}
use landlord.Server.World.Accounts.{IsSessionMap}
use landlord.Timing.Elapsed.{sum}

abbrev hall : Room
hall = record { id = 0; basic_score = 5000; players = []; one = []; two = []; three = [] }

abbrev halls : Rooms
halls = (0, hall) ∷ []

abbrev message : ℕ → WorldPacket
message opcode = record {
  opcode = opcode;
  buffer = record { rpos = 8; wpos = 0; storage = replicate 12 3 };
}

-- The session 11, whose player is the first.
abbrev playing : Game
playing = record strangers { session_player = λ s. if s == 11 then some 1 else none }

abbrev session : List WorldPacket → WorldSession
session queue = record {
  id = 11;
  account_id = 101;
  connection = some true;
  time_out = 30000;
  recv_queue = queue;
}

session_update-first_example :
    session_update 100 (session (message 3 ∷ message 5 ∷ [])) halls playing
    ≡ (handle_all 11 (message 3 ∷ message 5 ∷ []) halls
          >>= ended 29900 true [] (session (message 3 ∷ message 5 ∷ [])))
        playing
session_update-first_example =
    session_update-first 100 (session (message 3 ∷ message 5 ∷ [])) halls playing true refl

session_update-no_player_example :
    session_update 100 (session (message 5 ∷ [])) halls strangers ≡ none
session_update-no_player_example =
    session_update-no_player 100 (session (message 5 ∷ [])) (message 5) [] halls strangers refl refl
      refl refl (inr (inl refl))

stays-silent_example :
    stays (20000 ∷ 9000 ∷ 2000 ∷ []) (session []) halls playing
    ≡ some (ltb (sum (20000 ∷ 9000 ∷ 2000 ∷ [])) 30000, playing)
stays-silent_example =
    stays-silent (20000 ∷ 9000 ∷ 2000 ∷ []) (session []) halls playing 1 refl refl refl
      (omega arith) (omega arith) (omega arith, (omega arith, (omega arith, tt)))

abbrev login_message : ByteBuffer
login_message = record { rpos = 8; wpos = 0; storage = replicate 172 0 }

handle_player_login_lem_example :
    Ensures
      (λ rooms' g'.
        (rooms' ≡ placed (requested_room login_message) 4 (sent_info login_message).id halls)
        × (g'.session_player 12 ≡ some 4)
        × (g'.sent ≡ (12, login_packet) ∷ [])
        × (g'.cell 4
            ≡ some (
                if has_room (requested_room login_message) halls
                then queued_one (logged_in 12 login_message playing)
                else logged_in 12 login_message playing)))
      (handle_player_login 12 login_message halls playing)
handle_player_login_lem_example =
    handle_player_login_lem 12 login_message halls playing (omega arith) (omega arith)

-- Two sessions of one account wait to be added.
abbrev world : World
world = record {
  sessions = [];
  add_queue = session [] ∷ record (session []) { id = 12 } ∷ [];
  rooms = halls;
  timer = record { interval = 100; current = 0 };
}

abbrev next_world : World
next_world = record world {
  sessions = (101, record (session []) { time_out = 29900 }) ∷ [];
  add_queue = [];
}

take_sessions-first_example :
    (m : List (ℕ × WorldSession)) × (take_sessions world.add_queue [] strangers
      ≡ some (m, strangers))
    × IsSessionMap m
    × ((id : ℕ) → find_session id m ≡ first_of id world.add_queue)
unfolding find_session
take_sessions-first_example = take_sessions-first world.add_queue [] strangers tt (refl, (refl, tt))
