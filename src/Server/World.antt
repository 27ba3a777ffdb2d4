-- ===== src/Server/World.antt =====
-- class World (server/game/World/World.cpp) and class RoomManager (server/game/Room/RoomManager.cpp),
-- with the rooms updated one after another.
pub mod Accounts
pub mod Adding
use landlord.Prelude.{
  ℕ, zero, suc, ◌+◌, ◌-◌, ◌*◌, ◌/◌, ◌%◌, ◌^◌, ◌≤◌, ◌<◌, min, ◌≡◌, refl, sym, ap, ◌∙◌, ◌≢◌, ◌↔◌, ◌⊎◌,
  inl, inr, Bool, true, false, not, ◌&&◌, ◌||◌, Option, none, some, List, [], ◌∷◌, ◌++◌, map, arith,
  ltb, leb, ◌==◌, if◌then◌else◌, ==_iff, Bool-cases, Option-cases, bind, length, get_elem?, set,
  take, drop, replicate, length-append, length-set, take-append-drop, length-take, length-drop,
  length-replicate, get_elem?_total, get_elem?-set_self, get_elem?-set_ne, one_if_eq, count,
  count-append, count-set, u32_mod, add32, sub32, minus_one, is_negative, is_positive, signed_key,
  max32,
}
use landlord.Timing.{IntervalTimer, update_interval, interval_passed}
use landlord.Game.Types.{
  PlayerInfo, new_info, low_nibble, high_nibble, with_log_outing, PlayerType, is_user, is_ai,
  plays_as_ai, has_user_bit, AtQueueFlags, is_null, is_one_or_two, is_two, is_three, card_type_pass,
  card_type_single, Player, Field, u32, bytes, resized, player_info, Packet, Game, get_int_config,
}
use landlord.Game.Types.Configs
use landlord.Game.Store.{
  M, ◌>>=◌, ◌>>◌, done, fault, when, pure, and_then, or_else, read, write, modify, config, deref,
  rand, send, update,
}
use landlord.Game.Room.{Room, new_room}
use landlord.Game.Room.Update.{room_update}
use landlord.Server.Session.{Rooms, WorldSession, session_update, destroy_session}

-- The entries of `m_sessions` are in the order in which an iterator meets them; `add_queue` is
-- addSessQueue, the oldest first.
pub record World : Type 0 where
  pub sessions : List (ℕ × WorldSession)
  pub add_queue : List WorldSession
  pub rooms : Rooms
  pub timer : IntervalTimer

-- The fuel of the calls between neighbours when a player logs out.
abbrev pub log_out_fuel : ℕ
log_out_fuel = 4

-- `m_sessions.find(id)`
unfoldable pub find_session : ℕ → List (ℕ × WorldSession) → Option WorldSession
find_session id [] = none
find_session id ((k, s) ∷ rest) = if k == id then some s else find_session id rest

-- World::RemoveSession, which only says whether there is one; the pointers of the map are not null.
pub remove_session : ℕ → List (ℕ × WorldSession) → Bool
unfolding find_session
remove_session id sessions = elim (find_session id sessions) [ none ↦ false | some _ ↦ true ]

-- World::AddSession
unfoldable pub add_session : WorldSession → World → World
add_session s w = record w { add_queue = w.add_queue ++ (s ∷ []) }

-- World::AddSession_: a session of an account that has one is destroyed.
pub take_session : WorldSession → List (ℕ × WorldSession) → M (List (ℕ × WorldSession))
unfolding remove_session
take_session s sessions =
    if remove_session s.account_id sessions
    then (do destroy_session log_out_fuel s; pure sessions)
    else pure (sessions ++ ((s.account_id, s) ∷ []))

-- The loop that takes the new sessions.
pub take_sessions : List WorldSession → List (ℕ × WorldSession) → M (List (ℕ × WorldSession))
unfolding take_session
take_sessions [] sessions = pure sessions
take_sessions (s ∷ queue) sessions = do
  sessions' ← take_session s sessions
  take_sessions queue sessions'

-- The loop over the map: a session that is not active any more is erased and destroyed.
pub visit_sessions : ℕ → List (ℕ × WorldSession) → Rooms → M (List (ℕ × WorldSession) × Rooms)
visit_sessions diff [] rooms = pure ([], rooms)
visit_sessions diff ((id, s) ∷ rest) rooms = do
  (active, s', rooms') ← session_update diff s rooms
  when (not active) (destroy_session log_out_fuel s')
  (others, rooms'') ← visit_sessions diff rest rooms'
  pure (if active then (id, s') ∷ others else others, rooms'')

-- World::UpdateSessions
unfoldable pub update_sessions : ℕ → World → M World
unfolding take_sessions visit_sessions
update_sessions diff w = do
  taken ← take_sessions w.add_queue w.sessions
  (sessions, rooms) ← visit_sessions diff taken w.rooms
  pure (record w { sessions = sessions; add_queue = []; rooms = rooms })

-- RoomManager::InitRooms: `n` rooms from the number `id` on, `scores` the basic score.
init_rooms : ℕ → ℕ → ℕ → Rooms
init_rooms scores id zero = []
init_rooms scores id (suc n) =
    (id, new_room id ((scores * (id + 1)) % u32_mod)) ∷ init_rooms scores (id + 1) n

-- The loop of RoomManager::Update.
update_rooms : ℕ → Rooms → M Rooms
update_rooms diff [] = pure []
update_rooms diff ((id, room) ∷ rooms) = do
  room' ← room_update diff room
  rooms' ← update_rooms diff rooms
  pure ((id, room') ∷ rooms')

-- RoomManager::Update; the time since the last update is cut to 32 bits.
manager_update : ℕ → World → M World
unfolding update_rooms
manager_update diff w =
    let t = update_interval diff w.timer in
    if interval_passed t
    then (do
      rooms ← update_rooms (t.current % u32_mod) w.rooms
      pure (record w { rooms = rooms; timer = record t { current = 0 } }))
    else pure (record w { timer = t })

-- World::Update
world_update : ℕ → World → M World
unfolding update_sessions manager_update
world_update diff w = do w' ← update_sessions diff w; manager_update diff w'

-- RoomManager::RoomManager and Initialize, of the settings.
initialize : M World
unfolding init_rooms
initialize = do
  interval ← config Configs.interval_room_update
  rooms ← config Configs.number_rooms
  scores ← config Configs.basic_score
  pure (record {
    sessions = [];
    add_queue = [];
    rooms = init_rooms scores 0 rooms;
    timer = record { interval = interval; current = 0 };
  })

-- RoomManager::UnloadAll deletes the rooms; what deactivate does is with the room updater.
unload_all : World → World
unload_all w = record w { rooms = [] }

-- RoomManager::GetNumPlayers and getPlayer are stubs.
get_num_players : World → ℕ
get_num_players w = 0

find_player : ℕ → World → Option ℕ
find_player id w = none
