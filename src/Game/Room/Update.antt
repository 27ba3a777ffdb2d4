-- ===== src/Game/Room/Update.antt =====
-- Room::Update (server/game/Room/Room.cpp).
pub mod Safety
pub mod Stale
use landlord.Prelude.{ℕ, Bool, ◌&&◌, List, [], ◌∷◌, ◌++◌, ◌==◌, if◌then◌else◌}
use landlord.Game.Types.{AtQueueFlags, is_null, Player}
use landlord.Game.Types.GameStatus
use landlord.Game.Store.{M, ◌>>=◌, ◌>>◌, when, pure, read, modify}
use landlord.Game.Player.{delete_player}
use landlord.Game.Player.Update.{player_update}
use landlord.Game.Room.{Room, logged_out, in_the_game}
use landlord.Game.Room.One.{update_one}
use landlord.Game.Room.Two.{update_two}
use landlord.Game.Room.Three.{update_three}

-- Player::idle
abbrev idle : Player → Bool
idle a = is_null a.queue_flags

-- The body of the loop over `_playerMap`, with the entry kept or erased.
visit : ℕ → ℕ × ℕ → Room → M Room
visit diff (id, p) room = do
  player_update p diff
  a ← read p
  let kept = record room { players = room.players ++ ((id, p) ∷ []) }
  if logged_out a
      then (if in_the_game a then pure kept else (do when (idle a) (delete_player p); pure room))
      else (if a.game_status == GameStatus.started && is_null a.queue_flags
          then (do
            modify p λ q. record q { queue_flags = AtQueueFlags.queue_one }
            pure (record kept { one = room.one ++ (p ∷ []) }))
          else pure kept)

-- The loop; `players` of the room collects the entries that stay.
unfoldable pub visits : ℕ → List (ℕ × ℕ) → Room → M Room
unfolding visit
visits diff [] room = pure room
visits diff (entry ∷ entries) room = do r ← visit diff entry room; visits diff entries r

-- Room::Update
pub room_update : ℕ → Room → M Room
unfolding visits
room_update diff room = do
  r0 ← visits diff room.players (record room { players = [] })
  r1 ← update_one r0
  r2 ← update_two r1
  update_three r2
