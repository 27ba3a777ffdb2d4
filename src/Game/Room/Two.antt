-- ===== src/Game/Room/Two.antt =====
-- Room::UpdateTwo and LogoutTwo (server/game/Room/Room.cpp).
pub mod Joining
pub mod Safety
use landlord.Prelude.{
  ℕ, Bool, true, false, ◌||◌, Option, none, some, List, [], ◌∷◌, ◌++◌, if◌then◌else◌,
}
use landlord.Game.Types.{is_ai}
use landlord.Game.Store.{M, ◌>>=◌, ◌>>◌, pure, read}
use landlord.Game.Player.{add_player}
use landlord.Game.Room.{Room, enter, logged_out, expired}
use landlord.Game.Room.Pool.{get_ai_player, release_player, release}
use landlord.Game.Room.One.{get_player_from_one}

-- OUT_TWO: an AI goes back to the pool, any other player back to the list of those alone.
out_two : ℕ → Room → M Room
out_two p room = do
  a ← read p
  if is_ai a.player_type
      then (do release_player p; pure room)
      else pure (record room { one = room.one ++ (p ∷ []) })

-- Room::LogoutTwo; the Boolean says that the pair is broken up.
unfoldable pub logout_two : ℕ × ℕ → Room → M (Bool × Room)
unfolding out_two
logout_two (p0, p1) room = do
  a ← read p0
  b ← read p1
  if logged_out a
      then (if logged_out b
          then (do release p0; release p1; pure (true, room))
          else (do release p0; r ← out_two p1 room; pure (true, r)))
      else (if logged_out b
          then (do r ← out_two p0 room; release p1; pure (true, r))
          else pure (false, room))

-- `if (p2 == nullptr) p2 = sAiPlayerPool->getAiPlayer(...)`
third_player : Option ℕ → ℕ → M ℕ
third_player (some p2) room_id = pure p2
third_player none room_id = get_ai_player room_id

-- The third player sits down with the pair.
pub join_two : ℕ → ℕ → ℕ → Room → M Room
join_two p0 p1 p room = do
  add_player p0 p
  add_player p1 p
  c ← read p
  pure (enter c.info.id p (record room { three = room.three ++ ((p0, p1, p) ∷ []) }))

-- A pair is given a third player: the next who is alone, or an AI once a waiting time is up.
pub complete_two : ℕ × ℕ → Room → M Room
unfolding third_player
complete_two (p0, p1) room = do
  (p2, r1) ← get_player_from_one room
  a ← read p0
  b ← read p1
  if expired a || expired b || (elim p2 [ none ↦ false | some _ ↦ true ])
      then (do p ← third_player p2 a.room_id; join_two p0 p1 p r1)
      else pure (record r1 { two = r1.two ++ ((p0, p1) ∷ []) })

-- The loop over the pairs; `two` of the room collects those that stay.
unfoldable pub two_rounds : List (ℕ × ℕ) → Room → M Room
unfolding logout_two complete_two join_two
two_rounds [] room = pure room
two_rounds (pair ∷ pairs) room = do
  (broken, r1) ← logout_two pair room
  r2 ← if broken then pure r1 else complete_two pair r1
  two_rounds pairs r2

-- Room::UpdateTwo
unfoldable pub update_two : Room → M Room
unfolding two_rounds
update_two room = two_rounds room.two (record room { two = [] })
