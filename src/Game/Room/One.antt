-- ===== src/Game/Room/One.antt =====
-- Room::UpdateOne and getPlayerFromOne (server/game/Room/Room.cpp).
pub mod Seating
pub mod Fuel
pub mod Taking
pub mod Safety
use landlord.Prelude.{
  ℕ, zero, suc, ◌+◌, Bool, true, false, Option, none, some, [], ◌∷◌, ◌++◌, if◌then◌else◌, length,
}
use landlord.Game.Store.{M, ◌>>=◌, ◌>>◌, fault, pure, read}
use landlord.Game.Player.{delete_player, add_player}
use landlord.Game.Room.{Room, enter, logged_out, expired}
use landlord.Game.Room.Pool.{get_ai_player}

-- Room::getPlayerFromOne: takes the first of the list; who has logged out is deleted.
unfoldable pub get_player_from_one : Room → M (Option ℕ × Room)
get_player_from_one room = elim room.one [
  | [] ↦ pure (none, room)
  | p ∷ rest ↦ do
    let room' = record room { one = rest }
    a ← read p
    if logged_out a then (do delete_player p; pure (none, room')) else pure (some p, room')
]

-- Three that are all there sit down together.
pub seat_three : Option ℕ → Option ℕ → Option ℕ → Room → M Room
seat_three (some p0) (some p1) (some p2) room = do
  add_player p0 p1
  add_player p1 p2
  add_player p2 p0
  pure (record room { three = room.three ++ ((p0, p1, p2) ∷ []) })
seat_three _ _ _ room = pure room

-- Two that are both there sit down together.
pub seat_two : Option ℕ → Option ℕ → Room → M Room
seat_two (some p0) (some p1) room = do
  add_player p0 p1
  add_player p1 p0
  pure (record room { two = room.two ++ ((p0, p1) ∷ []) })
seat_two _ _ room = pure room

-- The last one is given an AI when its time is up, and else goes back to the list.
seat_one : ℕ → Room → M Room
seat_one p0 room = do
  a ← read p0
  if expired a
      then (do
        p1 ← get_ai_player a.room_id
        add_player p0 p1
        add_player p1 p0
        b ← read p1
        pure (enter b.info.id p1 (record room { two = room.two ++ ((p0, p1) ∷ []) })))
      else pure (record room { one = room.one ++ (p0 ∷ []) })

-- What the loop of UpdateOne does at a list of this length; the Boolean says that it goes on.
unfoldable pub one_round : Room → M (Bool × Room)
unfolding get_player_from_one seat_three seat_two seat_one
one_round room = elim room.one [
  | [] ↦ pure (false, room)
  | _ ∷ [] ↦ do
    (p0, r1) ← get_player_from_one room
    elim p0 [
      | none ↦ pure (false, r1)
      | some p ↦ do a ← read p; r2 ← seat_one p r1; pure (expired a, r2)
    ]
  | _ ∷ _ ∷ [] ↦ do
    (p0, r1) ← get_player_from_one room
    (p1, r2) ← get_player_from_one r1
    r3 ← seat_two p0 p1 r2
    pure (true, r3)
  | _ ∷ _ ∷ _ ∷ _ ↦ do
    (p0, r1) ← get_player_from_one room
    (p1, r2) ← get_player_from_one r1
    (p2, r3) ← get_player_from_one r2
    r4 ← seat_three p0 p1 p2 r3
    pure (true, r4)
]

-- The loop, on fuel: a round that goes on has taken a player from the list. `stop` is what happens
-- when the fuel is used up before the loop is left.
unfoldable pub one_rounds : (Room → M Room) → ℕ → Room → M Room
unfolding one_round
one_rounds stop zero room = stop room
one_rounds stop (suc fuel) room = do
  (again, room') ← one_round room
  elim again [ true ↦ one_rounds stop fuel room' | false ↦ pure room' ]

-- Room::UpdateOne
unfoldable pub update_one : Room → M Room
unfolding one_rounds
update_one room = one_rounds (λ _. fault) (length room.one + 1) room
