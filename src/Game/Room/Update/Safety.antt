-- ===== src/Game/Room/Update/Safety.antt =====
-- The second half of Room::Update never follows a dangling pointer (server/game/Room/Room.cpp).
use landlord.Prelude.{ℕ, ◌≡◌, some, []}
use landlord.Game.Types.{Game}
use landlord.Game.Store.{M, ◌>>=◌}
use landlord.Game.Spec.{Ensures}
use landlord.Game.Store.Chain.{step}
use landlord.Game.Room.{Room}
use landlord.Game.Room.One.{update_one}
use landlord.Game.Room.Two.{update_two}
use landlord.Game.Room.Three.{update_three}
use landlord.Game.Room.Update.{visits, room_update}
use landlord.Game.Room.Holding.{Ends, IsSound, chain}
use landlord.Game.Room.One.Safety.{update_one-IsSound}
use landlord.Game.Room.Two.Safety.{update_two-IsSound}
use landlord.Game.Room.Three.Safety.{update_three-IsSound}

seating : Room → M Room
seating room = do r1 ← update_one room; r2 ← update_two r1; update_three r2

seating-IsSound : (room : Room) (g : Game) → IsSound [] room g → Ends (IsSound []) (seating room g)
unfolding seating
seating-IsSound room g s = chain (update_one room) g (update_one-IsSound room g s) λ r1 g1 s1.
    chain (update_two r1) g1 (update_two-IsSound r1 g1 s1) λ r2 g2 s2. update_three-IsSound r2 g2 s2

-- If every player in the lists of the room and in the pool of AIs exists when Room::Update has
-- updated its players, and nobody stands there twice, then UpdateOne, UpdateTwo and UpdateThree
-- follow no dangling pointer, whoever has logged out and whatever rand() returns, and the same holds
-- when they are done.
pub room_update-IsSound :
    (diff : ℕ) (room r0 : Room) (g g0 : Game)
    → visits diff room.players (record room { players = [] }) g ≡ some (r0, g0)
    → IsSound [] r0 g0
    → Ensures (IsSound []) (room_update diff room g)
unfolding room_update seating
room_update-IsSound diff room r0 g g0 e s =
    rw (step (visits diff room.players (record room { players = [] })) seating g e)
      ((seating-IsSound r0 g0 s).holds)
