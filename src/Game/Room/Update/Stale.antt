-- ===== src/Game/Room/Update/Stale.antt =====
-- An AI that leaves before its first update (server/game/Room/Room.cpp, Room::Update).
use landlord.Prelude.{ℕ, ◌≡◌, ◌≢◌, refl, none, some, Option, List, [], ◌∷◌, arith, sub32}
use landlord.Game.Types.{Player, PlayerType, AtQueueFlags, Game}
use landlord.Game.Types.GameStatus
use landlord.Game.Store.{◌>>=◌, update}
use landlord.Game.Spec.{Ensures}
use landlord.Game.Player.{delete_player, check_queue_status}
use landlord.Game.Player.Update.{player_update}
use landlord.Game.Player.Logout.{check_out_player, log_out_player}
use landlord.Game.Player.Deal.{check_start, check_deal_cards}
use landlord.Game.Player.Bidding.{check_grab_landlord}
use landlord.Game.Player.Playing.{check_out_card}
use landlord.Game.Player.RoundOver.{check_round_over}
use landlord.Game.Room.{Room}
use landlord.Game.Room.One.{update_one, one_rounds, one_round}
use landlord.Game.Room.Two.{update_two, two_rounds, logout_two}
use landlord.Game.Room.Update.{visit, visits, room_update}

-- A player who has left the table and logged out.
abbrev gone : Player → AtQueueFlags → Player
gone a flags = record a {
  queue_flags = flags;
  game_status = GameStatus.log_outed;
  left = none;
  right = none;
}

-- Updating one who has never stood in a queue changes nothing.
player_update-gone :
    (p diff : ℕ) (a : Player) (g : Game)
    → g.cell p ≡ some (gone a AtQueueFlags.queue_null)
    → a.player_type ≡ PlayerType.ai
    → player_update p diff g ≡ some (tt, g)
unfolding player_update check_out_player check_queue_status check_start check_deal_cards
    check_grab_landlord check_out_card check_round_over
player_update-gone p diff a g e t = ground arith

-- Updating one who waited alone takes the time off.
player_update-waiting :
    (p diff : ℕ) (a : Player) (g : Game)
    → g.cell p ≡ some (gone a AtQueueFlags.queue_one)
    → a.player_type ≡ PlayerType.user
    → player_update p diff g
      ≡ some (
        tt,
        record g {
          cell = update g.cell p (
              some
                (record (gone a AtQueueFlags.queue_one) { expiration = sub32 a.expiration diff }));
        },
      )
unfolding player_update check_out_player check_queue_status check_start check_deal_cards
    check_grab_landlord check_out_card check_round_over
player_update-waiting p diff a g e t = ground arith

abbrev waited : ℕ → Player → Player
waited diff a = record (gone a AtQueueFlags.queue_one) { expiration = sub32 a.expiration diff }

visit-waiting :
    (i p diff : ℕ) (a : Player) (room : Room) (g : Game)
    → g.cell p ≡ some (gone a AtQueueFlags.queue_one)
    → a.player_type ≡ PlayerType.user
    → visit diff (i, p) room g
      ≡ some (room, record g { cell = update g.cell p (some (waited diff a)) })
unfolding visit
visit-waiting i p diff a room g e t = ground (arith, player_update-waiting p diff a g e t)

-- Who logs out and has never stood in a queue is deleted, an AI too.
visit-fresh :
    (j q diff : ℕ) (b : Player) (room : Room) (g : Game)
    → g.cell q ≡ some (gone b AtQueueFlags.queue_null)
    → b.player_type ≡ PlayerType.ai
    → visit diff (j, q) room g ≡ some (room, record g { cell = update g.cell q none })
unfolding visit delete_player
visit-fresh j q diff b room g e t = ground (arith, player_update-gone q diff b g e t)

update_two-dangling :
    (p q : ℕ) (pairs : List (ℕ × ℕ)) (room : Room) (g : Game)
    → room.two ≡ (p, q) ∷ pairs
    → g.cell q ≡ none
    → update_two room g ≡ none
unfolding update_two two_rounds logout_two
update_two-dangling p q pairs room g e h = ground arith

update_one-empty : (room : Room) (g : Game) → room.one ≡ [] → update_one room g ≡ some (room, g)
unfolding update_one one_rounds one_round
update_one-empty room g e = ground arith

-- The room while its players are visited: none has been kept.
abbrev pub emptied : Room → Room
emptied room = record room { players = [] }

-- What the update of the room is, if both have logged out: the loop deletes the AI and keeps the pair,
-- UpdateOne changes nothing, and UpdateTwo follows the pointer.
abbrev pub Faults : ℕ → ℕ → Room → Game → Type 0
Faults q diff room g =
    (g' : Game) × (visits diff room.players (emptied room) g ≡ some (emptied room, g'))
    × (g'.cell q ≡ none)
    × (update_one (emptied room) g' ≡ some (emptied room, g'))
    × (update_two (emptied room) g' ≡ none)
    × (room_update diff room g ≡ none)

-- The update of a room in which both have logged out.
room_update-gone :
    (p q i j diff : ℕ) (pairs : List (ℕ × ℕ)) (a b : Player) (room : Room) (g : Game)
    → p ≢ q
    → g.cell p ≡ some (gone a AtQueueFlags.queue_one)
    → a.player_type ≡ PlayerType.user
    → g.cell q ≡ some (gone b AtQueueFlags.queue_null)
    → b.player_type ≡ PlayerType.ai
    → room.players ≡ (i, p) ∷ (j, q) ∷ []
    → room.one ≡ []
    → room.two ≡ (p, q) ∷ pairs
    → Faults q diff room g
unfolding room_update visits
room_update-gone p q i j diff pairs a b room g d hp ta hq tb ep eo et =
    let r : Room = emptied room in
    let g1 : Game = record g { cell = update g.cell p (some (waited diff a)) } in
    let g2 : Game = record g1 { cell = update g1.cell q none } in
    let hq1 : g1.cell q ≡ some (gone b AtQueueFlags.queue_null) = ground arith in
    let hq2 : g2.cell q ≡ none = ground arith in
    let loop : visits diff room.players r g ≡ some (r, g2) =
      rw (ep, visits, ◌>>=◌, visit-waiting i p diff a r g hp ta, visit-fresh j q diff b r g1 hq1 tb)
        refl in
    let one : update_one r g2 ≡ some (r, g2) = update_one-empty r g2 eo in
    let two : update_two r g2 ≡ none = update_two-dangling p q pairs r g2 et hq2 in
    (g2, loop, hq2, one, two, rw (room_update, ◌>>=◌, loop, one, two) refl)

module _ (p q s : ℕ) (a b : Player) where
  -- A user who waits, and the new AI that UpdateOne has just seated on the left.
  abbrev pub waiting : Player
  waiting = record a {
    session = some s;
    left = some q;
    right = none;
    queue_flags = AtQueueFlags.queue_one;
    player_type = PlayerType.user;
    game_status = GameStatus.started;
  }

  abbrev pub fresh : Player
  fresh = record b {
    session = none;
    left = none;
    right = some p;
    queue_flags = AtQueueFlags.queue_null;
    player_type = PlayerType.ai;
    game_status = GameStatus.starting;
  }

  log_out_waiting :
      (g : Game)
      → p ≢ q
      → g.cell p ≡ some waiting
      → g.cell q ≡ some fresh
      → Ensures
          (λ _ g'.
            (g'.cell p ≡ some (gone (record waiting { session = none }) AtQueueFlags.queue_one))
            × (g'.cell q ≡ some (gone fresh AtQueueFlags.queue_null)))
          (log_out_player 4 p g)
  unfolding log_out_player check_out_player
  log_out_waiting g d hp hq = ground arith

  logged_out :
      (o : Option (Unit {0} × Game)) (P : Game → Type 0)
      → Ensures (λ _ g'. P g') o
      → (g' : Game) × (o ≡ some (tt, g')) × P g'
  logged_out none P h = absurd h
  logged_out (some (u, g')) P h = (g', refl, h)

  -- If the user of a pair logs out before the new AI of that pair was ever updated, the log-out
  -- succeeds, and the next update of the room faults: the loop over the players deletes the AI while
  -- the pair still holds it, UpdateOne changes nothing, and UpdateTwo follows the pointer. The two are
  -- the only players of the room, nobody waits alone, and the pair is the first.
  pub room_update-fresh_ai :
      (i j diff : ℕ) (pairs : List (ℕ × ℕ)) (room : Room) (g : Game)
      → p ≢ q
      → g.cell p ≡ some waiting
      → g.cell q ≡ some fresh
      → room.players ≡ (i, p) ∷ (j, q) ∷ []
      → room.one ≡ []
      → room.two ≡ (p, q) ∷ pairs
      → (g' : Game) × (log_out_player 4 p g ≡ some (tt, g')) × Faults q diff room g'
  room_update-fresh_ai i j diff pairs room g d hp hq ep eo et =
      let (g', ran, e) = logged_out (log_out_player 4 p g) _ (log_out_waiting g d hp hq) in
      (
        g',
        ran,
        room_update-gone p q i j diff pairs (record waiting { session = none }) fresh room g' d e.0
            refl e.1 refl ep eo et,
      )
