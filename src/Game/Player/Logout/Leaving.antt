-- ===== src/Game/Player/Logout/Leaving.antt =====
-- What leaving does to a player and to the table (server/game/Player/Player.cpp,
-- Player::checkOutPlayer and logOutPlayer).
use landlord.Prelude.{
  ℕ, suc, ◌≡◌, refl, inl, inr, ◌≢◌, ◌⊎◌, ◌<◌, ◌≤◌, List, true, false, ◌==◌, ◌||◌, none, some, ◌∷◌,
  ap, ◌∙◌, Bool, if◌then◌else◌, arith,
}
use native.Mathlib.Decide.{ℕ_discrete}
use landlord.Game.Types.{low_nibble, high_nibble, PlayerType, is_user, Packet, Player, Game}
use landlord.Game.Types.GameStatus
use landlord.Game.Store.{M, ◌>>=◌, ◌>>◌, when}
use landlord.Game.Spec.{Ensures, Seated, at_player}
use landlord.Game.Player.Logout.{
  logout_status, tell, log_out_packet, check_out_player, leave, detach, leave_running, leave_table,
}

-- A user who is alone and whose status has the bit GAME_STATUS_LOG_OUTING leaves for good: the session
-- is told 2 and forgets the player, and the player forgets the session.
check_out_player-alone :
    (fuel p s : ℕ) (g : Game) (a : Player)
    → g.cell p ≡ some a
    → high_nibble a.game_status ≡ GameStatus.log_outing
    → logout_status a.game_status ≡ 2
    → a.player_type ≡ PlayerType.user
    → a.session ≡ some s
    → a.left ≡ none
    → a.right ≡ none
    → Ensures
        (λ _ g'.
          (g'.cell p ≡ some (record a { session = none; game_status = GameStatus.log_outed }))
          × (g'.sent ≡ (s, log_out_packet a.info.id 2) ∷ g.sent)
          × (g'.session_player s ≡ none))
        (check_out_player (suc fuel) p g)
unfolding check_out_player
check_out_player-alone fuel p s g a h hs hl ht hn el er = ground arith

-- Nothing happens to a player who is not logging out.
check_out_player-stays :
    (fuel p : ℕ) (g : Game) (a : Player)
    → g.cell p ≡ some a
    → high_nibble a.game_status ≢ GameStatus.log_outing
    → check_out_player (suc fuel) p g ≡ some (tt, g)
unfolding check_out_player
check_out_player-stays fuel p g a h hs = ground arith

-- A game runs from the end of dealing to the end of the round.
abbrev pub IsRunning : ℕ → Type 0
IsRunning status =
    (GameStatus.dealing_card < low_nibble status) × (low_nibble status < GameStatus.roundovering)

abbrev pub IsPaused : ℕ → Type 0
IsPaused status =
    (low_nibble status ≤ GameStatus.dealing_card) ⊎ (GameStatus.roundovering ≤ low_nibble status)

abbrev pub IsUserOf : ℕ → Player → Type 0
IsUserOf s a = (a.player_type ≡ PlayerType.user) × (a.session ≡ some s)

-- All three sessions are told the same.
abbrev pub told : ℕ → ℕ → ℕ → Packet → List (ℕ × Packet) → List (ℕ × Packet)
told s t u packet sent = (u, packet) ∷ (t, packet) ∷ (s, packet) ∷ sent

-- The player `p` leaves and its session `s` forgets it.
abbrev pub Leaves : ℕ → ℕ → ℕ → ℕ → Player → Player → Player → Game → Type 0
Leaves p l r s a b c g' =
    (g'.cell p ≡ some (record a { session = none }))
    × (g'.cell l ≡ some b)
    × (g'.cell r ≡ some c)
    × (g'.session_player s ≡ none)

-- The steps of a chain, one at a time.
goes_to : (m k : M (Unit {0})) (g g' : Game) → m g ≡ some (tt, g') → (m >> k) g ≡ k g'
goes_to m k g g' e = rw (◌>>◌, ◌>>=◌, e) refl

tell-user :
    (s p : ℕ) (packet : Packet) (a : Player) (g : Game)
    → g.cell p ≡ some a
    → IsUserOf s a
    → tell (some p) packet g ≡ some (tt, record g { sent = (s, packet) ∷ g.sent })
tell-user s p packet a g h ha = ground arith

module _ (fuel p l r s t u : ℕ) (g : Game) (a b c : Player) where
  -- In a running game all are told 4, and the AI takes over.
  told_running :
      Seated g p l r a b c
      → high_nibble a.game_status ≡ GameStatus.log_outing
      → IsRunning a.game_status
      → IsUserOf s a
      → IsUserOf t b
      → IsUserOf u c
      → check_out_player (suc fuel) p g
        ≡ (leave_running p >> detach p)
            (record g { sent = told s t u (log_out_packet a.info.id 4) g.sent })
  unfolding check_out_player leave
  told_running seat hl run ha hb hc =
      let four : (logout_status a.game_status == 4) ≡ true = ground arith in
      let entered : (high_nibble a.game_status == GameStatus.log_outing) ≡ true = ground arith in
      let status : logout_status a.game_status ≡ 4 = ground arith in
      let packet : Packet = log_out_packet a.info.id (logout_status a.game_status) in
      let g1 : Game = record g { sent = (s, packet) ∷ g.sent } in
      let g2 : Game = record g1 { sent = (t, packet) ∷ g1.sent } in
      let g3 : Game = record g2 { sent = (u, packet) ∷ g2.sent } in
      let again : ℕ → M (Unit {0}) = check_out_player fuel in
      let end : M (Unit {0}) =
        (if logout_status a.game_status == 4 then leave_running p else leave_table again p)
        >> detach p in
      let second : tell a.left packet g1 ≡ some (tt, g2) =
        rw seat.left_link (tell-user t l packet b g1 seat.to_left hb) in
      let third : tell a.right packet g2 ≡ some (tt, g3) =
        rw seat.right_link (tell-user u r packet c g2 seat.to_right hc) in
      let enters : check_out_player (suc fuel) p g ≡ leave again p g =
        at_player p a _ g seat.me ∙ ap (λ (t : Bool). when t (leave again p) g) entered in
      enters
      ∙ at_player p a _ g seat.me
      ∙ goes_to (tell (some p) packet) _ g g1 (tell-user s p packet a g seat.me ha)
      ∙ goes_to (tell a.left packet) _ g1 g2 second
      ∙ goes_to (tell a.right packet) end g2 g3 third
      ∙ ap (λ (t : Bool). ((if t then leave_running p else leave_table again p) >> detach p) g3)
          four
      ∙ ap
          (λ (k : ℕ).
            (leave_running p >> detach p)
              (record g { sent = told s t u (log_out_packet a.info.id k) g.sent }))
          status

  taken_over :
      Seated g p l r a b c
      → IsUserOf s a
      → IsUserOf t b
      → Ensures
          (λ _ g'.
            Leaves p l r s
              (record a {
                player_type = PlayerType.replace_ai;
                game_status = low_nibble a.game_status;
              })
              b
              c
              g'
            × (g'.sent ≡ g.sent))
          ((leave_running p >> detach p) g)
  unfolding leave_running detach
  taken_over seat ha hb = ground arith

  left_table :
      Seated g p l r a b c
      → high_nibble a.game_status ≡ GameStatus.log_outing
      → IsPaused a.game_status
      → IsUserOf s a
      → IsUserOf t b
      → IsUserOf u c
      → Ensures
          (λ _ g'.
            Leaves p l r s
              (record a { left = none; right = none; game_status = GameStatus.log_outed })
              (record b { right = none })
              (record c { left = none })
              g'
            × (g'.sent ≡ told s t u (log_out_packet a.info.id 2) g.sent))
          (check_out_player (suc fuel) p g)
  unfolding check_out_player leave leave_table detach
  left_table seat hl run ha hb hc = ground arith

-- If no other seat is a user the whole table logs out.
leave_running-last :
    (p l r : ℕ) (g : Game) (a b c : Player)
    → Seated g p l r a b c
    → is_user b.player_type || is_user c.player_type ≡ false
    → Ensures
        (λ _ g'.
          (g'.cell p
            ≡ some (record a {
              player_type = PlayerType.replace_ai;
              game_status = GameStatus.log_outed;
            }))
          × (g'.cell l ≡ some (record b { game_status = GameStatus.log_outing }))
          × (g'.cell r ≡ some (record c { game_status = GameStatus.log_outing })))
        (leave_running p g)
unfolding leave_running
leave_running-last p l r g a b c s h = ground arith

status_cases : (status : ℕ) → IsRunning status ⊎ IsPaused status
status_cases status = ground arith

-- checkOutPlayer for a user at a table of users, each with a session. Without the bit of logging out
-- nothing happens. Else all three sessions are told the same and the session of the player forgets
-- it, and in a running game the AI takes over the seat, with the status less that bit, while the
-- neighbours do not change; outside a running game the links are cut on both sides and the player has
-- left for good.
pub check_out_player-users :
    (fuel p l r s t u : ℕ) (g : Game) (a b c : Player)
    → Seated g p l r a b c
    → IsUserOf s a
    → IsUserOf t b
    → IsUserOf u c
    → ((high_nibble a.game_status ≢ GameStatus.log_outing)
        × (check_out_player (suc fuel) p g ≡ some (tt, g)))
      ⊎ ((high_nibble a.game_status ≡ GameStatus.log_outing)
          × IsRunning a.game_status
          × Ensures
              (λ _ g'.
                Leaves p l r s
                  (record a {
                    player_type = PlayerType.replace_ai;
                    game_status = low_nibble a.game_status;
                  })
                  b
                  c
                  g'
                × (g'.sent ≡ told s t u (log_out_packet a.info.id 4) g.sent))
              (check_out_player (suc fuel) p g))
      ⊎ ((high_nibble a.game_status ≡ GameStatus.log_outing)
          × IsPaused a.game_status
          × Ensures
              (λ _ g'.
                Leaves p l r s
                  (record a { left = none; right = none; game_status = GameStatus.log_outed })
                  (record b { right = none })
                  (record c { left = none })
                  g'
                × (g'.sent ≡ told s t u (log_out_packet a.info.id 2) g.sent))
              (check_out_player (suc fuel) p g))
check_out_player-users fuel p l r s t u g a b c seat ha hb hc =
    elim (ℕ_discrete (high_nibble a.game_status) GameStatus.log_outing) [
      | no stays ↦ inl (stays, check_out_player-stays fuel p g a seat.me stays)
      | yes out ↦ elim (status_cases a.game_status) [
        | inl run ↦
            let seat' : Seated (record g { sent = told s t u (log_out_packet a.info.id 4) g.sent })
                p l r a b c =
              record {
                distinct = seat.distinct;
                me = seat.me;
                to_left = seat.to_left;
                to_right = seat.to_right;
                left_link = seat.left_link;
                right_link = seat.right_link;
              } in
            inr (
              inl (
                out,
                run,
                rw (told_running fuel p l r s t u g a b c seat out run ha hb hc)
                    (taken_over fuel p l r s t u _ a b c seat' ha hb),
              ))
        | inr paused ↦
            inr (inr (out, paused, left_table fuel p l r s t u g a b c seat out paused ha hb hc))
      ]
    ]
