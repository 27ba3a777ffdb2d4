-- ===== src/Game/Player/RoundOver/Closing.antt =====
-- The end of a round (server/game/Player/Player.cpp, Player::checkRoundOver and resetGame).
use landlord.Prelude.{
  ℕ, suc, ◌≡◌, refl, ◌≢◌, ◌⊎◌, inl, inr, true, Bool, ap, ◌∙◌, none, some, List, ◌==◌, ◌∷◌, arith,
  if◌then◌else◌, minus_one,
}
use landlord.Game.Types.{
  PlayerInfo, PlayerType, is_ai, AtQueueFlags, Player, Packet, Game, get_int_config,
}
use landlord.Game.Types.GameStatus
use landlord.Game.Types.Configs
use landlord.Game.Store.{M, ◌>>=◌, ◌>>◌, read, when}
use landlord.Game.Spec.{Ensures, Seated, chain_rule, at_player}
use native.Mathlib.Decide.{ℕ_discrete}
use mathlib.Core.Path.{subst}
use landlord.Game.Player.{no_cards, reset_game}
use landlord.Game.Player.Score.{update_player_data, update_player_level, count_round}
use landlord.Game.Player.RoundOver.{close_round, check_round_over, round_over_packet}

-- A player whose round is over leaves the table's links, hand, bids and gold behind and starts new
-- waiting times; the status, the session, the type and the PlayerInfo stay. An AI keeps its queue
-- flag.
reset_game_lem :
    (p : ℕ) (g : Game) (a : Player)
    → g.cell p ≡ some a
    → Ensures
        (λ _ g'.
          g'.cell p
          ≡ some (record a {
            cards = no_cards;
            queue_flags = if is_ai a.player_type then a.queue_flags else AtQueueFlags.queue_null;
            expiration = get_int_config g Configs.wait_time;
            ai_delay = get_int_config g Configs.ai_delay;
            left = none;
            right = none;
            default_landlord = 0;
            grab_score = minus_one;
            landlord_id = minus_one;
            win_gold = 0;
          }))
        (reset_game p g)
unfolding reset_game
reset_game_lem p g a h = ground arith

-- A client may end the round at any time. For a player with no left neighbour, whose score is below
-- the last level, checkRoundOver follows a null pointer.
check_round_over-no_table :
    (fuel p s : ℕ) (g : Game) (a : Player) (info : PlayerInfo)
    → g.cell p ≡ some a
    → a.game_status ≡ GameStatus.roundovering
    → a.session ≡ some s
    → a.left ≡ none
    → update_player_level (count_round g a) ≡ some info
    → check_round_over (suc fuel) p g ≡ none
unfolding check_round_over update_player_data
check_round_over-no_table fuel p s g a info h hs hn hl hu = ground arith

-- A player after the round, with these data.
abbrev pub reset_player : Game → PlayerInfo → Player → Player
reset_player g info a = record a {
  info = info;
  cards = no_cards;
  queue_flags = AtQueueFlags.queue_null;
  expiration = get_int_config g Configs.wait_time;
  ai_delay = get_int_config g Configs.ai_delay;
  left = none;
  right = none;
  default_landlord = 0;
  grab_score = minus_one;
  landlord_id = minus_one;
  win_gold = 0;
  game_status = GameStatus.roundovered;
}

-- The players of a table once `a` has left it, and what the sessions have been sent.
abbrev pub AfterRound : ℕ → ℕ → ℕ → Player → Player → Player → List (ℕ × Packet) → Game → Type 0
AfterRound p l r a b c sent g' =
    (g'.cell p ≡ some a) × (g'.cell l ≡ some b) × (g'.cell r ≡ some c) × (g'.sent ≡ sent)

module _ (fuel p l r s : ℕ) (g : Game) (a b c : Player) where
  Closed : PlayerInfo → Game → Type 0
  Closed info h =
      (h.cell p ≡ some (record a { info = info; game_status = GameStatus.roundovered }))
      × (h.cell l ≡ some b)
      × (h.cell r ≡ some c)
      × (h.sent ≡ (s, round_over_packet info) ∷ g.sent)
      × (h.int_configs ≡ g.int_configs)

  close_round-Closed :
      (info : PlayerInfo)
      → Seated g p l r a b c
      → a.player_type ≡ PlayerType.user
      → b.player_type ≡ PlayerType.user
      → c.player_type ≡ PlayerType.user
      → a.session ≡ some s
      → update_player_level (count_round g a) ≡ some info
      → Ensures (λ _ h. Closed info h) (close_round (check_round_over fuel) p g)
  unfolding close_round update_player_data Closed
  close_round-Closed info seat ht hb hc hn hu = ground arith

  same_config :
      (h : Game) (i : ℕ) → h.int_configs ≡ g.int_configs → get_int_config h i ≡ get_int_config g i
  unfolding get_int_config
  same_config h i e = rw e refl

  reset_with :
      (info : PlayerInfo) (h : Game)
      → a.player_type ≡ PlayerType.user
      → (p ≢ l) × (p ≢ r)
      → h.cell p ≡ some (record a { info = info; game_status = GameStatus.roundovered })
      → h.cell l ≡ some b
      → h.cell r ≡ some c
      → Ensures
          (λ _ g'. AfterRound p l r (reset_player h info a) b c h.sent g')
          ((read p >>= λ b'. when (b'.game_status == GameStatus.roundovered) (reset_game p)) h)
  unfolding reset_game
  reset_with info h ht d hp hl hr = ground arith

  reset_after :
      (info : PlayerInfo) (h : Game)
      → Seated g p l r a b c
      → a.player_type ≡ PlayerType.user
      → Closed info h
      → Ensures
          (λ _ g'.
            AfterRound p l r (reset_player g info a) b c ((s, round_over_packet info) ∷ g.sent) g')
          ((read p >>= λ b'. when (b'.game_status == GameStatus.roundovered) (reset_game p)) h)
  unfolding Closed
  reset_after info h seat ht closed =
      let same : reset_player h info a ≡ reset_player g info a =
        simp (same_config h Configs.wait_time closed.4, same_config h Configs.ai_delay closed.4)
          refl in
      subst
        (λ (q : Player × List (ℕ × Packet)).
          Ensures (λ _ g'. AfterRound p l r q.0 b c q.1 g')
            ((read p >>= λ b'. when (b'.game_status == GameStatus.roundovered) (reset_game p)) h))
        (λ i. (same i, closed.3 i))
        (reset_with info h ht (seat.distinct.0, seat.distinct.1) closed.0 closed.1 closed.2)

  entering :
      Seated g p l r a b c
      → a.game_status ≡ GameStatus.roundovering
      → check_round_over (suc fuel) p g
        ≡ (close_round (check_round_over fuel) p
              >> (read p >>= λ b'. when (b'.game_status == GameStatus.roundovered) (reset_game p)))
            g
  unfolding check_round_over
  entering seat hs =
      let closes : (a.game_status == GameStatus.roundovering) ≡ true = ground arith in
      let rest : M (Unit {0}) =
        read p >>= λ b'. when (b'.game_status == GameStatus.roundovered) (reset_game p) in
      at_player p a _ g seat.me
      ∙ ap (λ (t : Bool). (when t (close_round (check_round_over fuel) p) >> rest) g) closes

  round_closed :
      (info : PlayerInfo)
      → Seated g p l r a b c
      → a.player_type ≡ PlayerType.user
      → b.player_type ≡ PlayerType.user
      → c.player_type ≡ PlayerType.user
      → a.session ≡ some s
      → update_player_level (count_round g a) ≡ some info
      → a.game_status ≡ GameStatus.roundovering
      → Ensures
          (λ _ g'.
            AfterRound p l r (reset_player g info a) b c ((s, round_over_packet info) ∷ g.sent) g')
          (check_round_over (suc fuel) p g)
  round_closed info seat ht hb hc hn hu hs = rw (entering seat hs) (
      chain_rule (Closed info) _ (close_round (check_round_over fuel) p g) _ g
        (close_round-Closed info seat ht hb hc hn hu) λ h closed. reset_after info h seat ht closed)

  round_left :
      Seated g p l r a b c
      → a.player_type ≡ PlayerType.user
      → a.game_status ≡ GameStatus.roundovered
      → Ensures
          (λ _ g'. AfterRound p l r (reset_player g a.info a) b c g.sent g')
          (check_round_over (suc fuel) p g)
  unfolding check_round_over reset_game
  round_left seat ht hs = ground arith

  round_open :
      Seated g p l r a b c
      → a.game_status ≢ GameStatus.roundovering
      → a.game_status ≢ GameStatus.roundovered
      → check_round_over (suc fuel) p g ≡ some (tt, g)
  unfolding check_round_over
  round_open seat hs hd = ground arith

  -- checkRoundOver for a user with a session at a table of users. When the round ends, the data are
  -- brought up to date and sent to the user's own session, and when it has ended, and so in the same
  -- call, the user leaves the table, hand, bids, gold and queue behind and starts new waiting times;
  -- the neighbours do not change. In every other status nothing happens. The data are those for which
  -- the table of levels is not left.
  pub check_round_over-users :
      (info : PlayerInfo)
      → Seated g p l r a b c
      → a.player_type ≡ PlayerType.user
      → b.player_type ≡ PlayerType.user
      → c.player_type ≡ PlayerType.user
      → a.session ≡ some s
      → update_player_level (count_round g a) ≡ some info
      → ((a.game_status ≡ GameStatus.roundovering)
          × Ensures
              (λ _ g'.
                AfterRound p l r
                  (reset_player g info a)
                  b
                  c
                  ((s, round_over_packet info) ∷ g.sent)
                  g')
              (check_round_over (suc fuel) p g))
        ⊎ ((a.game_status ≡ GameStatus.roundovered)
            × Ensures
                (λ _ g'. AfterRound p l r (reset_player g a.info a) b c g.sent g')
                (check_round_over (suc fuel) p g))
        ⊎ ((a.game_status ≢ GameStatus.roundovering)
            × (a.game_status ≢ GameStatus.roundovered)
            × (check_round_over (suc fuel) p g ≡ some (tt, g)))
  check_round_over-users info seat ht hb hc hn hu =
      elim (ℕ_discrete a.game_status GameStatus.roundovering) [
        | yes ending ↦ inl (ending, round_closed info seat ht hb hc hn hu ending)
        | no other ↦ elim (ℕ_discrete a.game_status GameStatus.roundovered) [
          | yes ended ↦ inr (inl (ended, round_left seat ht ended))
          | no open_round ↦ inr (inr (other, open_round, round_open seat other open_round))
        ]
      ]
