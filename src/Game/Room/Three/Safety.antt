-- ===== src/Game/Room/Three/Safety.antt =====
-- Room::UpdateThree never follows a dangling pointer (server/game/Room/Room.cpp).
use landlord.Prelude.{
  ℕ, ◌<◌, ◌≡◌, refl, Bool, true, false, List, [], ◌∷◌, ◌++◌, arith, if◌then◌else◌, count,
}
use landlord.Cards.Shuffle.Counts.{shuffle_card-IsDeck}
use landlord.Game.Types.{is_ai, plays_as_ai, Player, Game}
use landlord.Game.Types.GameStatus
use landlord.Game.Store.{M, ◌>>=◌, ◌>>◌, pure, when, and_then}
use landlord.Game.Player.{deal_cards, set_status}
use landlord.Game.Room.{Room, round_is_over}
use landlord.Game.Room.Three.{
  logout_three, all_three, all_start, all_at_three, all_wait_deal_cards, shuffled, hands, Hands,
  Table, deal_hands, deal_table, release_seat, release_ai_player, round_over, play_table,
  three_rounds, update_three,
}
use landlord.Game.Room.Holding.{
  Ends, IsSound, at_hand, in_hand, chain, read_chain, when_rule, and_rule, one_if_eq_self,
  count_three-append, count_three,
}
use landlord.Game.Room.Holding.Steps.{modify-IsSound}
use landlord.Game.Room.Three.Parting.{unless_gone, table, in0, in1, in2, logout_three-IsSound}

shuffled-IsSound :
    (hand : List ℕ) (room : Room) (g : Game)
    → IsSound hand room g
    → Ends (λ _. IsSound hand room) (shuffled g)
unfolding shuffled
shuffled-IsSound hand room g s =
    let (d, e, _) = shuffle_card-IsDeck g.random in rw (shuffled, e) (record { holds = s })

-- An AI that replaces nobody goes back to the pool.
release_seat-IsSound :
    (p : ℕ) (hand : List ℕ) (room : Room) (g : Game)
    → IsSound (p ∷ hand) room g
    → Ends (λ _. IsSound hand room) (release_seat p g)
unfolding release_seat
release_seat-IsSound p hand room g s =
    let (a, e) = at_hand p hand room g s in
    let here : 0 < count p (p ∷ hand) = omega (arith, one_if_eq_self p) in
    read_chain p _ g a e (
      when_rule (plays_as_ai a.player_type) _ g (λ q. omega (arith, s q))
        (chain (set_status p GameStatus.log_outed) g (modify-IsSound p _ (p ∷ hand) room g here s)
          λ _ g1 s1.
            when_rule (is_ai a.player_type) _ g1 (λ q. omega (arith, s1 q))
              (record { holds = λ q. omega (arith, s1 q) })))

-- What UpdateThree does with a table after LogoutThree.
abbrev after_logout : Bool → Table → Room → M Room
after_logout broken t room =
    if broken
    then pure room
    else play_table t >>= λ over.
        pure (if over then room else record room { three = room.three ++ (t ∷ []) })

module _ (p0 p1 p2 : ℕ) (hand : List ℕ) (room : Room) where
  all_three-IsSound :
      (test : Player → Bool) (g : Game)
      → IsSound (table p0 p1 p2 hand) room g
      → Ends (λ _. IsSound (table p0 p1 p2 hand) room) (all_three test (p0, p1, p2) g)
  unfolding all_three
  all_three-IsSound test g s =
      let (a, e0) = in_hand p0 (table p0 p1 p2 hand) room g (in0 p0 p1 p2 hand) s in
      let (b, e1) = in_hand p1 (table p0 p1 p2 hand) room g (in1 p0 p1 p2 hand) s in
      let (c, e2) = in_hand p2 (table p0 p1 p2 hand) room g (in2 p0 p1 p2 hand) s in
      read_chain p0 _ g a e0 (
        and_rule (test a) _ g s (
          read_chain p1 _ g b e1
            (and_rule (test b) _ g s (read_chain p2 _ g c e2 (record { holds = s })))))

  deal_hands-IsSound :
      (h : Hands) (g : Game)
      → IsSound (table p0 p1 p2 hand) room g
      → Ends (λ _. IsSound (table p0 p1 p2 hand) room) (deal_hands (p0, p1, p2) h g)
  unfolding deal_hands deal_cards
  deal_hands-IsSound h g s =
      chain (deal_cards p0 h.0 h.3) g
        (modify-IsSound p0 _ (table p0 p1 p2 hand) room g (in0 p0 p1 p2 hand) s)
        λ _ g1 s1.
          chain (deal_cards p1 h.1 h.3) g1
            (modify-IsSound p1 _ (table p0 p1 p2 hand) room g1 (in1 p0 p1 p2 hand) s1)
            λ _ g2 s2. modify-IsSound p2 _ (table p0 p1 p2 hand) room g2 (in2 p0 p1 p2 hand) s2

  deal_table-IsSound :
      (g : Game)
      → IsSound (table p0 p1 p2 hand) room g
      → Ends (λ _. IsSound (table p0 p1 p2 hand) room) (deal_table (p0, p1, p2) g)
  unfolding deal_table
  deal_table-IsSound g s =
      chain shuffled g (shuffled-IsSound (table p0 p1 p2 hand) room g s)
        λ cards g' s'. deal_hands-IsSound (hands cards) g' s'

  release_ai_player-IsSound :
      (g : Game)
      → IsSound (table p0 p1 p2 hand) room g
      → Ends (λ _. IsSound hand room) (release_ai_player (p0, p1, p2) g)
  unfolding release_ai_player
  release_ai_player-IsSound g s =
      chain (release_seat p0) g (release_seat-IsSound p0 (p1 ∷ p2 ∷ hand) room g s) λ _ g1 s1.
        chain (release_seat p1) g1 (release_seat-IsSound p1 (p2 ∷ hand) room g1 s1)
          λ _ g2 s2. release_seat-IsSound p2 hand room g2 s2

  round_over-IsSound :
      (g : Game)
      → IsSound (table p0 p1 p2 hand) room g
      → Ends (λ over. IsSound (unless_gone over p0 p1 p2 hand) room) (round_over (p0, p1, p2) g)
  unfolding round_over
  round_over-IsSound g s =
      chain (all_three round_is_over (p0, p1, p2)) g (all_three-IsSound round_is_over g s)
        λ over g1 s1. closing over g1 s1
    where
      closing :
          (over : Bool) (g1 : Game)
          → IsSound (table p0 p1 p2 hand) room g1
          → Ends
              (λ x. IsSound (unless_gone x p0 p1 p2 hand) room)
              ((when over (release_ai_player (p0, p1, p2)) >> pure over) g1)
      closing true g1 s1 =
          chain (release_ai_player (p0, p1, p2)) g1 (release_ai_player-IsSound g1 s1)
            λ _ g2 s2. record { holds = s2 }
      closing false g1 s1 = record { holds = s1 }

  play_table-IsSound :
      (g : Game)
      → IsSound (table p0 p1 p2 hand) room g
      → Ends (λ over. IsSound (unless_gone over p0 p1 p2 hand) room) (play_table (p0, p1, p2) g)
  unfolding play_table all_start all_at_three all_wait_deal_cards
  play_table-IsSound g s = chain (all_start (p0, p1, p2)) g (all_three-IsSound _ g s) λ start g1 s1.
      chain (and_then start (all_at_three (p0, p1, p2))) g1
        (and_rule start _ g1 s1 (all_three-IsSound _ g1 s1))
        λ seated g2 s2.
          chain (and_then seated (all_wait_deal_cards (p0, p1, p2))) g2
            (and_rule seated _ g2 s2 (all_three-IsSound _ g2 s2))
            λ ready g3 s3.
              chain (when ready (deal_table (p0, p1, p2))) g3
                (when_rule ready _ g3 s3 (deal_table-IsSound g3 s3))
                λ _ g4 s4. round_over-IsSound g4 s4

  stay_or_play :
      (broken : Bool) (g : Game)
      → IsSound (unless_gone broken p0 p1 p2 hand) room g
      → Ends (IsSound hand) (after_logout broken (p0, p1, p2) room g)
  stay_or_play true g s = record { holds = s }
  stay_or_play false g s =
      chain (play_table (p0, p1, p2)) g (play_table-IsSound g s) λ over g' s'. kept over g' s'
    where
      kept :
          (over : Bool) (g' : Game)
          → IsSound (unless_gone over p0 p1 p2 hand) room g'
          → Ends (IsSound hand) (
              pure
                (if over then room else record room { three = room.three ++ ((p0, p1, p2) ∷ []) })
                g')
      kept true g' s' = record { holds = s' }
      kept false g' s' = record {
        holds = λ q. omega (arith, s' q, count_three-append q room.three ((p0, p1, p2) ∷ []));
      }

-- The players of tables.
abbrev table_players : List Table → List ℕ
table_players [] = []
table_players ((p0, p1, p2) ∷ tables) = p0 ∷ p1 ∷ p2 ∷ table_players tables

count-table_players :
    (q : ℕ) (tables : List Table) → count q (table_players tables) ≡ count_three q tables
count-table_players q [] = refl
count-table_players q ((p0, p1, p2) ∷ tables) = omega (arith, count-table_players q tables)

three_rounds-IsSound :
    (tables : List Table) (room : Room) (g : Game)
    → IsSound (table_players tables) room g
    → Ends (IsSound []) (three_rounds tables room g)
unfolding three_rounds
three_rounds-IsSound [] room g s = record { holds = s }
three_rounds-IsSound ((p0, p1, p2) ∷ tables) room g s =
    chain (logout_three (p0, p1, p2) room) g
      (logout_three-IsSound p0 p1 p2 (table_players tables) room g s)
      λ x g1 s1.
        chain (after_logout x.0 (p0, p1, p2) x.1) g1
          (stay_or_play p0 p1 p2 (table_players tables) x.1 x.0 g1 s1)
          λ r g2 s2. three_rounds-IsSound tables r g2 s2

-- UpdateThree of a sound room does not fault, and leaves a sound room.
pub update_three-IsSound :
    (room : Room) (g : Game) → IsSound [] room g → Ends (IsSound []) (update_three room g)
unfolding update_three
update_three-IsSound room g s =
    three_rounds-IsSound room.three (record room { three = [] }) g
      λ q. omega (arith, s q, count-table_players q room.three)
