-- ===== src/Game/Player/Score/Levels.antt =====
-- Gold, levels and points after a round (server/game/Player/Player.cpp, Player::UpdatePlayerData,
-- UpdatePlayerLevel and calcDoubleScore).
use landlord.Prelude.{
  ℕ, ◌+◌, ◌-◌, ◌^◌, ◌≤◌, ◌<◌, ◌≡◌, refl, ap, ◌⊎◌, inl, inr, false, none, some, List, [], ◌∷◌, arith,
  leb, if◌then◌else◌, u32_mod, is_positive,
}
use native.Mathlib.Decide.{dec_lt}
use landlord.Game.Types.{PlayerInfo, Player, Game}
use landlord.Game.Player.Score.{level_table, level_from, update_player_level, count_round}

-- How many of the bounds a score has reached.
abbrev reached : ℕ → List ℕ → ℕ
reached score [] = 0
reached score (bound ∷ bounds) = (if leb bound score then 1 else 0) + reached score bounds

-- Bounds that rise, above a given one.
abbrev Rises : ℕ → List ℕ → Type 0
Rises low [] = Unit
Rises low (bound ∷ bounds) = (low ≤ bound) × Rises bound bounds

-- The last bound of a list, or a given one.
abbrev last_bound : ℕ → List ℕ → ℕ
last_bound low [] = low
last_bound low (bound ∷ bounds) = last_bound bound bounds

reached_none :
    (score low : ℕ) (bounds : List ℕ) → Rises low bounds → score < low → reached score bounds ≡ 0
reached_none score low [] h lt = refl
reached_none score low (bound ∷ bounds) h lt =
    ground (arith, reached_none score bound bounds h.1 (omega arith))

last_bound-le : (low : ℕ) (bounds : List ℕ) → Rises low bounds → low ≤ last_bound low bounds
last_bound-le low [] h = omega arith
last_bound-le low (bound ∷ bounds) h = omega (arith, last_bound-le bound bounds h.1)

-- The loop stops at the first bound above the score.
level_from-reached :
    (score level low : ℕ) (bounds : List ℕ)
    → Rises low bounds
    → score < last_bound low bounds
    → low ≤ score
    → level_from score level bounds ≡ some (level + reached score bounds)
unfolding level_from
level_from-reached score level low [] h lt le = absurd (omega arith)
level_from-reached score level low (bound ∷ bounds) h lt le = ground (
  arith,
  level_from-reached score (level + 1) bound bounds h.1 lt,
  reached_none score bound bounds h.1,
)

level_from-past :
    (score level low : ℕ) (bounds : List ℕ)
    → Rises low bounds
    → last_bound low bounds ≤ score
    → level_from score level bounds ≡ none
unfolding level_from
level_from-past score level low [] h le = refl
level_from-past score level low (bound ∷ bounds) h le =
    ground
      (arith, last_bound-le bound bounds h.1, level_from-past score (level + 1) bound bounds h.1 le)

level_table-Rises : Rises 0 level_table
level_table-Rises = omega arith

-- UpdatePlayerLevel sets the level to the number of bounds of LevelTable that the score has reached,
-- as long as the score is below the last one; from there on the loop reads past the table.
pub update_player_level_lem :
    (info : PlayerInfo)
    → ((info.score < 100000000)
        × (update_player_level info
            ≡ some (record info { level = reached info.score level_table })))
      ⊎ ((100000000 ≤ info.score) × (update_player_level info ≡ none))
unfolding update_player_level
update_player_level_lem info = elim (dec_lt info.score 100000000) [
  | yes lt ↦ inl (
    lt,
    rw (level_from-reached info.score 0 0 level_table level_table-Rises lt (omega arith))
        (ap (λ k. some (record info { level = k })) (omega arith)),
  )
  | no ge ↦
      inr (
        omega arith,
        rw (level_from-past info.score 0 0 level_table level_table-Rises (omega arith)),
      )
]

-- The new gold is the old one and the gold that was won, as long as nothing wraps. A loss greater
-- than the gold is not cut at 0, whatever the test behind the sum says: the gold wraps to a number
-- that is greater than before. A loss of n is the pattern 2 ^ 32 - n.
count_round-gold :
    (g : Game) (a : Player) (n : ℕ)
    → a.info.gold < u32_mod
    → 0 < n
    → n ≤ 2 ^ 31
    → a.win_gold ≡ u32_mod - n
    → ((n ≤ a.info.gold) × ((count_round g a).gold ≡ a.info.gold - n))
      ⊎ ((a.info.gold < n)
          × ((count_round g a).gold ≡ a.info.gold + u32_mod - n)
          × (a.info.gold < (count_round g a).gold))
unfolding count_round
count_round-gold g a n hg hn hm hw = ground arith

-- A round counts as played; it counts as won, and gives points, exactly if gold was won.
count_round-wins :
    (g : Game) (a : Player)
    → a.info.all_chess + 1 < u32_mod
    → a.info.win_chess + 1 < u32_mod
    → ((count_round g a).all_chess ≡ a.info.all_chess + 1)
      × ((count_round g a).win_chess ≡ a.info.win_chess + (if is_positive a.win_gold then 1 else 0))
      × (is_positive a.win_gold ≡ false → (count_round g a).score ≡ a.info.score)
unfolding count_round
count_round-wins g a h k = ground arith
