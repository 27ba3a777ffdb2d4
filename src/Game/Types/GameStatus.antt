-- ===== src/Game/Types/GameStatus.antt =====
-- enum GameStatus (server/game/Player/Player.h). A status is a uint8 and not only a name of the enum:
-- logging out sets the bit of LOG_OUTING beside the others.
use landlord.Prelude.{ℕ}

abbrev pub wait_start : ℕ
wait_start = 0

abbrev pub starting : ℕ
starting = 1

abbrev pub started : ℕ
started = 2

abbrev pub dealing_card : ℕ
dealing_card = 3

abbrev pub dealed_card : ℕ
dealed_card = 4

abbrev pub grabing_landlord : ℕ
grabing_landlord = 5

abbrev pub grabed_land_lord : ℕ
grabed_land_lord = 6

abbrev pub wait_out_card : ℕ
wait_out_card = 7

abbrev pub out_carding : ℕ
out_carding = 8

abbrev pub out_carded : ℕ
out_carded = 9

abbrev pub roundovering : ℕ
roundovering = 10

abbrev pub roundovered : ℕ
roundovered = 11

abbrev pub log_outing : ℕ
log_outing = 16

abbrev pub log_outed : ℕ
log_outed = 32
