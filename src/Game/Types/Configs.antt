-- ===== src/Game/Types/Configs.antt =====
-- enum WorldIntConfigs (server/game/World/World.h).
use landlord.Prelude.{ℕ}

abbrev pub basic_score : ℕ
basic_score = 5

abbrev port_world : ℕ
port_world = 0

abbrev socket_timeout_time : ℕ
socket_timeout_time = 1

abbrev pub interval_room_update : ℕ
interval_room_update = 2

abbrev pub num_threads : ℕ
num_threads = 3

abbrev pub number_rooms : ℕ
number_rooms = 4

abbrev pub wait_time : ℕ
wait_time = 6

abbrev pub ai_player_count : ℕ
ai_player_count = 7

abbrev pub room1_gold : ℕ
room1_gold = 8

abbrev pub ai_delay : ℕ
ai_delay = 14

abbrev pub int_config_value_count : ℕ
int_config_value_count = 15
