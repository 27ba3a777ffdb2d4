-- ===== src/Game/Types/Opcodes.antt =====
-- enum Opcodes (server/game/Server/Protocol/Opcodes.h), those that the code names.
use landlord.Prelude.{ℕ}

abbrev pub cmsg_player_login : ℕ
cmsg_player_login = 0

abbrev pub smsg_desk_two : ℕ
smsg_desk_two = 1

abbrev pub smsg_desk_three : ℕ
smsg_desk_three = 2

abbrev pub cmsg_wait_start : ℕ
cmsg_wait_start = 3

abbrev pub smsg_card_deal : ℕ
smsg_card_deal = 4

abbrev pub cmsg_grad_landlord : ℕ
cmsg_grad_landlord = 5

abbrev pub cmsg_card_out : ℕ
cmsg_card_out = 8

abbrev pub cmsg_round_over : ℕ
cmsg_round_over = 10

abbrev pub cmsg_ping : ℕ
cmsg_ping = 15

abbrev pub cmsg_log_out : ℕ
cmsg_log_out = 16

abbrev pub num_msg_types : ℕ
num_msg_types = 18
