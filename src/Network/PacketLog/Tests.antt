-- ===== src/Network/PacketLog/Tests.antt =====
-- The log of packets at concrete packets.
use landlord.Prelude.{ℕ, ◌≡◌, refl, none, some, List, [], ◌∷◌, arith, false, if◌then◌else◌}
use landlord.Configuration.{ConfigMgr, get_string_default, without_quotes}
use landlord.Text.Times.{codes, same_text}
use landlord.Network.PacketLog.{client_to_server, server_to_client, v4, initialize, socket_ip_bytes}
use landlord.Network.PacketLog.Reading.{
  Call, IsCall, log_all, read_records, AreCalls, read_records-log_all,
}

-- A login and an empty answer.
abbrev login : Call
login = record {
  ticks = 17;
  packet = record { direction = client_to_server; opcode = 1; contents = 7 ∷ 0 ∷ 9 ∷ [] };
  addr = v4 (127 ∷ 0 ∷ 0 ∷ 1 ∷ []);
  port = 8085;
}

abbrev answer : Call
answer = record {
  ticks = 18;
  packet = record { direction = server_to_client; opcode = 2; contents = [] };
  addr = v4 (127 ∷ 0 ∷ 0 ∷ 1 ∷ []);
  port = 8085;
}

login-IsCall : IsCall login
unfolding socket_ip_bytes
login-IsCall = record { address = refl; opcode_fits = omega arith; length_fits = omega arith }

answer-IsCall : IsCall answer
unfolding socket_ip_bytes
answer-IsCall = record { address = refl; opcode_fits = omega arith; length_fits = omega arith }

abbrev packets : List Call
packets = login ∷ answer ∷ []

both-AreCalls : AreCalls packets
unfolding AreCalls
both-AreCalls = (login-IsCall, (answer-IsCall, _))

read_records-log_all_example :
    (bytes : List ℕ) × (log_all packets (record { file = some [] })
      ≡ some (record { file = some bytes }))
    × (read_records 2 bytes ≡ (login.packet ∷ answer.packet ∷ [], []))
read_records-log_all_example = read_records-log_all packets [] both-AreCalls

-- Settings that name a file.
abbrev settings : ConfigMgr
settings = record {
  file_name = [];
  config = record {
    text_of =
        λ name. if same_text name (codes "PacketLogFile") then some (codes "world.pkt") else none;
    int_of = λ name. none;
    keys = [];
  };
}

-- If the file cannot be opened, the header is written to a null file.
no_file : initialize settings (λ name. false) 0 0 (record { file = none }) ≡ none
unfolding initialize get_string_default same_text without_quotes
no_file = refl
