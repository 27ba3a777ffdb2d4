-- ===== src/Network/PacketLog.antt =====
-- class PacketLog (server/game/Server/Protocol/PacketLog.cpp): a file of the packets that come and go,
-- in the format PKT 3.1. The clock and the success of fopen are parameters.
pub mod Reading
mod Tests
use landlord.Prelude.{
  ℕ, zero, suc, ◌+◌, ◌-◌, ◌%◌, ◌^◌, Bool, true, false, ◌||◌, Option, none, some, List, [], ◌∷◌,
  ◌++◌, ◌==◌, if◌then◌else◌, bind, length, get_elem?, drop, replicate, u32_mod,
}
use landlord.Configuration.{ConfigMgr, get_string_default}
use landlord.Packets.Bytes.{le_bytes}
use landlord.Text.Times.{codes}

pub data Direction : Type 0 where
  client_to_server server_to_client : Direction

-- What LogPacket uses of a packet: its opcode and its bytes.
pub record Logged : Type 0 where
  pub direction : Direction
  pub opcode : ℕ
  pub contents : List ℕ

-- The bytes of an address of the Internet Protocol, of version 4 or 6.
pub data Address : Type 0 where
  v4 v6 : List ℕ → Address

-- `_file` is null or has these bytes.
pub record PacketLog : Type 0 where
  pub file : Option (List ℕ)

-- PacketLog::PacketLog before Initialize
abbrev new_log : PacketLog
new_log = record { file = none }

-- PacketLog::CanLogPacket
can_log_packet : PacketLog → Bool
can_log_packet log = elim log.file [ none ↦ false | some bytes ↦ true ]

-- fwrite; a null file is a fault of the program.
pub write_bytes : List ℕ → PacketLog → Option PacketLog
write_bytes bytes log = bind log.file λ written. some (record { file = some (written ++ bytes) })

-- The directory with a slash at its end, unless it is empty.
with_slash : List ℕ → List ℕ
with_slash logs_dir = elim (get_elem? logs_dir (length logs_dir - 1)) [
  | none ↦ logs_dir
  | some c ↦ if c == b'/' || c == 92 then logs_dir else logs_dir ++ (b'/' ∷ [])
]

-- `struct LogHeader` as it lies in memory.
pub log_header : ℕ → ℕ → List ℕ
log_header unix_time ticks =
    codes "PKT"
    ++ (le_bytes 2 0x0301
        ++ (codes "T"
            ++ (le_bytes 4 12340
                ++ (codes "enUS"
                    ++ (replicate 40 0
                        ++ (le_bytes 4 unix_time ++ (le_bytes 4 ticks ++ le_bytes 4 0)))))))

-- PacketLog::Initialize; `fopen` says for a name whether a new file could be opened.
unfoldable pub initialize : ConfigMgr → (List ℕ → Bool) → ℕ → ℕ → PacketLog → Option PacketLog
unfolding with_slash log_header write_bytes
initialize config fopen unix_time ticks log =
    let logs_dir = with_slash (get_string_default (codes "LogsDir") [] config) in
    let logname = get_string_default (codes "PacketLogFile") [] config in
    if length logname == 0
    then some log
    else write_bytes (log_header unix_time ticks)
        (record log { file = if fopen (logs_dir ++ logname) then some [] else none })

abbrev pub direction_word : Direction → ℕ
direction_word client_to_server = 0x47534d43
direction_word server_to_client = 0x47534d53

-- The 16 bytes for an address: what it has, then zeros.
pub socket_ip_bytes : Address → List ℕ
socket_ip_bytes (v4 bytes) = bytes ++ drop (length bytes) (replicate 16 0)
socket_ip_bytes (v6 bytes) = bytes ++ drop (length bytes) (replicate 16 0)

-- `struct PacketHeader` as it lies in memory, with what follows it.
pub packet_header : ℕ → Logged → Address → ℕ → List ℕ → List ℕ
unfolding socket_ip_bytes
packet_header ticks packet addr port rest =
    le_bytes 4 (direction_word packet.direction)
    ++ (le_bytes 4 0
        ++ (le_bytes 4 ticks
            ++ (le_bytes 4 20
                ++ (le_bytes 4 ((length packet.contents + 4) % u32_mod)
                    ++ (socket_ip_bytes addr
                        ++ (le_bytes 4 port ++ (le_bytes 4 packet.opcode ++ rest)))))))

-- PacketLog::LogPacket
unfoldable pub log_packet : ℕ → Logged → Address → ℕ → PacketLog → Option PacketLog
unfolding packet_header write_bytes
log_packet ticks packet addr port log =
    bind (write_bytes (packet_header ticks packet addr port []) log) λ headed.
      if length packet.contents == 0 then some headed else write_bytes packet.contents headed
