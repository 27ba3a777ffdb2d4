-- ===== src/Network/PacketLog/Reading.antt =====
-- A reader of the packets in a log, and what it finds in the log that PacketLog
-- (server/game/Server/Protocol/PacketLog.cpp) writes.
use landlord.Prelude.{
  ℕ, zero, suc, ◌+◌, ◌-◌, ◌%◌, ◌^◌, ◌<◌, ◌≡◌, refl, sym, ap, ◌∙◌, map, Option, some, List, [],
  false, List-cases, ◌∷◌, ◌++◌, arith, ◌==◌, if◌then◌else◌, inl, inr, bind, length, take, drop,
  u32_mod,
}
use mathlib.Core.List.{append-nil, append_assoc}
use landlord.Packets.Bytes.{le_bytes, from_le, length-le_bytes, from_le-le_bytes}
use landlord.Packets.ByteBuffer.Appending.{take_all, drop_all}
use landlord.Network.PacketLog.{
  Direction, client_to_server, server_to_client, direction_word, Logged, Address, PacketLog,
  write_bytes, socket_ip_bytes, packet_header, log_packet,
}

-- The direction that a word stands for.
pub direction_of : ℕ → Direction
direction_of word = if word == 0x47534d43 then client_to_server else server_to_client

-- The first record of a log without its header, and what follows it. The length that stands in the
-- record counts the contents and the four bytes of the opcode.
unfoldable pub read_record : List ℕ → Logged × List ℕ
unfolding direction_of
read_record bytes =
    let size : ℕ = from_le (take 4 (drop 4 (drop 4 (drop 4 (drop 4 bytes))))) - 4 in
    let tail : List ℕ = drop 4 (drop 16 (drop 4 (drop 4 (drop 4 (drop 4 (drop 4 bytes)))))) in
    (
      record {
        direction = direction_of (from_le (take 4 bytes));
        opcode = from_le (take 4 tail);
        contents = take size (drop 4 tail);
      },
      drop size (drop 4 tail),
    )

-- `n` records.
unfoldable pub read_records : ℕ → List ℕ → List Logged × List ℕ
read_records zero bytes = ([], bytes)
read_records (suc n) bytes =
    let (packet, rest) = read_record bytes in
    let (packets, last) = read_records n rest in (packet ∷ packets, last)

-- A call of LogPacket: the clock, the packet and the peer.
pub record Call : Type 0 where
  pub ticks : ℕ
  pub packet : Logged
  pub addr : Address
  pub port : ℕ

-- An address has 4 or 16 bytes, and the numbers of a packet fit into 32 bits.
pub record IsCall (call : Call) : Type 0 where
  pub address : length (socket_ip_bytes call.addr) ≡ 16
  pub opcode_fits : call.packet.opcode < 2 ^ 32
  pub length_fits : length call.packet.contents + 4 < 2 ^ 32

-- The calls of LogPacket, one after the other.
unfoldable pub log_all : List Call → PacketLog → Option PacketLog
log_all [] log = some log
log_all (c ∷ calls) log =
    bind (log_packet c.ticks c.packet c.addr c.port log) λ next. log_all calls next

word_taken : (v : ℕ) (rest : List ℕ) → take 4 (le_bytes 4 v ++ rest) ≡ le_bytes 4 v
word_taken v rest =
    ap (λ k. take k (le_bytes 4 v ++ rest)) (sym (length-le_bytes 4 v))
    ∙ take_all (le_bytes 4 v) rest

word_dropped : (v : ℕ) (rest : List ℕ) → drop 4 (le_bytes 4 v ++ rest) ≡ rest
word_dropped v rest =
    ap (λ k. drop k (le_bytes 4 v ++ rest)) (sym (length-le_bytes 4 v))
    ∙ drop_all (le_bytes 4 v) rest

direction_of-word : (d : Direction) → direction_of (direction_word d) ≡ d
unfolding direction_of
direction_of-word client_to_server = refl
direction_of-word server_to_client = refl

word_fits : (d : Direction) → direction_word d < 256 ^ 4
word_fits client_to_server = omega arith
word_fits server_to_client = omega arith

-- The reader finds what the writer has put at the front.
read_record-packet_header :
    (c : Call) (rest : List ℕ)
    → IsCall c
    → read_record (packet_header c.ticks c.packet c.addr c.port (c.packet.contents ++ rest))
      ≡ (c.packet, rest)
unfolding read_record packet_header
read_record-packet_header c rest v =
    let p : Logged = c.packet in
    let n : ℕ = length p.contents in
    let r0 : List ℕ = p.contents ++ rest in
    let r1 : List ℕ = le_bytes 4 p.opcode ++ r0 in
    let r2 : List ℕ = le_bytes 4 c.port ++ r1 in
    let r3 : List ℕ = socket_ip_bytes c.addr ++ r2 in
    let r4 : List ℕ = le_bytes 4 ((n + 4) % u32_mod) ++ r3 in
    let r5 : List ℕ = le_bytes 4 20 ++ r4 in
    let r6 : List ℕ = le_bytes 4 c.ticks ++ r5 in
    let r7 : List ℕ = le_bytes 4 0 ++ r6 in
    let d16 : drop 16 r3 ≡ r2 =
      ap (λ k. drop k r3) (sym v.address) ∙ drop_all (socket_ip_bytes c.addr) r2 in
    let size : from_le (le_bytes 4 ((n + 4) % u32_mod)) ≡ n + 4 =
      from_le-le_bytes 4 ((n + 4) % u32_mod) (omega arith) ∙ omega (arith, v.length_fits) in
    let whole : n + 4 - 4 ≡ n = omega arith in
    let left : Path (Logged × List ℕ)
        (record p { contents = take (n + 4 - 4) r0 }, drop (n + 4 - 4) r0) (p, rest) =
      rw (whole, take_all p.contents rest, drop_all p.contents rest) refl in
    rw
      (
        word_taken (direction_word p.direction) r7,
        word_dropped (direction_word p.direction) r7,
        word_dropped 0 r6,
        word_dropped c.ticks r5,
        word_dropped 20 r4,
        word_taken ((n + 4) % u32_mod) r3,
        word_dropped ((n + 4) % u32_mod) r3,
        d16,
        word_dropped c.port r1,
        word_taken p.opcode r0,
        word_dropped p.opcode r0,
        size,
        from_le-le_bytes 4 (direction_word p.direction) (word_fits p.direction),
        from_le-le_bytes 4 p.opcode v.opcode_fits,
        direction_of-word p.direction,
      )
      left

packet_header-append :
    (ticks : ℕ) (packet : Logged) (addr : Address) (port : ℕ) (xs ys : List ℕ)
    → packet_header ticks packet addr port xs ++ ys
      ≡ packet_header ticks packet addr port (xs ++ ys)
unfolding packet_header
packet_header-append ticks packet addr port xs ys = simp append_assoc refl

-- A call of LogPacket adds a record.
log_packet_lem :
    (c : Call) (written : List ℕ)
    → log_packet c.ticks c.packet c.addr c.port (record { file = some written })
      ≡ some (record {
        file = some (written ++ packet_header c.ticks c.packet c.addr c.port c.packet.contents);
      })
unfolding log_packet write_bytes
log_packet_lem c written =
    let head : List ℕ → List ℕ = packet_header c.ticks c.packet c.addr c.port in
    let joined : head [] ++ c.packet.contents ≡ head c.packet.contents =
      packet_header-append c.ticks c.packet c.addr c.port [] c.packet.contents in
    elim (List-cases c.packet.contents) [
      | inl e ↦ rw e refl
      | inr (x, xs, e) ↦
          let full : (length c.packet.contents == 0) ≡ false = rw e (ground arith) in
          rw (full, append_assoc written (head []) c.packet.contents, joined) refl
    ]

read_records-suc :
    (n : ℕ) (bytes rest last : List ℕ) (packet : Logged) (packets : List Logged)
    → read_record bytes ≡ (packet, rest)
    → read_records n rest ≡ (packets, last)
    → read_records (suc n) bytes ≡ (packet ∷ packets, last)
unfolding read_records
read_records-suc n bytes rest last packet packets first others = rw (first, others) refl

-- Every call is as it should be.
unfoldable pub AreCalls : List Call → Type 0
AreCalls [] = Unit {0}
AreCalls (c ∷ calls) = IsCall c × AreCalls calls

-- What calls of LogPacket add to an open file is read again as the packets of these calls in their
-- order, and nothing is left over. The addresses take 16 bytes in a record, and the opcodes and the
-- lengths fit into 32 bits.
pub read_records-log_all :
    (calls : List Call) (written : List ℕ)
    → AreCalls calls
    → (bytes : List ℕ) × (log_all calls (record { file = some written })
        ≡ some (record { file = some (written ++ bytes) }))
      × (read_records (length calls) bytes ≡ (map Call.packet calls, []))
unfolding log_all read_records AreCalls
read_records-log_all [] written v =
    ([], ap (λ t. some (record { file = some t })) (sym (append-nil written)), refl)
read_records-log_all (c ∷ calls) written v =
    let now : List ℕ = packet_header c.ticks c.packet c.addr c.port c.packet.contents in
    let (bytes, ran, read) = read_records-log_all calls (written ++ now) v.1 in
    let next : List ℕ = packet_header c.ticks c.packet c.addr c.port (c.packet.contents ++ bytes) in
    (
      next,
      rw (log_packet_lem c written) (
          ran
          ∙ ap (λ t. some (record { file = some t }))
              (append_assoc written now bytes
                ∙ ap (λ t. written ++ t)
                    (packet_header-append c.ticks c.packet c.addr c.port c.packet.contents bytes))),
      read_records-suc (length calls) next bytes [] c.packet (map Call.packet calls)
          (read_record-packet_header c bytes v.0) read,
    )
