-- ===== src/Network/Messages.antt =====
-- What WorldSocket does with a whole message: the header of eight bytes and the body behind it.
use landlord.Prelude.{
  ℕ, zero, suc, ◌+◌, ◌-◌, ◌%◌, ◌^◌, ◌≤◌, ◌<◌, ◌≡◌, refl, sym, ap, ◌∙◌, ◌≢◌, true, false, some, List,
  [], ◌∷◌, ◌++◌, arith, ltb, ◌==◌, bind, length, take, drop, replicate, length-append,
  length-replicate,
}
use landlord.Packets.Bytes.{le_bytes, from_le, length-le_bytes, from_le-le_bytes}
use landlord.Packets.ByteBuffer.{ok, read_skip}
use landlord.Packets.ByteBuffer.Appending.{take_all, drop_all, take_long}
use landlord.Game.Types.Opcodes
use landlord.Network.MessageBuffer.{empty_message, grow, full}
use landlord.Network.Socket.{
  WorldPacket, Session, Reading, Socket, header_size, header_cmd, is_valid, async_read_header,
  dispatch, read_data_handler, async_read_data, read_header_handler, read_header_internal,
  read_data_internal, complete, arrive_all, reset_time_out, queue_packet,
}
use landlord.Network.Framing.{flatten, NonEmpty, arrive_all-append, pieces}

-- The eight bytes of a ClientPktHeader.
abbrev pub header_bytes : ℕ → ℕ → List ℕ
header_bytes size cmd = le_bytes 4 size ++ le_bytes 4 cmd

length-header_bytes : (size cmd : ℕ) → length (header_bytes size cmd) ≡ 8
length-header_bytes size cmd = omega (
  arith,
  length-append (le_bytes 4 size) (le_bytes 4 cmd),
  length-le_bytes 4 size,
  length-le_bytes 4 cmd,
)

header_size-bytes :
    (size cmd : ℕ) → size < 2 ^ 32 → header_size (full (header_bytes size cmd)) ≡ size
header_size-bytes size cmd h =
    ap (λ n. from_le (take n (header_bytes size cmd))) (sym (length-le_bytes 4 size))
    ∙ ap from_le (take_all (le_bytes 4 size) (le_bytes 4 cmd))
    ∙ from_le-le_bytes 4 size h

header_cmd-bytes : (size cmd : ℕ) → cmd < 2 ^ 32 → header_cmd (full (header_bytes size cmd)) ≡ cmd
header_cmd-bytes size cmd h =
    ap (λ n. from_le (take 4 (drop n (header_bytes size cmd)))) (sym (length-le_bytes 4 size))
    ∙ ap (λ bs. from_le (take 4 bs)) (drop_all (le_bytes 4 size) (le_bytes 4 cmd))
    ∙ ap from_le (take_long 4 (le_bytes 4 cmd) (omega (arith, length-le_bytes 4 cmd)))
    ∙ from_le-le_bytes 4 cmd h

-- The socket waits for a header; the header before it was `old`.
abbrev pub awaiting : Socket → List ℕ → Socket
awaiting s old = record s {
  header_buffer = record { wpos = 0; storage = old };
  data_buffer = empty_message;
  reading = Reading.header;
}

-- The socket has the header and waits for a body of `n` bytes.
abbrev expecting : Socket → List ℕ → ℕ → Socket
expecting s header n = record s {
  header_buffer = full header;
  data_buffer = record { wpos = 0; storage = replicate n 0 };
  reading = Reading.body;
}

grow-empty :
    (n : ℕ)
    → n < 2 ^ 63
    → grow n empty_message ≡ some (record { wpos = 0; storage = replicate n 0 })
unfolding grow
grow-empty zero h = refl
grow-empty (suc n) h =
    let small : ltb ((0 + suc n) % 2 ^ 64) (2 ^ 63) ≡ true = ground arith in
    let same : (0 + suc n) % 2 ^ 64 ≡ suc n = omega arith in
    let all : suc n - 0 ≡ suc n = omega arith in rw (small, same, all)

-- A header of at least 4 and less than 10240 bytes goes on to the body, whatever is left of it.
pub read_header_handler-valid :
    (limit : ℕ) (s : Socket) (size cmd : ℕ)
    → header_size s.header_buffer ≡ size
    → header_cmd s.header_buffer ≡ cmd
    → 4 ≤ size
    → size < 10240
    → cmd < 18
    → read_header_handler limit s ≡ async_read_data limit ((size + 2 ^ 64 - 8) % 2 ^ 64) s
unfolding read_header_handler
read_header_handler-valid limit s size cmd es ec h1 h2 h3 =
    let valid : is_valid size cmd ≡ true = ground arith in rw (es, ec, valid)

async_read_data-empty :
    (limit n : ℕ) (s : Socket)
    → s.closed ≡ false
    → 0 < n
    → n < 2 ^ 63
    → s.data_buffer ≡ empty_message
    → async_read_data limit n s
      ≡ some (record s {
        data_buffer = record { wpos = 0; storage = replicate n 0 };
        reading = Reading.body;
      })
unfolding async_read_data
async_read_data-empty limit n s o h1 h2 e =
    let positive : (n == 0) ≡ false = ground arith in rw (o, positive, e, grow-empty n h2)

skip-header :
    (body : List ℕ)
    → 8 ≤ length body
    → length body < 2 ^ 63
    → read_skip 8 (record { rpos = 0; wpos = 0; storage = body })
      ≡ ok (record { rpos = 8; wpos = 0; storage = body })
unfolding read_skip
skip-header body h1 h2 = let fits : ltb (length body) 8 ≡ false = ground arith in rw fits

-- The body is there: the packet is dispatched with its reading place behind the first eight bytes.
read_data_handler-full :
    (limit : ℕ) (s : Socket) (header body : List ℕ) (cmd : ℕ)
    → header_cmd (full header) ≡ cmd
    → cmd < 18
    → 8 ≤ length body
    → length body < 2 ^ 63
    → read_data_handler limit (record s { header_buffer = full header; data_buffer = full body })
      ≡ dispatch limit
          (record { opcode = cmd; buffer = record { rpos = 8; wpos = 0; storage = body } })
          (record s { header_buffer = full header; data_buffer = empty_message })
unfolding read_data_handler
read_data_handler-full limit s header body cmd ec h1 h2 h3 =
    let fits : read_skip 8 (record { rpos = 0; wpos = 0; storage = body })
        ≡ ok (record { rpos = 8; wpos = 0; storage = body }) =
      skip-header body h2 h3 in
    let whole : header_cmd (full header) % 2 ^ 16 ≡ cmd = ap (λ k. k % 2 ^ 16) ec ∙ omega arith in
    rw (read_data_handler, fits)
      (ap
        (λ o.
          dispatch limit
            (record { opcode = o; buffer = record { rpos = 8; wpos = 0; storage = body } })
            (record s { header_buffer = full header; data_buffer = empty_message }))
        whole)

dispatch-queues :
    (limit : ℕ) (s : Socket) (w : Session) (packet : WorldPacket)
    → s.closed ≡ false
    → s.session ≡ some w
    → packet.opcode ≢ Opcodes.cmsg_player_login
    → packet.opcode ≢ Opcodes.cmsg_ping
    → dispatch limit packet s
      ≡ some (record s {
        header_buffer = record { wpos = 0; storage = s.header_buffer.storage };
        data_buffer = empty_message;
        reading = Reading.header;
        session = some (queue_packet packet (reset_time_out limit w));
      })
unfolding dispatch async_read_header
dispatch-queues limit s w packet o es h1 h2 =
    let no_login : (packet.opcode == Opcodes.cmsg_player_login) ≡ false = ground arith in
    let no_ping : (packet.opcode == Opcodes.cmsg_ping) ≡ false = ground arith in
    rw (no_login, no_ping, es, o)

-- The socket after a message of an account that is logged in.
abbrev pub queued : ℕ → Socket → Session → ℕ → List ℕ → Socket
queued limit s w cmd body = record s {
  session = some (
      queue_packet (record { opcode = cmd; buffer = record { rpos = 8; wpos = 0; storage = body } })
        (reset_time_out limit w));
}

header_pieces :
    (limit : ℕ) (s : Socket) (c : List ℕ) (cs : List (List ℕ)) (old : List ℕ)
    → NonEmpty (c ∷ cs)
    → length old ≡ 8
    → length (flatten (c ∷ cs)) ≡ 8
    → arrive_all limit (c ∷ cs) (awaiting s old)
      ≡ read_header_handler limit (record s {
        header_buffer = full (flatten (c ∷ cs));
        data_buffer = empty_message;
        reading = Reading.nothing;
      })
unfolding complete read_header_internal
header_pieces limit s c cs old p e1 e2 =
    pieces limit (λ b r. record s { header_buffer = b; data_buffer = empty_message; reading = r })
      Reading.header (read_header_handler limit) (λ c b. refl) c cs [] old p (e2 ∙ sym e1)
      (omega arith)

body_pieces :
    (limit : ℕ) (s : Socket) (c : List ℕ) (cs : List (List ℕ)) (header : List ℕ)
    → NonEmpty (c ∷ cs)
    → length (flatten (c ∷ cs)) < 2 ^ 63
    → arrive_all limit (c ∷ cs) (expecting s header (length (flatten (c ∷ cs))))
      ≡ read_data_handler limit (record s {
        header_buffer = full header;
        data_buffer = full (flatten (c ∷ cs));
        reading = Reading.nothing;
      })
unfolding complete read_data_internal
body_pieces limit s c cs header p h =
    let n : ℕ = length (flatten (c ∷ cs)) in
    pieces limit (λ b r. record s { header_buffer = full header; data_buffer = b; reading = r })
      Reading.body (read_data_handler limit) (λ c b. refl) c cs [] (replicate n 0) p
      (sym (length-replicate {A = ℕ} n 0)) (omega (arith, length-replicate {A = ℕ} n 0))

-- However the bytes of a message are cut into pieces that hold a byte at least, an open socket with a
-- session that waits for a header, gets the header in some pieces and the body in others, queues
-- exactly one packet with the opcode and the body of the message, restarts the time-out, and waits
-- for the next header. The message has 16 bytes or more and less than 10240, and its opcode is
-- valid and neither the login nor the ping.
pub arrive_all-message :
    (limit : ℕ) (s : Socket) (w : Session) (old : List ℕ) (cmd : ℕ) (c : List ℕ)
    (cs : List (List ℕ)) (d : List ℕ) (ds : List (List ℕ))
    → s.closed ≡ false
    → s.session ≡ some w
    → length old ≡ 8
    → NonEmpty (c ∷ cs)
    → NonEmpty (d ∷ ds)
    → flatten (c ∷ cs) ≡ header_bytes (8 + length (flatten (d ∷ ds))) cmd
    → 8 ≤ length (flatten (d ∷ ds))
    → 8 + length (flatten (d ∷ ds)) < 10240
    → cmd < 18
    → cmd ≢ Opcodes.cmsg_player_login
    → cmd ≢ Opcodes.cmsg_ping
    → arrive_all limit ((c ∷ cs) ++ (d ∷ ds)) (awaiting s old)
      ≡ some (awaiting (queued limit s w cmd (flatten (d ∷ ds))) (flatten (c ∷ cs)))
arrive_all-message limit s w old cmd c cs d ds o es eo pc pd eh h1 h2 h3 n1 n2 =
    let n : ℕ = length (flatten (d ∷ ds)) in
    let hdr : List ℕ = flatten (c ∷ cs) in
    let eight : length hdr ≡ 8 = ap length eh ∙ length-header_bytes (8 + n) cmd in
    let cut : (8 + n + 2 ^ 64 - 8) % 2 ^ 64 ≡ n = omega arith in
    let size_ok : header_size (full hdr) ≡ 8 + n =
      ap (λ bs. header_size (full bs)) eh ∙ header_size-bytes (8 + n) cmd (omega arith) in
    let cmd_ok : header_cmd (full hdr) ≡ cmd =
      ap (λ bs. header_cmd (full bs)) eh ∙ header_cmd-bytes (8 + n) cmd (omega arith) in
    let here : Socket = record s {
      header_buffer = full hdr;
      data_buffer = empty_message;
      reading = Reading.nothing;
    } in
    let first : arrive_all limit (c ∷ cs) (awaiting s old) ≡ some (expecting s hdr n) =
      header_pieces limit s c cs old pc eo eight
      ∙ read_header_handler-valid limit here (8 + n) cmd size_ok cmd_ok (omega arith) (omega arith)
          h3
      ∙ ap (λ k. async_read_data limit k here) cut
      ∙ async_read_data-empty limit n here o (omega arith) (omega arith) refl in
    arrive_all-append limit (c ∷ cs) (d ∷ ds) (awaiting s old)
    ∙ ap (λ x. bind x (arrive_all limit (d ∷ ds))) first
    ∙ body_pieces limit s d ds hdr pd (omega arith)
    ∙ read_data_handler-full limit (record s { reading = Reading.nothing }) hdr (flatten (d ∷ ds))
        cmd cmd_ok h3 h1 (omega arith)
    ∙ dispatch-queues limit
        (record s {
          header_buffer = full hdr;
          data_buffer = empty_message;
          reading = Reading.nothing;
        })
        w
        (record {
          opcode = cmd;
          buffer = record { rpos = 8; wpos = 0; storage = flatten (d ∷ ds) };
        })
        o es n1 n2
