-- ===== src/Network/MessageBuffer.antt =====
-- class MessageBuffer (server/shared/Networking/MessageBuffer.h).
use landlord.Prelude.{
  ℕ, ◌+◌, ◌-◌, ◌%◌, ◌^◌, Bool, Option, none, some, List, [], ◌++◌, ltb, ◌==◌, if◌then◌else◌, length,
}
use landlord.Packets.ByteBuffer.{vector_resize, copy_to, add_size}

pub record MessageBuffer : Type 0 where
  pub wpos : ℕ
  pub storage : List ℕ

abbrev pub empty_message : MessageBuffer
empty_message = record { wpos = 0; storage = [] }

abbrev pub is_message_ready : MessageBuffer → Bool
is_message_ready b = b.wpos == length b.storage

-- The difference of two `size_t`.
abbrev get_missing_size : MessageBuffer → ℕ
get_missing_size b = (length b.storage + 2 ^ 64 - b.wpos) % 2 ^ 64

-- MessageBuffer::Grow; `std::vector::resize` throws beyond its `max_size()`, 2^63 - 1.
unfoldable pub grow : ℕ → MessageBuffer → Option MessageBuffer
grow n b =
    let size = add_size (length b.storage) n in
    if ltb size (2 ^ 63) then some (record b { storage = vector_resize size b.storage }) else none

abbrev write_completed : ℕ → MessageBuffer → MessageBuffer
write_completed n b = record b { wpos = add_size b.wpos n }

abbrev pub reset_write_pointer : MessageBuffer → MessageBuffer
reset_write_pointer b = record b { wpos = 0 }

-- MessageBuffer::Reset
abbrev pub reset : MessageBuffer → MessageBuffer
reset b = empty_message

-- MessageBuffer::Move: the bytes, and what is left of the buffer.
abbrev pub move : MessageBuffer → List ℕ × MessageBuffer
move b = (b.storage, empty_message)

-- The bytes of a read at the write pointer, and WriteCompleted.
unfoldable pub receive : List ℕ → MessageBuffer → MessageBuffer
receive bytes b =
    write_completed (length bytes) (record b { storage = copy_to b.wpos bytes b.storage })

-- A buffer whose first bytes `xs` are written and that has room for as many as `rest` has.
abbrev pub filled : List ℕ → List ℕ → MessageBuffer
filled xs rest = record { wpos = length xs; storage = xs ++ rest }

-- A buffer that is written to its end.
abbrev pub full : List ℕ → MessageBuffer
full xs = record { wpos = length xs; storage = xs }
