-- ===== src/Packets/ByteBuffer/Texts.antt =====
-- What ByteBuffer writes about itself (server/shared/Packets/ByteBuffer.cpp): the messages of its
-- exceptions, and its bytes for the log.
mod Tests
use landlord.Prelude.{
  ℕ, zero, suc, ◌+◌, ◌*◌, ◌/◌, ◌%◌, Bool, true, false, not, ◌&&◌, ◌||◌, Option, none, some, List,
  [], ◌∷◌, ◌++◌, ltb, ◌==◌, if◌then◌else◌, u32_mod,
}
use landlord.Packets.ByteBuffer.{ByteBuffer, size}
use landlord.Text.Times.{codes, decimal}
use landlord.Text.Names.{hex_digit}
use landlord.Logging.{Log, should_log}

-- The place and the size at the end of both messages.
where_in_buffer : ℕ → ℕ → List ℕ
where_in_buffer pos size =
    codes "in ByteBuffer (pos: "
    ++ (decimal pos ++ (codes " size: " ++ (decimal size ++ codes ")")))

-- ByteBufferPositionException
position_message : Bool → ℕ → ℕ → ℕ → List ℕ
unfolding where_in_buffer
position_message add pos size value_size =
    codes "Attempted to "
    ++ (codes (if add then "put" else "get")
        ++ (codes " value with size: "
            ++ (decimal value_size ++ (codes " " ++ where_in_buffer pos size))))

-- ByteBufferSourceException
source_message : ℕ → ℕ → ℕ → List ℕ
unfolding where_in_buffer
source_message pos size value_size =
    codes "Attempted to put a "
    ++ (codes (if ltb 0 value_size then "NULL-pointer" else "zero-sized value")
        ++ (codes " " ++ where_in_buffer pos size))

-- The text for the log, if it would be written.
traced : Log → List ℕ → ByteBuffer → Option (List ℕ)
traced log text buf =
    if should_log (codes "network") 1 log
    then some (codes "STORAGE_SIZE: " ++ (decimal (size buf) ++ (text ++ codes " ")))
    else none

-- ByteBuffer::print_storage
numbers_text : List ℕ → List ℕ
numbers_text [] = []
numbers_text (b ∷ bytes) = decimal b ++ (codes " - " ++ numbers_text bytes)

print_storage : Log → ByteBuffer → Option (List ℕ)
unfolding traced numbers_text
print_storage log buf = traced log (numbers_text buf.storage) buf

-- ByteBuffer::textlike; the character 0 ends its text.
characters_text : List ℕ → List ℕ
characters_text [] = []
characters_text (b ∷ bytes) = let rest = characters_text bytes in if b == 0 then rest else b ∷ rest

textlike : Log → ByteBuffer → Option (List ℕ)
unfolding traced characters_text
textlike log buf = traced log (characters_text buf.storage) buf

-- `snprintf(buf, 3, "%2X ", b)`, which has room for two characters.
two_characters : ℕ → List ℕ
two_characters b = (if ltb b 16 then b' ' else hex_digit (b / 16)) ∷ hex_digit (b % 16) ∷ []

-- ByteBuffer::hexlike: a bar before the byte 8, 24 and so on, a new line before the byte 16, 32 ...
hex_text : ℕ → ℕ → ℕ → List ℕ → List ℕ
unfolding two_characters
hex_text i j k [] = []
hex_text i j k (b ∷ bytes) =
    let at_line = i == k * 16 % u32_mod in
    let at_bar = i == j * 8 % u32_mod && not at_line in
    let before = if at_bar then codes "| " else if at_line then 10 ∷ [] else [] in
    let next_j = if at_bar || at_line then (j + 1) % u32_mod else j in
    let next_k = if at_line then (k + 1) % u32_mod else k in
    before ++ (two_characters b ++ hex_text ((i + 1) % u32_mod) next_j next_k bytes)

hexlike : Log → ByteBuffer → Option (List ℕ)
unfolding traced hex_text
hexlike log buf = traced log (hex_text 0 1 1 buf.storage) buf
