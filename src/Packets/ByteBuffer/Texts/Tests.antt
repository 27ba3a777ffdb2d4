-- ===== src/Packets/ByteBuffer/Texts/Tests.antt =====
-- The texts of some bytes.
use landlord.Prelude.{◌≡◌, refl, true, [], ◌∷◌}
use landlord.Packets.ByteBuffer.Texts.{position_message, where_in_buffer, hex_text, two_characters}
use landlord.Text.Times.{codes, digits}

short_read :
    position_message true 3 4 2
    ≡ codes "Attempted to put value with size: 2 in ByteBuffer (pos: 3 size: 4)"
unfolding position_message where_in_buffer digits
short_read = refl

-- The space after each byte is cut off.
ten_bytes : hex_text 0 1 1 (1 ∷ 255 ∷ 3 ∷ 4 ∷ 5 ∷ 6 ∷ 7 ∷ 8 ∷ 9 ∷ []) ≡ codes " 1FF 3 4 5 6 7 8|  9"
unfolding hex_text two_characters
ten_bytes = refl
