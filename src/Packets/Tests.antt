-- ===== src/Packets/Tests.antt =====
-- The properties of packets at concrete bytes.
use landlord.Prelude.{
  ℕ, ◌+◌, ◌-◌, ◌*◌, ◌/◌, ◌%◌, ◌^◌, ◌≤◌, ◌≡◌, refl, List, [], ◌∷◌, arith, replicate,
}
use landlord.Packets.ByteBuffer.{
  ok, ByteBuffer, size, empty_buffer, append, read_at, read_number, read_bytes,
}
use landlord.Packets.Bytes.{from_le}
use landlord.Packets.ByteBuffer.Guid.{append_pack_guid, pack_guid, unpack_guid, read_pack_guid}
use landlord.Packets.ByteBuffer.Dates.{Calendar, append_packed_time, read_packed_time}
use landlord.Packets.ByteBuffer.Dates.RoundTrip.{IsDate, read_packed_time-append_packed_time}
use landlord.Packets.ByteBuffer.Maps.{Map}
use landlord.Packets.ByteBuffer.Appending.{unread}
use landlord.Packets.ByteBuffer.PackedTrip.{read_pack_guid-append_pack_guid}
use landlord.Packets.ByteBuffer.RoundTrip.{read_bytes-unread}

abbrev three_words : List ℕ
three_words = 5 ∷ 70000 ∷ 4294967295 ∷ []

-- A packet whose first eight bytes are the room for the header.
abbrev headed : ByteBuffer
headed = record { rpos = 0; wpos = 8; storage = replicate 8 0 }

read_bytes-unread_example :
    (b : ByteBuffer) × (read_bytes 3 headed ≡ ok (0 ∷ 0 ∷ 0 ∷ [], b))
    × (unread b ≡ replicate 5 0)
    × (b.rpos ≤ size b)
    × (b.storage ≡ replicate 8 0)
read_bytes-unread_example =
    read_bytes-unread (0 ∷ 0 ∷ 0 ∷ []) (replicate 5 0) headed (omega arith) (omega arith) refl

-- A GUID with two bytes that are not 0 takes three bytes, and comes back.
guid_packed :
    append_pack_guid 0xAB0000CD empty_buffer
    ≡ ok (record { rpos = 0; wpos = 3; storage = 9 ∷ 0xCD ∷ 0xAB ∷ [] })
unfolding append_pack_guid pack_guid append
guid_packed = refl

guid_unpacked :
    read_pack_guid (record { rpos = 0; wpos = 3; storage = 9 ∷ 0xCD ∷ 0xAB ∷ [] })
    ≡ ok (0xAB0000CD, record { rpos = 3; wpos = 3; storage = 9 ∷ 0xCD ∷ 0xAB ∷ [] })
unfolding read_pack_guid unpack_guid read_number read_at from_le
guid_unpacked = refl

-- Behind four bytes that have been read.
abbrev used_up : ByteBuffer
used_up = record { rpos = 4; wpos = 4; storage = 1 ∷ 2 ∷ 3 ∷ 4 ∷ [] }

read_pack_guid-append_pack_guid_example :
    (b : ByteBuffer) × (append_pack_guid 0xAB0000CD used_up ≡ ok b)
    × ((c : ByteBuffer) × (read_pack_guid b ≡ ok (0xAB0000CD, c)) × (unread c ≡ []))
read_pack_guid-append_pack_guid_example =
    read_pack_guid-append_pack_guid 0xAB0000CD used_up (omega arith) (omega arith) (omega arith)
      refl

-- A calendar of one day, 15 November 2023, eight hours east of Greenwich.
abbrev midnight : ℕ
midnight = 1699977600

abbrev beijing : Calendar
beijing = record {
  localtime = λ time. record {
    tm_sec = (time - midnight) % 60;
    tm_min = (time - midnight) / 60 % 60;
    tm_hour = (time - midnight) / 3600;
    tm_mday = 15;
    tm_mon = 10;
    tm_year = 123;
    tm_wday = 3;
    tm_yday = 318;
    tm_isdst = 0;
  };
  mktime = λ lt. midnight + lt.tm_hour * 3600 + lt.tm_min * 60 + lt.tm_sec;
  timezone = 2 ^ 64 - 28800;
}

november-IsDate : IsDate (beijing.localtime 1700000000)
november-IsDate = record {
  minutes = omega arith;
  hours = omega arith;
  first_day = omega arith;
  last_day = omega arith;
  months = omega arith;
  first_year = omega arith;
  last_year = omega arith;
  week = omega arith;
}

-- What is read is eight hours and the seconds before the time that was put in.
read_packed_time-append_packed_time_example :
    (b : ByteBuffer) × (append_packed_time beijing 1700000000 used_up ≡ ok b)
    × ((c : ByteBuffer) × (read_packed_time beijing b ≡ ok (1700000000 - 20 - 28800, c))
        × (unread c ≡ []))
read_packed_time-append_packed_time_example =
    read_packed_time-append_packed_time beijing 1700000000 used_up november-IsDate
      (record { at_end = refl; in_front = omega arith }) (omega arith) refl

-- A map comes back.
abbrev two_entries : Map
two_entries = (3, 70) ∷ (5, 1) ∷ []
