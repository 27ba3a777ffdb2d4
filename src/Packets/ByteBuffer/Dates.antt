-- ===== src/Packets/ByteBuffer/Dates.antt =====
-- Dates packed into 32 bits (server/shared/Packets/ByteBuffer.h, AppendPackedTime and
-- ReadPackedTime). The time zone and the calendar of the host are a parameter.
use Prim.Native.Nat.{bit_and, bit_or}
use landlord.Prelude.{ℕ, ◌+◌, ◌*◌, ◌/◌, ◌%◌, ◌^◌, u32_mod, add32, sub32}
use landlord.Packets.ByteBuffer.{Result, ok, ◌>>=◌, ByteBuffer, append_number, read_number}
pub mod RoundTrip

-- `struct tm`; each field is an `int`.
pub record Tm : Type 0 where
  pub tm_sec : ℕ
  pub tm_min : ℕ
  pub tm_hour : ℕ
  pub tm_mday : ℕ
  pub tm_mon : ℕ
  pub tm_year : ℕ
  pub tm_wday : ℕ
  pub tm_yday : ℕ
  pub tm_isdst : ℕ

-- What the C library knows of the host's time zone: localtime_r of a time, mktime of a date, and
-- `timezone`, the seconds by which the zone is west of Greenwich. A `time_t` is a pattern of 64 bits.
pub record Calendar : Type 0 where
  pub localtime : ℕ → Tm
  pub mktime : Tm → ℕ
  pub timezone : ℕ

-- The `int` of AppendPackedTime; a year before 2000 shifts a negative number.
pub pack_date : Tm → ℕ
pack_date lt =
    let year = sub32 lt.tm_year 100 * 2 ^ 24 % u32_mod in
    let mon = lt.tm_mon * 2 ^ 20 % u32_mod in
    let mday = sub32 lt.tm_mday 1 * 2 ^ 14 % u32_mod in
    let wday = lt.tm_wday * 2 ^ 11 % u32_mod in
    let hour = lt.tm_hour * 2 ^ 6 % u32_mod in
    bit_or (bit_or (bit_or (bit_or (bit_or year mon) mday) wday) hour) lt.tm_min

-- The `tm` that ReadPackedTime fills in; the other fields stay 0.
pub unpack_date : ℕ → Tm
unpack_date packed_date = record {
  tm_sec = 0;
  tm_min = bit_and packed_date 0x3F;
  tm_hour = bit_and (packed_date / 2 ^ 6) 0x1F;
  tm_mday = bit_and (packed_date / 2 ^ 14) 0x3F + 1;
  tm_mon = bit_and (packed_date / 2 ^ 20) 0xF;
  tm_year = bit_and (packed_date / 2 ^ 24) 0x1F + 100;
  tm_wday = 0;
  tm_yday = 0;
  tm_isdst = 0;
}

-- ByteBuffer::AppendPackedTime
unfoldable pub append_packed_time : Calendar → ℕ → ByteBuffer → Result ByteBuffer
unfolding append_number pack_date
append_packed_time host time buf = append_number 4 (pack_date (host.localtime time)) buf

-- ByteBuffer::ReadPackedTime
unfoldable pub read_packed_time : Calendar → ByteBuffer → Result (ℕ × ByteBuffer)
unfolding read_number unpack_date
read_packed_time host buf =
    read_number 4 buf >>= λ r. ok (add32 (host.mktime (unpack_date r.0)) host.timezone, r.1)
