-- ===== src/Packets/ByteBuffer/Dates/RoundTrip.antt =====
-- A date that is packed and read again (server/shared/Packets/ByteBuffer.h, AppendPackedTime and
-- ReadPackedTime).
use Prim.Native.Nat.{bit_and, bit_or}
use landlord.Prelude.{
  ℕ, ◌+◌, ◌*◌, ◌/◌, ◌%◌, ◌^◌, ◌≤◌, ◌<◌, ◌≡◌, refl, sym, ap, ◌∙◌, [], ◌++◌, arith, ◌-◌, add32, sub32,
  u32_mod, length,
}
use mathlib.Core.List.{append-nil}
use landlord.Packets.Bits.{bit_or-add_low, and_halves, and_nothing}
use landlord.Packets.Bytes.{le_bytes, length-le_bytes}
use landlord.Packets.ByteBuffer.{ok, ByteBuffer, size, append_number}
use landlord.Packets.ByteBuffer.Dates.{
  Tm, Calendar, pack_date, unpack_date, append_packed_time, read_packed_time,
}
use landlord.Packets.ByteBuffer.Appending.{IsOpen, unread, append-unread}
use landlord.Packets.ByteBuffer.RoundTrip.{read_number-unread}

-- A date as the calendar gives it, in the years 2000 to 2031.
pub record IsDate (lt : Tm) : Type 0 where
  pub minutes : lt.tm_min < 60
  pub hours : lt.tm_hour < 24
  pub first_day : 1 ≤ lt.tm_mday
  pub last_day : lt.tm_mday ≤ 31
  pub months : lt.tm_mon < 12
  pub first_year : 100 ≤ lt.tm_year
  pub last_year : lt.tm_year < 132
  pub week : lt.tm_wday < 7

-- The date without its seconds, the days of the week and of the year, and the flag of summer time.
abbrev pub to_minute : Tm → Tm
to_minute lt = record lt { tm_sec = 0; tm_wday = 0; tm_yday = 0; tm_isdst = 0 }

mask_one : (x : ℕ) → bit_and x 1 ≡ x % 2
mask_one x = omega (arith, and_halves x 1, and_nothing (x / 2) (x / 2) (omega arith))

mask_two : (x : ℕ) → bit_and x 3 ≡ x % 4
mask_two x = omega (arith, and_halves x 3, mask_one (x / 2))

mask_three : (x : ℕ) → bit_and x 7 ≡ x % 8
mask_three x = omega (arith, and_halves x 7, mask_two (x / 2))

mask_four : (x : ℕ) → bit_and x 0xF ≡ x % 16
mask_four x = omega (arith, and_halves x 0xF, mask_three (x / 2))

mask_five : (x : ℕ) → bit_and x 0x1F ≡ x % 32
mask_five x = omega (arith, and_halves x 0x1F, mask_four (x / 2))

mask_six : (x : ℕ) → bit_and x 0x3F ≡ x % 64
mask_six x = omega (arith, and_halves x 0x3F, mask_five (x / 2))

-- The fields lie side by side.
fields : ℕ → ℕ → ℕ → ℕ → ℕ → ℕ → ℕ
fields y mo d w h mi = y * 16777216 + mo * 1048576 + d * 16384 + w * 2048 + h * 64 + mi

-- The or of the shifted fields, each below the lowest bit of the one before.
fields_or :
    (y mo d w h mi : ℕ)
    → mo < 16
    → d < 64
    → w < 8
    → h < 32
    → mi < 64
    → bit_or
        (bit_or
          (bit_or (bit_or (bit_or (y * 2 ^ 24) (mo * 2 ^ 20)) (d * 2 ^ 14)) (w * 2 ^ 11))
          (h * 2 ^ 6))
        mi
      ≡ fields y mo d w h mi
unfolding fields
fields_or y mo d w h mi hmo hd hw hh hmi =
    let c1 : ℕ = y * 16 + mo in
    let c2 : ℕ = c1 * 64 + d in
    let c3 : ℕ = c2 * 8 + w in
    let c4 : ℕ = c3 * 32 + h in
    let e1 : bit_or (y * 2 ^ 24) (mo * 2 ^ 20) ≡ c1 * 2 ^ 20 =
      bit_or-add_low 24 (mo * 2 ^ 20) y (y * 2 ^ 24) (omega arith) refl ∙ omega arith in
    let e2 : bit_or (c1 * 2 ^ 20) (d * 2 ^ 14) ≡ c2 * 2 ^ 14 =
      bit_or-add_low 20 (d * 2 ^ 14) c1 (c1 * 2 ^ 20) (omega arith) refl ∙ omega arith in
    let e3 : bit_or (c2 * 2 ^ 14) (w * 2 ^ 11) ≡ c3 * 2 ^ 11 =
      bit_or-add_low 14 (w * 2 ^ 11) c2 (c2 * 2 ^ 14) (omega arith) refl ∙ omega arith in
    let e4 : bit_or (c3 * 2 ^ 11) (h * 2 ^ 6) ≡ c4 * 2 ^ 6 =
      bit_or-add_low 11 (h * 2 ^ 6) c3 (c3 * 2 ^ 11) (omega arith) refl ∙ omega arith in
    let e5 : bit_or (c4 * 2 ^ 6) mi ≡ c4 * 2 ^ 6 + mi =
      bit_or-add_low 6 mi c4 (c4 * 2 ^ 6) hmi refl in
    rw (e1, e2, e3, e4, e5) (omega arith)

pack_date-fields :
    (lt : Tm) (v : IsDate lt) (y d : ℕ)
    → lt.tm_year ≡ y + 100
    → lt.tm_mday ≡ d + 1
    → pack_date lt ≡ fields y lt.tm_mon d lt.tm_wday lt.tm_hour lt.tm_min
unfolding pack_date
pack_date-fields lt v y d ey ed =
    let a : sub32 lt.tm_year 100 * 2 ^ 24 % u32_mod ≡ y * 2 ^ 24 = omega arith in
    let b : lt.tm_mon * 2 ^ 20 % u32_mod ≡ lt.tm_mon * 2 ^ 20 = omega arith in
    let c : sub32 lt.tm_mday 1 * 2 ^ 14 % u32_mod ≡ d * 2 ^ 14 = omega arith in
    let e : lt.tm_wday * 2 ^ 11 % u32_mod ≡ lt.tm_wday * 2 ^ 11 = omega arith in
    let f : lt.tm_hour * 2 ^ 6 % u32_mod ≡ lt.tm_hour * 2 ^ 6 = omega arith in
    rw (a, b, c, e, f)
      (fields_or y lt.tm_mon d lt.tm_wday lt.tm_hour lt.tm_min (omega arith) (omega arith)
        (omega arith) (omega arith) (omega arith))

unpack_date-fields :
    (y mo d w h mi : ℕ)
    → y < 32
    → mo < 16
    → d < 64
    → w < 8
    → h < 32
    → mi < 64
    → unpack_date (fields y mo d w h mi) ≡ record {
      tm_sec = 0;
      tm_min = mi;
      tm_hour = h;
      tm_mday = d + 1;
      tm_mon = mo;
      tm_year = y + 100;
      tm_wday = 0;
      tm_yday = 0;
      tm_isdst = 0;
    }
unfolding unpack_date fields
unpack_date-fields y mo d w h mi hy hmo hd hw hh hmi =
    let p : ℕ = fields y mo d w h mi in
    let e1 : bit_and p 0x3F ≡ mi = omega (arith, mask_six p) in
    let e2 : bit_and (p / 2 ^ 6) 0x1F ≡ h = omega (arith, mask_five (p / 2 ^ 6)) in
    let e3 : bit_and (p / 2 ^ 14) 0x3F ≡ d = omega (arith, mask_six (p / 2 ^ 14)) in
    let e4 : bit_and (p / 2 ^ 20) 0xF ≡ mo = omega (arith, mask_four (p / 2 ^ 20)) in
    let e5 : bit_and (p / 2 ^ 24) 0x1F ≡ y = omega (arith, mask_five (p / 2 ^ 24)) in
    rw (e1, e2, e3, e4, e5)

unpack_date-pack_date :
    (lt : Tm) → IsDate lt → (pack_date lt < 2 ^ 32) × (unpack_date (pack_date lt) ≡ to_minute lt)
unfolding fields
unpack_date-pack_date lt v =
    let y : ℕ = lt.tm_year - 100 in
    let d : ℕ = lt.tm_mday - 1 in
    let ey : lt.tm_year ≡ y + 100 = omega (arith, v.first_year) in
    let ed : lt.tm_mday ≡ d + 1 = omega (arith, v.first_day) in
    let e : pack_date lt ≡ fields y lt.tm_mon d lt.tm_wday lt.tm_hour lt.tm_min =
      pack_date-fields lt v y d ey ed in
    (
      omega (arith, e, v.minutes, v.hours, v.last_day, v.months, v.last_year, v.week),
      rw e (
          unpack_date-fields y lt.tm_mon d lt.tm_wday lt.tm_hour lt.tm_min (omega arith)
            (omega arith) (omega arith) (omega arith) (omega arith) (omega arith)
          ∙ rw (sym ey, sym ed) refl),
    )

-- A date of the years 2000 to 2031 that is put into an open buffer with nothing left to be read and
-- with less than ten million bytes is read again as the time of that date without its seconds, in
-- winter time, plus the offset of the time zone, and again nothing is left to be read.
pub read_packed_time-append_packed_time :
    (host : Calendar) (time : ℕ) (buf : ByteBuffer)
    → IsDate (host.localtime time)
    → IsOpen buf
    → size buf < 10000000
    → unread buf ≡ []
    → (b : ByteBuffer) × (append_packed_time host time buf ≡ ok b)
      × ((c : ByteBuffer) × (read_packed_time host b
            ≡ ok (add32 (host.mktime (to_minute (host.localtime time))) host.timezone, c))
          × (unread c ≡ []))
unfolding append_packed_time read_packed_time append_number
read_packed_time-append_packed_time host time buf date v room nothing =
    let p : ℕ = pack_date (host.localtime time) in
    let (fits, same) = unpack_date-pack_date (host.localtime time) date in
    let len : length (le_bytes 4 p) ≡ 4 = length-le_bytes 4 p in
    let (b, ran, open_b, left, front, size_b) =
      append-unread (le_bytes 4 p) buf v (omega (arith, len)) (omega (arith, len)) room in
    let e : unread b ≡ le_bytes 4 p ++ [] =
      left ∙ ap (λ l. l ++ le_bytes 4 p) nothing ∙ sym (append-nil (le_bytes 4 p)) in
    let (c, read, done, front_c, same_c) =
      read_number-unread 4 p [] b (omega (arith, size_b, len)) open_b.in_front fits e in
    (b, ran, (c, rw (read, same), done))
