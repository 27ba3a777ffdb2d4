-- ===== src/Packets/ByteBuffer/Maps.antt =====
-- Maps from uint32 to uint32 in a ByteBuffer (server/shared/Packets/ByteBuffer.h): `std::map` is the
-- list of its entries in the order of their keys.
pub mod RoundTrip
use landlord.Prelude.{ℕ, zero, suc, ◌%◌, List, [], ◌∷◌, ltb, ◌==◌, if◌then◌else◌, length, u32_mod}
use landlord.Packets.ByteBuffer.{Result, ok, ◌>>=◌, ByteBuffer, append_number, read_number}

abbrev pub Map : Type 0
Map = List (ℕ × ℕ)

-- `<<` of a map: the number of its entries, then each key with its value.
pub append_entries : Map → ByteBuffer → Result ByteBuffer
append_entries [] buf = ok buf
append_entries (e ∷ m) buf =
    append_number 4 e.0 buf >>= λ b. append_number 4 e.1 b >>= λ c. append_entries m c

unfoldable pub append_map : Map → ByteBuffer → Result ByteBuffer
unfolding append_entries
append_map m buf = append_number 4 (length m % u32_mod) buf >>= append_entries m

-- `std::map::insert`, which leaves the value of a key that is there.
pub insert_entry : ℕ → ℕ → Map → Map
insert_entry k v [] = (k, v) ∷ []
insert_entry k v (e ∷ m) =
    let rest = insert_entry k v m in
    if ltb k e.0 then (k, v) ∷ e ∷ m else if k == e.0 then e ∷ m else e ∷ rest

-- `>>` of a map.
pub read_entries : ℕ → Map → ByteBuffer → Result (Map × ByteBuffer)
read_entries zero m buf = ok (m, buf)
read_entries (suc n) m buf = read_number 4 buf >>= λ k.
    read_number 4 k.1 >>= λ v. read_entries n (insert_entry k.0 v.0 m) v.1

unfoldable pub read_map : ByteBuffer → Result (Map × ByteBuffer)
unfolding read_entries
read_map buf = read_number 4 buf >>= λ r. read_entries r.0 [] r.1
