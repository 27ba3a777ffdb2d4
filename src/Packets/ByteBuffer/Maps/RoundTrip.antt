-- ===== src/Packets/ByteBuffer/Maps/RoundTrip.antt =====
-- A map that is appended to a ByteBuffer (server/shared/Packets/ByteBuffer.h) is read back.
use landlord.Prelude.{ℕ, ◌<◌, List, [], ◌∷◌, u32_mod}
use landlord.Packets.ByteBuffer.{ByteBuffer}
use landlord.Packets.ByteBuffer.Maps.{Map}

-- Every key is greater, or less, than `k`.
abbrev AllAbove : ℕ → Map → Type 0
AllAbove k [] = Unit {0}
AllAbove k (e ∷ m) = (k < e.0) × AllAbove k m

AllBelow : ℕ → Map → Type 0
AllBelow k [] = Unit {0}
AllBelow k (e ∷ m) = (e.0 < k) × AllBelow k m

-- The keys grow, and keys and values fit into 32 bits.
abbrev pub IsMap : Map → Type 0
IsMap [] = Unit {0}
IsMap (e ∷ m) = (e.0 < u32_mod) × (e.1 < u32_mod) × AllAbove e.0 m × IsMap m

-- The keys of the second map are greater than those of the first.
Follows : Map → Map → Type 0
unfolding AllBelow
Follows acc [] = Unit {0}
Follows acc (e ∷ m) = AllBelow e.0 acc × Follows acc m

flatten : Map → List ℕ
flatten [] = []
flatten (e ∷ m) = e.0 ∷ e.1 ∷ flatten m
