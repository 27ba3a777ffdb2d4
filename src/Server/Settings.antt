-- ===== src/Server/Settings.antt =====
-- World::LoadConfigSettings (server/game/World/World.cpp).
use Prim.Native.String.{String}
use landlord.Prelude.{
  ℕ, ◌≡◌, refl, Bool, true, false, not, ◌&&◌, List, [], ◌∷◌, ◌==◌, if◌then◌else◌, drop,
}

-- Each entry of `m_int_configs` with its key and its default.
abbrev int_settings : List (ℕ × String × ℕ)
int_settings =
    (0, "WorldServerPort", 8085)
    ∷ (1, "SocketTimeOutTime", 30000)
    ∷ (2, "RoomUpdateInterval", 100)
    ∷ (3, "RoomUpdate.Threads", 1)
    ∷ (4, "RoomNumbers", 6)
    ∷ (5, "RoomBasicScore", 5000)
    ∷ (6, "waitTime", 4000)
    ∷ (7, "aiPlayerCount", 10)
    ∷ (8, "room1.Gold", 1000)
    ∷ (9, "room2.Gold", 7000)
    ∷ (10, "room3.Gold", 12000)
    ∷ (11, "room4.Gold", 30000)
    ∷ (12, "room5.Gold", 90000)
    ∷ (13, "room6.Gold", 300000)
    ∷ (14, "aiDelay", 2000)
    ∷ []

-- The assignments, of what `GetIntDefault` of a key and a default returns.
assign_all : (String → ℕ → ℕ) → List (ℕ × String × ℕ) → (ℕ → ℕ) → ℕ → ℕ
assign_all get_int_default [] configs = configs
assign_all get_int_default ((i, key, value) ∷ rest) configs =
    assign_all get_int_default rest (λ j. if j == i then get_int_default key value else configs j)

-- World::LoadConfigSettings; `reloaded` is what ConfigMgr::Reload returns. The port is read once.
load_config_settings : (String → ℕ → ℕ) → Bool → Bool → (ℕ → ℕ) → ℕ → ℕ
unfolding assign_all
load_config_settings get_int_default reload reloaded configs =
    if reload && not reloaded
    then configs
    else assign_all get_int_default (if reload then drop 1 int_settings else int_settings) configs

-- A reload leaves the port of the server as it is.
reload-port :
    (get_int_default : String → ℕ → ℕ) (reloaded : Bool) (configs : ℕ → ℕ)
    → load_config_settings get_int_default true reloaded configs 0 ≡ configs 0
unfolding load_config_settings assign_all
reload-port get_int_default true configs = refl
reload-port get_int_default false configs = refl
