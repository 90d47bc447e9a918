-- ===== src/Player.antt =====
-- src/player.hpp, src/entity.hpp and src/client.hpp: the fields of a player, the packets that it
-- sends, and the float operations that those packets need.
pub mod Packets
pub mod Bounds
pub mod Overwrites
pub mod InfoSize
pub mod Chunk
pub mod Start
pub mod Arrival
pub mod StartSizes
pub mod Joining
pub mod NoSkin
use doom_mc.Prelude.{ℕ, ◌%◌, ◌^◌, ◌+◌, Bool, List, Option}

pub data State : Type 0 where
  none_state status_state login_state play_state config_state : State

pub record Skin : Type 0 where
  pub signature : Option (List ℕ)
  pub value : Option (List ℕ)

-- Integers and floats are bit patterns; `uuid` is the 128-bit one. `in_lobby` says that
-- `currentLobby` is not NULL.
pub record Player : Type 0 where
  pub fd : ℕ
  pub state : State
  pub username : List ℕ
  pub protocol : ℕ
  pub index : ℕ
  pub uuid : ℕ
  pub eid : ℕ
  pub entity_type : ℕ
  pub entity_data : ℕ
  pub x : ℕ
  pub y : ℕ
  pub z : ℕ
  pub yaw : ℕ
  pub pitch : ℕ
  pub head_yaw : ℕ
  pub in_lobby : Bool
  pub held_slot : ℕ
  pub on_ground : Bool
  pub health : ℕ
  pub teleport_id : ℕ
  pub last_keep_alive : ℕ
  pub has_spawned : Bool
  pub skin : Skin

-- The machine's float operations, on patterns: `(float)n`, `(angle_t)(f * 256 / 360)`,
-- `(int32_t)floor(d / 16)`, `(int32_t)(a - b)` and `a == b` on doubles.
pub record Floats : Type 0 where
  pub float_of_int : ℕ → ℕ
  pub angle : ℕ → ℕ
  pub chunk_of : ℕ → ℕ
  pub int_delta : ℕ → ℕ → ℕ
  pub same_double : ℕ → ℕ → Bool

pub record Packet : Type 0 where
  pub id : ℕ
  pub payload : List ℕ
