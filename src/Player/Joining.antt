-- ===== src/Player/Joining.antt =====
-- `player::startPlay`, its two halves behind its first test.
use doom_mc.Prelude.{ℕ, true, Option, List, [], ◌++◌, if◌then◌else◌}
use doom_mc.Result.{Result, ok, ◌>>=◌, or_fault}
use doom_mc.GameMap.{GameMap}
use doom_mc.Weapons.{Weapon}
use doom_mc.Player.{Player, Packet, Floats}
use doom_mc.Player.Start.{opening_packets}
use doom_mc.Player.Arrival.{Surroundings, arrival_packets}

-- What `startPlay` reads beside the player: the clock, the lobby that it is given with its slots, what
-- memory holds, `rand()`, and the operations on floats.
pub record Scene : Type 0 where
  pub now : ℕ
  pub unset : ℕ → List ℕ
  pub registry_codec : List ℕ
  pub config : List Packet
  pub player_count : ℕ
  pub slots : List (Option Player)
  pub around : Surroundings
  pub floats : Floats
  pub double_of : ℕ → ℕ
  pub random : ℕ
  pub lobby_map : GameMap
  pub weapons : List (Option Weapon)
  pub ammo : List ℕ

-- What goes to the player, and the player, up to `spawnPlayer`. Nothing happens to a player that is in
-- a lobby.
unfoldable pub start_play : Scene → ℕ → Player → Result (List Packet × Player)
unfolding opening_packets arrival_packets
start_play s eid p =
    if p.in_lobby
    then ok ([], p)
    else (or_fault
          (opening_packets s.now s.unset s.registry_codec s.config eid s.player_count s.slots p)
        >>= λ opening.
            arrival_packets s.around s.floats s.double_of s.random s.lobby_map s.weapons s.ammo
              (record p { in_lobby = true; eid = eid })
            >>= λ arrived. ok (opening ++ arrived.0, arrived.1))
