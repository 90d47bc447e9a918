-- ===== src/Player/Bounds.antt =====
-- The packets against the sizes of the buffers in which they are built.
use doom_mc.Prelude.{
  ℕ, ◌+◌, ◌*◌, ◌%◌, ◌^◌, ◌≤◌, ◌<◌, ◌≡◌, refl, Bool, List, ◌++◌, length, ◌↔◌, arith, length-append,
  take, length-take-le, dec_lt,
}
use doom_mc.Wire.VarInt.{IsU32, write_var_int}
use doom_mc.Wire.VarInt.Bounds.{write_var_int_shape, length-write_var_int}
use doom_mc.Wire.Endian.{
  write_big_endian_short, write_big_endian_long, write_big_endian_float, write_big_endian_double,
}
use doom_mc.Player.{Player, Floats}
use doom_mc.Player.Packets.{
  uuid_bytes, set_health_packet, set_center_chunk_packet, position_packet, keep_alive_packet,
  entity_position_packet, entity_rotation_packet, entity_position_rotation_packet,
  spawn_entity_packet, spawn_player_packet, remove_entity_packet, info_remove_packet,
  info_unlist_packet,
}

-- The fields that go out as VarInts are 32-bit patterns.
pub record IsPlayer (p : Player) : Type 0 where
  pub eid_fits : IsU32 p.eid
  pub type_fits : IsU32 p.entity_type
  pub data_fits : IsU32 p.entity_data

pub var_int_size :
    (v : ℕ) → IsU32 v → (1 ≤ length (write_var_int v)) × (length (write_var_int v) ≤ 5)
var_int_size v h = let (_, lo, hi) = write_var_int_shape v h in (lo, hi)

pub length-uuid : (u : ℕ) → length (uuid_bytes u) ≡ 16
unfolding uuid_bytes
length-uuid u = refl

length-short : (v : ℕ) → length (write_big_endian_short v) ≡ 2
unfolding write_big_endian_short
length-short v = refl

length-long : (v : ℕ) → length (write_big_endian_long v) ≡ 8
unfolding write_big_endian_long
length-long v = refl

length-float : (v : ℕ) → length (write_big_endian_float v) ≡ 4
unfolding write_big_endian_float
length-float v = refl

length-double : (v : ℕ) → length (write_big_endian_double v) ≡ 8
unfolding write_big_endian_double
length-double v = refl

length-velocity : (stack : List ℕ) → length (take 6 stack) ≤ 6
length-velocity stack = length-take-le 6 stack

pub length_append : (xs ys : List ℕ) → length (xs ++ ys) ≡ length xs + length ys
length_append xs ys = length-append xs ys

ruleset sizes =
    (arith, length_append, length-uuid, length-short, length-long, length-float, length-double)

-- These packets fit the arrays of fixed size that they are built in, whatever the values: those of
-- `setHealth`, `setCenterChunk`, `keepAlive`, the three entity updates, `spawnEntity`, the second packet
-- of `spawnPlayer`, `removeEntity` and the two packets of `removePlayer`.
pub packets_fit :
    (F : Floats) (p : Player) (health now x z dx dy dz yaw pitch : ℕ) (stack : List ℕ)
    (ground : Bool)
    → IsPlayer p
    → IsU32 x
    → IsU32 z
    → (length (set_health_packet F health).payload ≤ 4 * 2 + 5)
      × (length (set_center_chunk_packet x z).payload ≤ 5 * 2)
      × (length (keep_alive_packet now).payload ≤ 8)
      × (length (entity_position_packet p.eid dx dy dz ground).payload ≤ 5 + 2 * 3 + 1)
      × (length (entity_rotation_packet F p.eid yaw pitch ground).payload ≤ 5 + 4 * 2 + 1)
      × (length (entity_position_rotation_packet F p.eid dx dy dz yaw pitch ground).payload
          ≤ 5 + 2 * 3 + 4 * 2 + 1)
      × (length (spawn_entity_packet F stack p).payload ≤ 5 * 3 + 16 + 8 * 3 + 3 + 2 * 3)
      × (length (spawn_player_packet F p).payload ≤ 5 + 16 + 8 * 3 + 2)
      × (length (remove_entity_packet p).payload ≤ 5 * 2)
      × (length (info_remove_packet p).payload ≤ 5 + 16)
      × (length (info_unlist_packet p).payload ≤ 2 + 5 + 16)
unfolding set_health_packet set_center_chunk_packet keep_alive_packet entity_position_packet
    entity_rotation_packet entity_position_rotation_packet spawn_entity_packet spawn_player_packet
    remove_entity_packet info_remove_packet info_unlist_packet
packets_fit F p health now x z dx dy dz yaw pitch stack ground v hx hz =
    let own = var_int_size p.eid v.eid_fits in
    let kind = var_int_size p.entity_type v.type_fits in
    let extra = var_int_size p.entity_data v.data_fits in
    let one = var_int_size 1 (omega arith) in
    let twenty = var_int_size 20 (omega arith) in
    let at_x = var_int_size x hx in
    let at_z = var_int_size z hz in
    (
      omega sizes,
      omega sizes,
      omega sizes,
      omega sizes,
      omega sizes,
      omega sizes,
      omega (sizes, length-velocity stack),
      omega sizes,
      omega sizes,
      omega sizes,
      omega sizes,
    )

-- `setLocation` builds 37 bytes at most as long as the teleport id is below `2 ^ 28`; from there on
-- the packet is one byte longer than its buffer.
position_packet_fits :
    (p : Player)
    → (length (position_packet p).payload ≤ 8 * 3 + 4 * 2 + 5) ↔ (p.teleport_id % 2 ^ 32 < 2 ^ 28)
unfolding position_packet
position_packet_fits p =
    let (big, small) = length-write_var_int (p.teleport_id % 2 ^ 32) (omega arith) in
    (
      λ h. elim (dec_lt (p.teleport_id % 2 ^ 32) (2 ^ 28)) [
        | yes low ↦ low
        | no high ↦ absurd (omega (sizes, big (omega arith)))
      ],
      λ h. omega (sizes, small h),
    )
