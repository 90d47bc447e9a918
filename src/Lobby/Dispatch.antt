-- ===== src/Lobby/Dispatch.antt =====
-- `player::handlePacket` as a whole.
use doom_mc.Prelude.{ℕ, true, List, ◌==◌, if◌then◌else◌, ◌≡◌, refl, Bool-cases, inl, inr}
use doom_mc.Result.{invalid_argument, error_code, runtime_error}
use doom_mc.Lobby.Members.{remove_player, delete_player}
use doom_mc.PacketIds.{
  chat_message, set_player_position, set_player_position_and_rotation, set_player_rotation,
  set_player_on_ground, pick_item, player_input, keep_alive_2, set_held_item,
}
use doom_mc.Wire.VarInt.{read_var_int}
use doom_mc.Wire.Strings.{read_string}
use doom_mc.Wire.Endian.{read_big_endian_short}
use doom_mc.GameMap.{GameMap}
use doom_mc.Lobby.{fault, ◌>>◌, Lobby, M, done, raised, skip, Host}
use doom_mc.Lobby.Timeout.{handle_keep_alive}
use doom_mc.Lobby.Movement.{
  Conversions, reading, read_bool, set_on_ground, handle_position, handle_position_rotation,
  handle_rotation, handle_input, hold, short_to_int, is_play,
}

-- The cases of the packet ids; SWING_ARM and every other id do nothing.
unfoldable pub handle_play_packet : Host → Conversions → GameMap → ℕ → ℕ → List ℕ → M (Unit {0})
unfolding read_bool set_on_ground handle_position handle_position_rotation handle_rotation
    handle_input handle_keep_alive
handle_play_packet h w m p id bytes =
    if id == chat_message
    then reading read_string bytes (λ message rest. skip)
    else if id == set_player_position
    then handle_position h w m p bytes
    else if id == set_player_position_and_rotation
    then handle_position_rotation h w m p bytes
    else if id == set_player_rotation
    then handle_rotation h w m p bytes
    else if id == set_player_on_ground
    then reading read_bool bytes (λ ground rest. set_on_ground w m p ground)
    else if id == pick_item
    then reading read_var_int bytes (λ slot rest. hold p slot)
    else if id == player_input
    then handle_input w p bytes
    else if id == keep_alive_2
    then handle_keep_alive h.now p bytes
    else if id == set_held_item
    then reading read_big_endian_short bytes (λ slot rest. hold p (short_to_int slot))
    else skip

unfoldable pub handle_player_packet : Host → Conversions → GameMap → ℕ → ℕ → List ℕ → M (Unit {0})
unfolding handle_play_packet
handle_player_packet h w m p id bytes l =
    if is_play (l.heap p).state
    then if (l.heap p).has_spawned then handle_play_packet h w m p id bytes l else done tt l
    else raised invalid_argument l

-- SET_HELD_ITEM_2, the id with which a client says that it holds another item, is no case of the
-- switch, which looks for the id that goes to the client: the packet changes nothing.
handle_player_packet-held-item :
    (h : Host) (w : Conversions) (m : GameMap) (p : ℕ) (bytes : List ℕ) (l : Lobby)
    → is_play (l.heap p).state ≡ true
    → handle_player_packet h w m p 0x28 bytes l ≡ done tt l
unfolding handle_player_packet handle_play_packet
handle_player_packet-held-item h w m p bytes l playing = elim (Bool-cases (l.heap p).has_spawned) [
  | inl spawned ↦ rw (playing, spawned) refl
  | inr waiting ↦ rw (playing, waiting) refl
]

-- What `epoll_wait` reports: a byte in the lobby's pipe, a closed socket, or a packet of a player.
pub data Event : Type 0 where
  pipe : Event
  hang_up : ℕ → Event
  incoming : ℕ → ℕ → List ℕ → Event

-- `try { ... } catch(std::invalid_argument &e) { ... continue; }`
unfoldable pub catch_invalid_argument : M (Unit {0}) → M (Unit {0})
catch_invalid_argument m l = elim (m l) [
  | done a l' ↦ done a l'
  | raised e l' ↦ elim e [
    | invalid_argument ↦ done tt l'
    | error_code ↦ raised error_code l'
    | runtime_error ↦ raised runtime_error l'
  ]
  | fault ↦ fault
]

-- One event of `monitorPlayers`.
unfoldable pub monitor_event : Host → Conversions → GameMap → Event → M (Unit {0})
unfolding handle_player_packet remove_player delete_player catch_invalid_argument
monitor_event h w m pipe = skip
monitor_event h w m (hang_up p) = remove_player p >> delete_player p
monitor_event h w m (incoming p id bytes) =
    catch_invalid_argument (handle_player_packet h w m p id bytes)
