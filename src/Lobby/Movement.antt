-- ===== src/Lobby/Movement.antt =====
-- `player::handlePacket` of src/player.cpp, and `entity::getBlock` of src/entity.cpp, by which a player
-- stands on the ground.
use doom_mc.Prelude.{
  ℕ, ◌+◌, ◌-◌, ◌%◌, ◌^◌, Bool, true, false, not, ◌||◌, List, ltb, leb, ◌==◌, if◌then◌else◌,
}
use doom_mc.Result.{Exception, invalid_argument, error_code, runtime_error}
use doom_mc.Result
use doom_mc.Wire.Cursor
use doom_mc.Wire.Cursor.{Cursor, at, clear, Reader, map_reader}
use doom_mc.Wire.Endian.{read_byte, read_big_endian_double, read_big_endian_float}
use doom_mc.GameMap.{GameMap, get_block}
use doom_mc.Player.{Player, State, play_state, none_state, status_state, login_state, config_state}
use doom_mc.Lobby.{
  M, done, raised, fault, ◌>>◌, update, Host, update_player_position, update_player_rotation,
  update_player_position_rotation,
}

-- The machine's conversions, on patterns: `(int)d`, `(uint32_t)(d + n)`, `(int32_t)f`, and `d + f`.
pub record Conversions : Type 0 where
  pub int_of : ℕ → ℕ
  pub place : ℕ → ℕ → ℕ
  pub int_of_float : ℕ → ℕ
  pub add_float : ℕ → ℕ → ℕ

-- `entity::getBlock`: outside the map there is no block, but below it an exception.
unfoldable pub entity_block : Conversions → GameMap → Player → ℕ → ℕ → ℕ → Result.Result ℕ
entity_block w m e x y z =
    let abs_y = (w.int_of e.y + y) % 2 ^ 32 in
    if leb (2 ^ 31) abs_y
    then Result.throw invalid_argument
    else elim (get_block m (w.place e.x x) abs_y (w.place e.z z)) [
      | Result.ok b ↦ Result.ok b
      | Result.throw x' ↦ elim x' [
        | invalid_argument ↦ Result.ok 0
        | error_code ↦ Result.throw error_code
        | runtime_error ↦ Result.throw runtime_error
      ]
      | Result.fault ↦ Result.fault
    ]

-- Goes on with the value that was read, and with the bytes behind it.
abbrev pub reading {ℓ} :
    {A : Type ℓ} → Reader A → List ℕ → (A → List ℕ → M (Unit {0})) → M (Unit {0})
reading m bytes k l = elim (m (at bytes clear)) [
  | Cursor.done a c ↦ k a c.rest l
  | Cursor.fault ↦ fault
]

-- `readBool`
unfoldable pub read_bool : Reader Bool
read_bool = map_reader (λ b. not (b == 0)) read_byte

abbrev pub change : ℕ → (Player → Player) → M (Unit {0})
change p f l = done tt (record l { heap = update l.heap p (f (l.heap p)) })

abbrev pub same_bool : Bool → Bool → Bool
same_bool a b = if a then b else not b

-- `if(verifyOnGround(this) == onGround) this->onGround = onGround;`
unfoldable pub set_on_ground : Conversions → GameMap → ℕ → Bool → M (Unit {0})
unfolding entity_block
set_on_ground w m p ground l = elim (entity_block w m (l.heap p) 0 (2 ^ 32 - 1) 0) [
  | Result.ok b ↦
      if same_bool (not (b == 0)) ground
      then change p (λ e. record e { on_ground = ground }) l
      else done tt l
  | Result.throw e ↦ raised e l
  | Result.fault ↦ fault
]

abbrev pub place_at : ℕ → ℕ → ℕ → ℕ → M (Unit {0})
place_at p x y z = change p (λ e. record e { x = x; y = y; z = z })

-- `this->x != x || this->y != y || this->z != z`
abbrev pub has_moved : Host → Player → ℕ → ℕ → ℕ → Bool
has_moved h e x y z =
    not (h.floats.same_double e.x x)
    || not (h.floats.same_double e.y y)
    || not (h.floats.same_double e.z z)

unfoldable pub move_to : Host → ℕ → ℕ → ℕ → ℕ → M (Unit {0})
unfolding update_player_position
move_to h p x y z l =
    let e = l.heap p in
    let d = h.floats.int_delta in
    if has_moved h e x y z
    then (update_player_position p (d e.x x) (d e.y y) (d e.z z) >> place_at p x y z) l
    else done tt l

unfoldable pub move_and_turn_to : Host → ℕ → ℕ → ℕ → ℕ → M (Unit {0})
unfolding update_player_position_rotation
move_and_turn_to h p x y z l =
    let e = l.heap p in
    let d = h.floats.int_delta in
    if has_moved h e x y z
    then (update_player_position_rotation h p (d e.x x) (d e.y y) (d e.z z) e.yaw e.pitch
          >> place_at p x y z)
        l
    else done tt l

-- The case SET_PLAYER_POSITION, from its last read to its first.
module _ (h : Host) (w : Conversions) (m : GameMap) (p : ℕ) where
  unfoldable pub settle_and_move : ℕ → ℕ → ℕ → Bool → List ℕ → M (Unit {0})
  unfolding set_on_ground move_to
  settle_and_move x y z ground more = set_on_ground w m p ground >> move_to h p x y z

  unfoldable pub read_ground : ℕ → ℕ → ℕ → List ℕ → M (Unit {0})
  unfolding settle_and_move read_bool
  read_ground x y z rest = reading read_bool rest (settle_and_move x y z)

  unfoldable pub read_z : ℕ → ℕ → List ℕ → M (Unit {0})
  unfolding read_ground
  read_z x y rest = reading read_big_endian_double rest (read_ground x y)

  unfoldable pub read_y : ℕ → List ℕ → M (Unit {0})
  unfolding read_z
  read_y x rest = reading read_big_endian_double rest (read_z x)

  unfoldable pub handle_position : List ℕ → M (Unit {0})
  unfolding read_y
  handle_position bytes = reading read_big_endian_double bytes read_y

abbrev pub turn_to : ℕ → ℕ → ℕ → M (Unit {0})
turn_to p yaw pitch = change p (λ e. record e { yaw = yaw; pitch = pitch })

-- The two floats that turn a player. `readBigEndianFloat` reads both from the start of the packet.
abbrev pub reading_turn : List ℕ → List ℕ → (ℕ → ℕ → List ℕ → M (Unit {0})) → M (Unit {0})
reading_turn bytes rest k =
    reading (read_big_endian_float bytes) rest
      (λ yaw rest'. reading (read_big_endian_float bytes) rest' (λ pitch more. k yaw pitch more))

-- The case SET_PLAYER_POSITION_AND_ROTATION.
unfoldable pub handle_position_rotation : Host → Conversions → GameMap → ℕ → List ℕ → M (Unit {0})
unfolding set_on_ground move_and_turn_to read_bool
handle_position_rotation h w m p bytes = reading read_big_endian_double bytes (λ x rest.
    reading read_big_endian_double rest (λ y rest'.
      reading read_big_endian_double rest' (λ z rest''.
        reading_turn bytes rest'' (λ yaw pitch rest'''.
          turn_to p yaw pitch
          >> reading read_bool rest'''
              (λ ground more. set_on_ground w m p ground >> move_and_turn_to h p x y z)))))

-- The case SET_PLAYER_ROTATION.
unfoldable pub handle_rotation : Host → Conversions → GameMap → ℕ → List ℕ → M (Unit {0})
unfolding set_on_ground update_player_rotation read_bool
handle_rotation h w m p bytes = reading_turn bytes bytes (λ yaw pitch rest.
    turn_to p yaw pitch
    >> reading read_bool rest
        (λ ground more. set_on_ground w m p ground >> update_player_rotation h p yaw pitch))

-- The case PLAYER_INPUT.
unfoldable pub handle_input : Conversions → ℕ → List ℕ → M (Unit {0})
unfolding update_player_position
handle_input w p bytes = reading_turn bytes bytes (λ sideways forward rest.
    reading read_byte rest (λ jump more.
      update_player_position p (w.int_of_float forward) 0 (w.int_of_float sideways)
      >> change p (λ e. record e { x = w.add_float e.x forward; z = w.add_float e.z sideways })))

abbrev pub hold : ℕ → ℕ → M (Unit {0})
hold p held = change p (λ e. record e { held_slot = held })

-- An `int16_t` as an `int`.
abbrev pub short_to_int : ℕ → ℕ
short_to_int v = if ltb v (2 ^ 15) then v else v + (2 ^ 32 - 2 ^ 16)

abbrev pub is_play : State → Bool
is_play none_state = false
is_play status_state = false
is_play login_state = false
is_play play_state = true
is_play config_state = false
