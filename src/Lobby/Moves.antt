-- ===== src/Lobby/Moves.antt =====
-- What a player's own position packet does.
use doom_mc.Prelude.{
  ℕ, ◌+◌, ◌-◌, ◌*◌, ◌%◌, ◌^◌, ◌≤◌, ◌<◌, ◌≡◌, refl, Bool, true, not, List, [], ◌∷◌, ◌++◌, length,
  arith, ap, ◌∙◌, sym, ◌==◌, if◌then◌else◌, ==_refl, Bool-cases, inl, inr,
}
use mathlib.Core.Path.{fun_ext}
use doom_mc.Result
use doom_mc.Wire.Cursor
use doom_mc.Wire.Cursor.{at, clear}
use doom_mc.Wire.Endian.{write_big_endian_double, read_big_endian_double, read_byte}
use doom_mc.Wire.Endian.Laws.{read-write_big_endian}
use doom_mc.GameMap.{GameMap}
use doom_mc.Player.{Player, Packet}
use doom_mc.Player.Packets.{entity_position_packet}
use doom_mc.Lobby.{Lobby, M, done, update, Host, update_player_position, at_least_one, then_done}
use doom_mc.Lobby.Broadcast.{audience, mailing, CanHear, with_sent, broadcast_run}
use doom_mc.Lobby.Movement.{
  Conversions, entity_block, reading, read_bool, same_bool, set_on_ground, place_at, has_moved,
  move_to, handle_position, read_y, read_z, read_ground, settle_and_move,
}

-- The payload: three doubles, and the byte that says whether the player stands on the ground.
abbrev pub position_bytes : ℕ → ℕ → ℕ → ℕ → List ℕ
position_bytes x y z b =
    write_big_endian_double x
    ++ (write_big_endian_double y ++ (write_big_endian_double z ++ (b ∷ [])))

reading_done {ℓ} :
    {A : Type ℓ} (m : Cursor.Reader A) (bytes rest : List ℕ) (k : A → List ℕ → M (Unit {0}))
    (l : Lobby) (a : A)
    → m (at bytes clear) ≡ Cursor.done a (at rest clear)
    → reading m bytes k l ≡ k a rest l
reading_done m bytes rest k l a h = rw (h, reading) refl

double_back :
    (d : ℕ) (rest : List ℕ)
    → d < 2 ^ 64
    → read_big_endian_double (at (write_big_endian_double d ++ rest) clear)
      ≡ Cursor.done d (at rest clear)
double_back d rest fits =
    let (_, _, _, back) =
      read-write_big_endian 0 0 0 d rest clear (omega arith) (omega arith) (omega arith) fits in
    back

bool_back : (b : ℕ) → read_bool (at (b ∷ []) clear) ≡ Cursor.done (not (b == 0)) (at [] clear)
unfolding read_bool read_byte Cursor.read_bytes
bool_back b =
    ap (λ (t : ℕ). Cursor.done (not (t == 0)) (at [] clear)) {x = b + 256 * 0} {y = b} (omega arith)

-- The player once `onGround` is brought up to date, where `block` is below it.
abbrev pub settled : ℕ → Bool → Player → Player
settled block standing e =
    if same_bool (not (block == 0)) standing then record e { on_ground = standing } else e

abbrev pub with_player : ℕ → Player → Lobby → Lobby
with_player p e l = record l { heap = update l.heap p e }

settled-fd : (block : ℕ) (standing : Bool) (e : Player) → (settled block standing e).fd ≡ e.fd
settled-fd block standing e = elim (Bool-cases (same_bool (not (block == 0)) standing)) [
  | inl same ↦ rw same refl
  | inr keep ↦ rw keep refl
]

settled-moved :
    (h : Host) (block : ℕ) (standing : Bool) (e : Player) (x y z : ℕ)
    → has_moved h (settled block standing e) x y z ≡ has_moved h e x y z
settled-moved h block standing e x y z = elim (Bool-cases (same_bool (not (block == 0)) standing)) [
  | inl same ↦ rw same refl
  | inr keep ↦ rw keep refl
]

update_same {ℓ} : {A : Type ℓ} (f : ℕ → A) (k : ℕ) (v : A) → update f k v k ≡ v
update_same f k v = rw ==_refl

same_heap : (f : ℕ → Player) (k : ℕ) → update f k (f k) ≡ f
same_heap f k = fun_ext (λ j. at_each j)
  where
    at_each : (j : ℕ) → update f k (f k) j ≡ f j
    at_each j = elim (Bool-cases (j == k)) [
      | inl here ↦ let j_k : j ≡ k = ground arith in rw here (ap f (sym j_k))
      | inr other ↦ rw other refl
    ]

set_on_ground_run :
    (w : Conversions) (m : GameMap) (p block : ℕ) (standing : Bool) (l : Lobby)
    → entity_block w m (l.heap p) 0 (2 ^ 32 - 1) 0 ≡ Result.ok block
    → set_on_ground w m p standing l ≡ done tt (with_player p (settled block standing (l.heap p)) l)
unfolding set_on_ground
set_on_ground_run w m p block standing l e =
    elim (Bool-cases (same_bool (not (block == 0)) standing)) [
      | inl same ↦ rw (e, set_on_ground, same) refl
      | inr keep ↦
          rw (e, set_on_ground, keep)
            (ap (λ (hp : ℕ → Player). done tt (record l { heap = hp })) (sym (same_heap l.heap p)))
    ]

with_player-CanHear :
    (p : ℕ) (e : Player) (l : Lobby) (qs : List ℕ)
    → e.fd ≡ (l.heap p).fd
    → CanHear l qs
    → CanHear (with_player p e l) qs
with_player-CanHear p e l [] same h = h
with_player-CanHear p e l (q ∷ qs) same h =
    (ap l.link at_q ∙ h.0, with_player-CanHear p e l qs same h.1)
  where
    at_q : (update l.heap p e q).fd ≡ (l.heap q).fd
    at_q = elim (Bool-cases (q == p)) [
      | inl here ↦
          let p_q : p ≡ q = ground arith in rw here (same ∙ ap (λ (t : ℕ). (l.heap t).fd) p_q)
      | inr other ↦ rw other refl
    ]

abbrev pub coordinates : ℕ → ℕ → ℕ → Player → Player
coordinates x y z e = record e { x = x; y = y; z = z }

-- What the others are told: the way from the old place to the new one.
abbrev pub step_packet : Host → Player → ℕ → ℕ → ℕ → Packet
step_packet h e x y z =
    let d = h.floats.int_delta in
    entity_position_packet e.eid (d e.x x % 2 ^ 16) (at_least_one (d e.y y) % 2 ^ 16)
      (d e.z z % 2 ^ 16) e.on_ground

move_run :
    (h : Host) (p x y z : ℕ) (l : Lobby)
    → has_moved h (l.heap p) x y z ≡ true
    → l.player_count ≤ length l.players
    → CanHear l (audience l.player_count l.players p)
    → move_to h p x y z l
      ≡ done tt (
          with_player p (coordinates x y z (l.heap p)) (
            with_sent l (
              l.sent
              ++ mailing l.heap
                  (step_packet h (l.heap p) x y z ∷ [])
                  (audience l.player_count l.players p))))
unfolding move_to update_player_position
move_run h p x y z l moved count hear =
    let e = l.heap p in
    let d = h.floats.int_delta in
    rw (moved, move_to)
      (then_done (update_player_position p (d e.x x) (d e.y y) (d e.z z)) (place_at p x y z)
        (broadcast_run l p (step_packet h e x y z ∷ []) count hear))

-- A player's position packet, where the block below it can be read, the others can be written to, and
-- the place is a new one: `onGround` is brought up to date, the audience gets one packet with what the
-- old coordinates have over the new ones, a `y` of 0 or less made 1, and the player is at the new place.
pub handle_position-moves :
    (h : Host) (w : Conversions) (m : GameMap) (p x y z b block : ℕ) (l : Lobby)
    → x < 2 ^ 64
    → y < 2 ^ 64
    → z < 2 ^ 64
    → entity_block w m (l.heap p) 0 (2 ^ 32 - 1) 0 ≡ Result.ok block
    → has_moved h (l.heap p) x y z ≡ true
    → l.player_count ≤ length l.players
    → CanHear l (audience l.player_count l.players p)
    → let l1 = with_player p (settled block (not (b == 0)) (l.heap p)) l in
      handle_position h w m p (position_bytes x y z b) l
      ≡ done tt (
          with_player p (coordinates x y z (l1.heap p)) (
            with_sent l1 (
              l.sent
              ++ mailing l1.heap
                  (step_packet h (l1.heap p) x y z ∷ [])
                  (audience l.player_count l.players p))))
unfolding handle_position read_y read_z read_ground settle_and_move
handle_position-moves h w m p x y z b block l x_fits y_fits z_fits below moved count hear =
    let e = settled block (not (b == 0)) (l.heap p) in
    let l1 = with_player p e l in
    let z_bytes = write_big_endian_double z ++ (b ∷ []) in
    let y_bytes = write_big_endian_double y ++ z_bytes in
    let still_moved : has_moved h (l1.heap p) x y z ≡ true =
      ap (λ (t : Player). has_moved h t x y z) (update_same l.heap p e)
      ∙ settled-moved h block (not (b == 0)) (l.heap p) x y z
      ∙ moved in
    reading_done read_big_endian_double (position_bytes x y z b) y_bytes (read_y h w m p) l x
      (double_back x y_bytes x_fits)
    ∙ reading_done read_big_endian_double y_bytes z_bytes (read_z h w m p x) l y
        (double_back y z_bytes y_fits)
    ∙ reading_done read_big_endian_double z_bytes (b ∷ []) (read_ground h w m p x y) l z
        (double_back z (b ∷ []) z_fits)
    ∙ reading_done read_bool (b ∷ []) [] (settle_and_move h w m p x y z) l (not (b == 0))
        (bool_back b)
    ∙ then_done (set_on_ground w m p (not (b == 0))) (move_to h p x y z) {l = l}
        (set_on_ground_run w m p block (not (b == 0)) l below)
    ∙ move_run h p x y z l1 still_moved count
        (with_player-CanHear p e l _ (settled-fd block (not (b == 0)) (l.heap p)) hear)
