-- ===== src/Player/InfoSize.antt =====
-- The first packet of `spawnPlayer` against its heap buffer, which has room for a name of 16 bytes.
use doom_mc.Prelude.{
  ℕ, suc, ◌+◌, ◌-◌, ◌*◌, ◌%◌, ◌^◌, ◌≤◌, ◌<◌, ◌≡◌, refl, Option, none, some, List, length, All,
  arith, length-append,
}
use doom_mc.Wire.VarInt.{write_var_int}
use doom_mc.Wire.VarInt.Bounds.{length-write_var_int_le}
use doom_mc.Wire.Strings.{write_string}
use doom_mc.Wire.Strings.Laws.{write_string_plain}
use doom_mc.Player.{Player}
use doom_mc.Player.Packets.{textures, property_bytes, skin_bytes, player_info_packet}
use doom_mc.Player.Bounds.{var_int_size, length-uuid, length_append}

-- A C string that is shorter than `n`.
abbrev pub IsText : ℕ → List ℕ → Type 0
IsText n s = All (λ b. 0 < b) s × (length s < n)

abbrev pub AreTexts : Option (List ℕ) → Option (List ℕ) → Type 0
AreTexts none g = Unit {0}
AreTexts (some v) none = IsText (2 ^ 21) v
AreTexts (some v) (some g) = IsText (2 ^ 21) v × IsText (2 ^ 21) g

-- `skinSize + signatureSize`
abbrev pub room : Option (List ℕ) → Option (List ℕ) → ℕ
room none g = 0
room (some v) none = length v
room (some v) (some g) = length v + length g

-- `new byte[1 + MAX_VAR_INT + sizeof(UUID_t) + (4 * MAX_VAR_INT) + 17 + skinSize + signatureSize]`
abbrev pub info_buffer : Player → ℕ
info_buffer p = 1 + 5 + 16 + 4 * 5 + 17 + room p.skin.value p.skin.signature

text_size :
    (k : ℕ) (s : List ℕ)
    → IsText (2 ^ 31) s
    → length s < 128 ^ suc k
    → (length s + 1 ≤ length (write_string s)) × (length (write_string s) ≤ length s + suc k)
text_size k s h short =
    let size = length-append (write_var_int (length s)) s in
    let (lo, _) = var_int_size (length s) (omega arith) in
    let hi = length-write_var_int_le k (length s) short (omega arith) in
    rw (write_string_plain s h.0) (omega arith, omega arith)

one_byte : (v : ℕ) → v < 128 → length (write_var_int v) ≡ 1
one_byte v h =
    let (lo, _) = var_int_size v (omega arith) in
    omega (arith, length-write_var_int_le 0 v h (omega arith))

length-textures : length (write_string textures) ≡ 9
unfolding write_string write_var_int
length-textures = refl

property_size :
    (value signature : Option (List ℕ))
    → AreTexts value signature
    → (room value signature + 1 ≤ length (property_bytes value signature))
      × (length (property_bytes value signature) ≤ room value signature + 17)
unfolding property_bytes
property_size none g h = omega (arith, one_byte 0 (omega arith))
property_size (some v) none h =
    let v_size = text_size 2 v (h.0, omega arith) h.1 in
    omega (arith, one_byte 1 (omega arith), length-textures, length_append)
property_size (some v) (some g) h =
    let v_size = text_size 2 v (h.0.0, omega arith) h.0.1 in
    let g_size = text_size 2 g (h.1.0, omega arith) h.1.1 in
    omega (arith, one_byte 1 (omega arith), length-textures, length_append)

-- With a name of 16 bytes at most, and a skin and a signature below 2 MiB, the packet fits its
-- buffer.
player_info_fits :
    (now : ℕ) (p : Player)
    → IsText 17 p.username
    → AreTexts p.skin.value p.skin.signature
    → length (player_info_packet now p).payload ≤ info_buffer p
unfolding player_info_packet skin_bytes
player_info_fits now p name skin =
    let ping = var_int_size ((now + 2 ^ 64 - p.last_keep_alive) % 2 ^ 32) (omega arith) in
    let name_size = text_size 0 p.username (name.0, omega arith) (omega arith) in
    let skin_size = property_size p.skin.value p.skin.signature skin in
    omega
      (arith, one_byte 1 (omega arith), one_byte 0 (omega arith), length_append, length-uuid p.uuid)

-- Nothing bounds the name that a client logs in with, and from 37 bytes on the packet is always
-- longer than its buffer.
pub player_info_overflows :
    (now : ℕ) (p : Player)
    → IsText (2 ^ 21) p.username
    → 37 ≤ length p.username
    → AreTexts p.skin.value p.skin.signature
    → info_buffer p < length (player_info_packet now p).payload
unfolding player_info_packet skin_bytes
player_info_overflows now p name long skin =
    let ping = var_int_size ((now + 2 ^ 64 - p.last_keep_alive) % 2 ^ 32) (omega arith) in
    let name_size = text_size 2 p.username (name.0, omega arith) name.1 in
    let skin_size = property_size p.skin.value p.skin.signature skin in
    omega
      (arith, one_byte 1 (omega arith), one_byte 0 (omega arith), length_append, length-uuid p.uuid)
