-- ===== src/Player/Overwrites.antt =====
-- The packets whose writes overlap, and the one that may outgrow its buffer.
use doom_mc.Prelude.{
  ℕ, zero, suc, ◌+◌, ◌-◌, ◌*◌, ◌%◌, ◌^◌, ◌≤◌, ◌<◌, ◌≡◌, refl, List, [], ◌∷◌, ◌++◌, length, arith,
  length-append, take, drop, get_elem?, get_elem?-take, get_elem?-drop, get_elem?-append_left,
  get_elem?-append_right, take_all, length-take_in, length-drop_in, replicate, length-replicate,
  take-length-append, drop-length-append, append_assoc, ap, ◌∙◌, sym,
}
use doom_mc.Wire.VarInt.{IsU32, write_var_int}
use doom_mc.Wire.Endian.{write_big_endian_short}
use doom_mc.Player.{Player}
use doom_mc.Player.Packets.{write_at, damage_packet, message_packet}
use doom_mc.Player.Bounds.{var_int_size}

write_at_middle :
    (xs ys zs bytes : List ℕ) (n : ℕ)
    → n ≡ length xs
    → length bytes ≡ length ys
    → write_at (xs ++ (ys ++ zs)) n bytes ≡ xs ++ (bytes ++ zs)
unfolding write_at
write_at_middle xs ys zs bytes n at_end same =
    let stop : n + length bytes ≡ length (xs ++ ys) = omega (arith, length-append xs ys) in
    rw (
      stop,
      at_end,
      take-length-append xs (ys ++ zs),
      ← append_assoc xs ys zs,
      drop-length-append (xs ++ ys) zs,
    )

-- A write changes the length of nothing that it fits, and no byte outside its range.
length-write_at :
    (buffer bytes : List ℕ) (n : ℕ)
    → n + length bytes ≤ length buffer
    → length (write_at buffer n bytes) ≡ length buffer
unfolding write_at
length-write_at buffer bytes n fits = omega (
  arith,
  length-append (take n buffer) (bytes ++ drop (n + length bytes) buffer),
  length-append bytes (drop (n + length bytes) buffer),
  length-take_in n buffer (omega arith),
  length-drop_in (n + length bytes) buffer,
)

get-write_at_before :
    (buffer bytes : List ℕ) (n j : ℕ)
    → n ≤ length buffer
    → j < n
    → get_elem? (write_at buffer n bytes) j ≡ get_elem? buffer j
unfolding write_at
get-write_at_before buffer bytes n j fits before =
    get_elem?-append_left (take n buffer) (bytes ++ drop (n + length bytes) buffer) j
      (omega (arith, length-take_in n buffer fits))
    ∙ get_elem?-take n j buffer before

get-write_at_after :
    (buffer bytes : List ℕ) (n j : ℕ)
    → n ≤ length buffer
    → n + length bytes ≤ j
    → get_elem? (write_at buffer n bytes) j ≡ get_elem? buffer j
unfolding write_at
get-write_at_after buffer bytes n j fits after =
    get_elem?-append_right (take n buffer) (bytes ++ drop (n + length bytes) buffer) j (j - n)
      (omega (arith, length-take_in n buffer fits))
    ∙ get_elem?-append_right bytes (drop (n + length bytes) buffer) (j - n) (j - n - length bytes)
        (omega arith)
    ∙ get_elem?-drop (n + length bytes) (j - n - length bytes) j buffer (omega arith)

replicate-three : (n : ℕ) → replicate {A = ℕ} (suc n) 0 ≡ replicate n 0 ++ 0 ∷ []
replicate-three zero = refl
replicate-three (suc n) = ap (◌∷◌ 0) (replicate-three n)

blank : (n : ℕ) → replicate {A = ℕ} (n + 3) 0 ≡ 0 ∷ 0 ∷ (replicate n 0 ++ 0 ∷ [])
blank n =
    ap (λ (k : ℕ). replicate {A = ℕ} k 0) {x = n + 3} {y = suc (suc (suc n))} (omega arith)
    ∙ ap (λ (t : List ℕ). 0 ∷ 0 ∷ t) (replicate-three n)

-- `sendMessage` loses its tag: what goes out is the length, the message and a zero.
message_packet_lem :
    (message : List ℕ)
    → (message_packet message).payload
      ≡ write_big_endian_short (length message % 2 ^ 16) ++ (message ++ 0 ∷ [])
unfolding message_packet write_big_endian_short
message_packet_lem message =
    rw
      (
        blank (length message),
        write_at_middle size (replicate (length message) 0) (0 ∷ []) message 2 refl
            (sym (length-replicate (length message) 0)),
        ← append_assoc size message (0 ∷ []),
        write_at_middle (size ++ message) (0 ∷ []) [] (0 ∷ []) (length message + 2)
            (omega (arith, length-append size message)) refl,
      )
      (take_all (length message + 3) ((size ++ message) ++ 0 ∷ [])
        (omega (arith, length-append size message, length-append (size ++ message) (0 ∷ []))))
  where
    size : List ℕ
    size = write_big_endian_short (length message % 2 ^ 16)

-- `dealDamage` always sends a byte of its stack buffer that it never wrote, the one before the first
-- entity id.
damage_packet_leaks :
    (stack : List ℕ) (p : Player) (eid damage_type : ℕ)
    → IsU32 p.eid
    → IsU32 damage_type
    → IsU32 eid
    → 5 * 5 + 1 ≤ length stack
    → get_elem?
        (damage_packet stack p eid damage_type).payload
        (length (write_var_int p.eid) + length (write_var_int damage_type) - 1)
      ≡ get_elem? stack (length (write_var_int p.eid) + length (write_var_int damage_type) - 1)
unfolding damage_packet
damage_packet_leaks stack p eid damage_type h k l room =
    let (a_lo, a_hi) = var_int_size p.eid h in
    let (b_lo, b_hi) = var_int_size damage_type k in
    let (c_lo, c_hi) = var_int_size eid l in
    let own = write_var_int p.eid in
    let kind = write_var_int damage_type in
    let other = write_var_int eid in
    let offset = length own + length kind in
    let data0 = write_at stack 0 own in
    let data1 = write_at data0 0 kind in
    let once = write_at data1 offset other in
    let twice = write_at once (offset + length other) other in
    let stop = offset + length other + length other in
    let size0 : length data0 ≡ length stack = length-write_at stack own 0 (omega arith) in
    let size1 : length data1 ≡ length data0 = length-write_at data0 kind 0 (omega arith) in
    let size2 : length once ≡ length data1 = length-write_at data1 other offset (omega arith) in
    let size3 : length twice ≡ length once =
      length-write_at once other (offset + length other) (omega arith) in
    get_elem?-take (stop + 1) (offset - 1) (write_at twice stop (0 ∷ [])) (omega arith)
    ∙ get-write_at_before twice (0 ∷ []) stop (offset - 1) (omega arith) (omega arith)
    ∙ get-write_at_before once other (offset + length other) (offset - 1) (omega arith)
        (omega arith)
    ∙ get-write_at_before data1 other offset (offset - 1) (omega arith) (omega arith)
    ∙ get-write_at_after data0 kind 0 (offset - 1) (omega arith) (omega arith)
    ∙ get-write_at_after stack own 0 (offset - 1) (omega arith) (omega arith)
