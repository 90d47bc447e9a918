-- ===== src/Tests/WireRuns.antt =====
-- The encodings of src/C/mcTypes.c on concrete bytes.
use doom_mc.Prelude.{
  ℕ, ◌+◌, ◌-◌, ◌*◌, ◌/◌, ◌%◌, ◌^◌, ◌≤◌, ◌<◌, ◌≡◌, refl, arith, List, [], ◌∷◌, ◌++◌, length,
  get_elem?, get_or, some, inl, inr, ◌≢◌,
}
use doom_mc.Wire.Cursor.{Cursor, at, clear, done, to_size}
use doom_mc.Wire.VarInt.{IsU32, max_var_int, write_var_int, read_var_int}
use doom_mc.Wire.VarInt.RoundTrip.{read-write_var_int}
use doom_mc.Wire.VarInt.Bounds.{read_var_int_total}
use doom_mc.Wire.Endian.{store}
use doom_mc.Wire.Uuid.{create_offline, create_offline_lem}
use doom_mc.Wire.Strings.{write_string, read_string}
use doom_mc.Wire.Strings.Laws.{read-write_string}
use doom_mc.Wire.Packed.{packed_longs}
use doom_mc.Wire.Quotient.{ceil_div}
use doom_mc.Wire.Packed.Array.{packed_longs-fields}
use doom_mc.Wire.Position.{to_position, position_x, position_y, position_z, position_round_trip}

write_300 : write_var_int 300 ≡ 172 ∷ 2 ∷ []
unfolding write_var_int
write_300 = refl

read-write_var_int_example :
    read_var_int (at (write_var_int 300 ++ 7 ∷ []) clear) ≡ done 300 (at (7 ∷ []) clear)
read-write_var_int_example = read-write_var_int 300 (7 ∷ []) clear (omega arith)

abbrev stray : List ℕ
stray = 200 ∷ 200 ∷ 1 ∷ 9 ∷ 9 ∷ []

read_var_int_total_example :
    (v : ℕ) × (c : Cursor) × (read_var_int (at stray clear) ≡ done v c)
    × IsU32 v
    × (length c.rest < length stray)
    × (length stray ≤ length c.rest + max_var_int)
read_var_int_total_example = read_var_int_total stray clear (omega arith)

abbrev nul_inside : List ℕ
nul_inside = 104 ∷ 0 ∷ 105 ∷ []

read-write_string_example :
    read_string (at (write_string (104 ∷ 105 ∷ []) ++ 7 ∷ []) clear)
    ≡ done (104 ∷ 105 ∷ []) (at (7 ∷ []) clear)
read-write_string_example =
    read-write_string (104 ∷ 105 ∷ []) (7 ∷ []) clear (omega arith, (omega arith, tt)) (omega arith)

abbrev sample : List ℕ
sample = 1 ∷ 2 ∷ 3 ∷ 4 ∷ 5 ∷ []

packed_longs-fields_example :
    (x : ℕ) × (get_elem?
        (packed_longs sample (64 / 15) 15 (ceil_div (length sample) (64 / 15)) 0)
        (4 / (64 / 15))
      ≡ some x)
    × (x / 2 ^ (4 % (64 / 15) * 15) % 2 ^ 15 ≡ get_or sample 4 0 % 2 ^ 15)
packed_longs-fields_example =
    packed_longs-fields sample 15 4 (omega arith) (omega arith) (omega arith) (omega arith)

position_round_trip_example :
    (position_x (to_position 5 (2 ^ 32 - 3) 9) ≡ to_size 5)
    × (position_y (to_position 5 (2 ^ 32 - 3) 9) ≡ to_size (2 ^ 32 - 3))
    × (position_z (to_position 5 (2 ^ 32 - 3) 9) ≡ to_size 9)
position_round_trip_example =
    position_round_trip 5 (2 ^ 32 - 3) 9 (inl (omega arith)) (inr (omega arith, omega arith))
      (inl (omega arith))

-- A digest that depends on the last byte of the name.
abbrev digest_of : List ℕ → List ℕ
digest_of name =
    get_or name 16 0 ∷ 1 ∷ 2 ∷ 3 ∷ 4 ∷ 5 ∷ 255 ∷ 7 ∷ 255 ∷ 9 ∷ 10 ∷ 11 ∷ 12 ∷ 13 ∷ 14 ∷ 15 ∷ []

abbrev bob : List ℕ
bob = 98 ∷ 111 ∷ 98 ∷ []

create_offline_lem_example :
    (get_or (store 16 (create_offline digest_of bob)) 6 0 / 16 ≡ 3)
    × (get_or (store 16 (create_offline digest_of bob)) 6 0 % 16 ≡ 255 % 16)
    × (get_or (store 16 (create_offline digest_of bob)) 8 0 / 64 ≡ 2)
    × (get_or (store 16 (create_offline digest_of bob)) 8 0 % 64 ≡ 255 % 64)
    × ((i : ℕ)
        → i ≢ 6
        → i ≢ 8
        → get_or (store 16 (create_offline digest_of bob)) i 0
          ≡ get_or
              (98 ∷ 1 ∷ 2 ∷ 3 ∷ 4 ∷ 5 ∷ 255 ∷ 7 ∷ 255 ∷ 9 ∷ 10 ∷ 11 ∷ 12 ∷ 13 ∷ 14 ∷ 15 ∷ [])
              i
              0)
    × (create_offline digest_of bob ≢ 0)
create_offline_lem_example = create_offline_lem digest_of bob refl (omega arith)
