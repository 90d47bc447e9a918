-- ===== src/Wire/Strings.antt =====
-- `writeString`, `readString` and the counted byte arrays. The argument of `write_string` is the
-- first `stringLen` bytes of `string`; a string that is read is the bytes before the terminator that
-- `calloc` leaves behind them.
pub mod Laws
use doom_mc.Prelude.{
  ℕ, zero, suc, ◌+◌, ◌-◌, ◌%◌, ◌^◌, List, [], ◌∷◌, ◌++◌, reverse, length, take, ◌==◌, ltb,
  if◌then◌else◌, Bool, true, false,
}
use doom_mc.Wire.Cursor.{Reader, ◌>>=◌, pure, read_bytes, to_size}
use doom_mc.Wire.VarInt.{write_var_int, read_var_int}

-- `for(int i = stringLen - 1; i >= 0; i--)`: the list is the bytes still to be looked at.
unfoldable pub trim_loop : List ℕ → ℕ → ℕ
trim_loop [] string_len = string_len
trim_loop (b ∷ before) string_len = trim_loop before (if b == 0 then string_len - 1 else string_len)

unfoldable pub write_string : List ℕ → List ℕ
unfolding trim_loop
write_string string =
    let string_len = trim_loop (reverse string) (length string) in
    write_var_int string_len ++ take string_len string

unfoldable pub read_string : Reader (List ℕ)
read_string = do msg_len ← read_var_int; read_bytes (to_size msg_len)

-- `arr.len` is a `size_t` and `writeVarInt` takes an `int32_t`.
unfoldable pub write_byte_array : List ℕ → List ℕ
write_byte_array arr = write_var_int (length arr % 2 ^ 32) ++ arr

unfoldable pub read_byte_array : Reader (List ℕ)
read_byte_array = do arr_len ← read_var_int; read_bytes (to_size arr_len)

-- The rounds of `for(int i = 0; i < number; i++)`, for a pattern of an `int`.
abbrev pub rounds : ℕ → ℕ
rounds number = if ltb number (2 ^ 31) then number else 0

unfoldable pub read_strings : ℕ → Reader (List (List ℕ))
read_strings zero = pure []
read_strings (suc n) = do s ← read_string; ss ← read_strings n; pure (s ∷ ss)

unfoldable pub read_string_array : Reader (List (List ℕ))
unfolding read_strings
read_string_array = do number ← read_var_int; read_strings (rounds number)

-- `cmpByteArray`
unfoldable pub cmp_byte_array : List ℕ → List ℕ → Bool
cmp_byte_array [] [] = true
cmp_byte_array [] (b ∷ bs) = false
cmp_byte_array (a ∷ more) [] = false
cmp_byte_array (a ∷ more) (b ∷ bs) = if a == b then cmp_byte_array more bs else false
