-- ===== src/Wire/BitSet.antt =====
-- `writeBitSet` and `readBitSet`: a counted row of 64-bit patterns.
use doom_mc.Prelude.{
  ℕ, zero, suc, ◌%◌, ◌^◌, ◌<◌, ◌≡◌, refl, List, [], ◌∷◌, ◌++◌, arith, length, All, ◌∙◌,
  append_assoc,
}
use doom_mc.Wire.Cursor.{Errno, at, done, Reader, ◌>>=◌, pure, bind_done, to_size, to_size_small}
use doom_mc.Wire.VarInt.{write_var_int, read_var_int}
use doom_mc.Wire.VarInt.RoundTrip.{read-write_var_int}
use doom_mc.Wire.Endian.{write_big_endian_long, read_big_endian_long}
use doom_mc.Wire.Endian.Laws.{read-write_big_endian}

unfoldable pub write_longs : List ℕ → List ℕ
write_longs [] = []
write_longs (l ∷ ls) = write_big_endian_long l ++ write_longs ls

unfoldable pub write_bit_set : List ℕ → List ℕ
unfolding write_longs
write_bit_set bits = write_var_int (length bits % 2 ^ 32) ++ write_longs bits

unfoldable pub read_longs : ℕ → Reader (List ℕ)
read_longs zero = pure []
read_longs (suc n) = do l ← read_big_endian_long; ls ← read_longs n; pure (l ∷ ls)

unfoldable pub read_bit_set : Reader (List ℕ)
unfolding read_longs
read_bit_set = do count ← read_var_int; read_longs (to_size count)

read-write_longs :
    (ls rest : List ℕ) (e : Errno)
    → All (λ l. l < 2 ^ 64) ls
    → read_longs (length ls) (at (write_longs ls ++ rest) e) ≡ done ls (at rest e)
unfolding read_longs write_longs
read-write_longs [] rest e h = refl
read-write_longs (l ∷ ls) rest e h = rw append_assoc (
    bind_done read_big_endian_long _
      (read-write_big_endian 0 0 l 0 (write_longs ls ++ rest) e (omega arith) (omega arith) h.0
        (omega arith)).2
    ∙ bind_done (read_longs (length ls)) _ (read-write_longs ls rest e h.1))

-- `readBitSet` reads back every set of 64-bit words that `writeBitSet` wrote.
read-write_bit_set :
    (bits rest : List ℕ) (e : Errno)
    → All (λ l. l < 2 ^ 64) bits
    → length bits < 2 ^ 31
    → read_bit_set (at (write_bit_set bits ++ rest) e) ≡ done bits (at rest e)
unfolding read_bit_set write_bit_set
read-write_bit_set bits rest e h short =
    let fits : length bits % 2 ^ 32 ≡ length bits = omega arith in
    rw (append_assoc, fits)
      (bind_done read_var_int _
          (read-write_var_int (length bits) (write_longs bits ++ rest) e (omega arith))
        ∙ rw (to_size_small (length bits) short) (read-write_longs bits rest e h))
