-- ===== src/Wire/Endian/Laws.antt =====
-- The fixed-width writers put the highest byte first, and the readers take it back.
use doom_mc.Prelude.{
  ℕ, zero, suc, ◌+◌, ◌*◌, ◌/◌, ◌^◌, ◌≤◌, ◌<◌, ◌≡◌, refl, List, [], ◌∷◌, ◌++◌, arith, reverse, ap,
  length, All, ◌↔◌, take, drop,
}
use doom_mc.Wire.Cursor.{Errno, Cursor, at, done, map_reader, read_bytes, read_bytes-append}
use doom_mc.Wire.Endian.{
  store, load, swap_bytes, swap_double, write_big_endian_short, write_big_endian_int,
  write_big_endian_long, write_big_endian_float, write_big_endian_double, read_big_endian_short,
  read_big_endian_int, read_big_endian_long, read_big_endian_double, read_big_endian_float,
  read_float,
}

pub length-store : (n v : ℕ) → length (store n v) ≡ n
length-store zero v = refl
length-store (suc n) v = ap suc (length-store n (v / 256))

-- Writing a value and reading its bytes the other way round.
swap_back :
    (s i l d : ℕ)
    → s < 2 ^ 16
    → i < 2 ^ 32
    → l < 2 ^ 64
    → d < 2 ^ 64
    → (swap_bytes 2 (load (write_big_endian_short s)) ≡ s)
      × (swap_bytes 4 (load (write_big_endian_int i)) ≡ i)
      × (swap_bytes 8 (load (write_big_endian_long l)) ≡ l)
      × (swap_double (load (write_big_endian_double d)) ≡ d)
unfolding swap_bytes swap_double write_big_endian_short write_big_endian_int write_big_endian_long
    write_big_endian_double
swap_back s i l d hs hi hl hd = omega arith

load_after :
    (f : ℕ → ℕ) (n : ℕ) (bytes rest : List ℕ) (e : Errno) {v : ℕ}
    → n ≡ length bytes
    → f (load bytes) ≡ v
    → map_reader f (map_reader load (read_bytes n)) (at (bytes ++ rest) e) ≡ done v (at rest e)
load_after f n bytes rest e h k =
    rw (read_bytes-append bytes rest n e h, map_reader) (ap (λ (t : ℕ). done t (at rest e)) k)

pub store-load : (bs : List ℕ) → All (λ b. b < 256) bs → store (length bs) (load bs) ≡ bs
store-load [] h = refl
store-load (b ∷ bs) h = ground (arith, store-load bs h.1)

-- Every big-endian writer puts the value's bytes down highest first.
big_endian_order :
    (s i l f d : ℕ)
    → (write_big_endian_short s ≡ reverse (store 2 s))
      × (write_big_endian_int i ≡ reverse (store 4 i))
      × (write_big_endian_long l ≡ reverse (store 8 l))
      × (write_big_endian_float f ≡ reverse (store 4 f))
      × (write_big_endian_double d ≡ reverse (store 8 d))
unfolding write_big_endian_short write_big_endian_int write_big_endian_long write_big_endian_float
    write_big_endian_double swap_bytes
big_endian_order s i l f d = (
  store-load (reverse (store 2 s)) (omega arith),
  store-load (reverse (store 4 i)) (omega arith),
  store-load (reverse (store 8 l)) (omega arith),
  store-load (reverse (store 4 f)) (omega arith),
  store-load (reverse (store 8 d)) (omega arith),
)

-- Each big-endian reader that honours `*index` reads back what its writer wrote, and stops behind it.
pub read-write_big_endian :
    (s i l d : ℕ) (rest : List ℕ) (e : Errno)
    → s < 2 ^ 16
    → i < 2 ^ 32
    → l < 2 ^ 64
    → d < 2 ^ 64
    → (read_big_endian_short (at (write_big_endian_short s ++ rest) e) ≡ done s (at rest e))
      × (read_big_endian_int (at (write_big_endian_int i ++ rest) e) ≡ done i (at rest e))
      × (read_big_endian_long (at (write_big_endian_long l ++ rest) e) ≡ done l (at rest e))
      × (read_big_endian_double (at (write_big_endian_double d ++ rest) e) ≡ done d (at rest e))
unfolding read_big_endian_short read_big_endian_int read_big_endian_long read_big_endian_double
    write_big_endian_short write_big_endian_int write_big_endian_long write_big_endian_double
read-write_big_endian s i l d rest e hs hi hl hd =
    let (s_back, i_back, l_back, d_back) = swap_back s i l d hs hi hl hd in
    (
      load_after (swap_bytes 2) 2 (write_big_endian_short s) rest e refl s_back,
      load_after (swap_bytes 4) 4 (write_big_endian_int i) rest e refl i_back,
      load_after (swap_bytes 8) 8 (write_big_endian_long l) rest e refl l_back,
      load_after swap_double 8 (write_big_endian_double d) rest e refl d_back,
    )

read_float_long :
    (buff : List ℕ) (c : Cursor)
    → 4 ≤ length buff
    → read_float buff c ≡ done (load (take 4 buff)) (record c { rest = drop 4 c.rest })
unfolding read_float
read_float_long buff c h = ground arith

float_value :
    (a b c d : ℕ) (more tail : List ℕ) (f : ℕ) (e : Errno)
    → All (λ x. x < 256) (a ∷ b ∷ c ∷ d ∷ [])
    → read_big_endian_float (a ∷ b ∷ c ∷ d ∷ more) (at (write_big_endian_float f ++ tail) e)
      ≡ done (d + 256 * (c + 256 * (b + 256 * a))) (at tail e)
unfolding read_big_endian_float write_big_endian_float
float_value a b c d more tail f e bytes =
    rw
      (
        read_float_long (a ∷ b ∷ c ∷ d ∷ more) (at (write_big_endian_float f ++ tail) e)
            (omega arith),
        map_reader,
      )
      (ap (λ (t : ℕ). done t (at tail e)) (omega arith))

-- `readBigEndianFloat` does not look at `*index`: it gives the number in the first four bytes of the
-- buffer. A float that was written behind those bytes is read back only where the two agree.
read_big_endian_float_ignores_index :
    (a b c d : ℕ) (more tail : List ℕ) (f : ℕ) (e : Errno)
    → All (λ x. x < 256) (a ∷ b ∷ c ∷ d ∷ [])
    → f < 2 ^ 32
    → (read_big_endian_float (a ∷ b ∷ c ∷ d ∷ more) (at (write_big_endian_float f ++ tail) e)
        ≡ done f (at tail e))
      ↔ (write_big_endian_float f ≡ a ∷ b ∷ c ∷ d ∷ [])
read_big_endian_float_ignores_index a b c d more tail f e bytes h =
    rw (float_value a b c d more tail f e bytes, (big_endian_order 0 0 0 f 0).3)
      (λ p. ground arith, λ p. ground arith)
