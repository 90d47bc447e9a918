-- ===== src/Wire/Strings/Laws.antt =====
-- What `writeString` writes, and that the readers take it back.
use doom_mc.Prelude.{
  ℕ, ◌+◌, ◌-◌, ◌%◌, ◌^◌, ◌<◌, ◌≡◌, refl, List, [], ◌∷◌, ◌++◌, arith, reverse, length, take, ap, ◌∙◌,
  All, append_assoc, append-nil, ◌==◌, if◌then◌else◌, take-length-append,
}
use mathlib.Core.List.{reverse-cons}
use doom_mc.Wire.Cursor.{
  Errno, at, done, bind_done, ◌>>=◌, read_bytes, read_bytes-append, to_size, to_size_small,
}
use doom_mc.Wire.VarInt.{write_var_int, read_var_int}
use doom_mc.Wire.VarInt.RoundTrip.{read-write_var_int}
use doom_mc.Wire.Strings.{
  trim_loop, write_string, read_string, write_byte_array, read_byte_array, read_strings,
  read_string_array, rounds,
}

-- The number of NUL bytes.
pub nuls : List ℕ → ℕ
nuls [] = 0
nuls (b ∷ bs) = nuls bs + (if b == 0 then 1 else 0)

nuls-append : (xs ys : List ℕ) → nuls (xs ++ ys) ≡ nuls xs + nuls ys
unfolding nuls
nuls-append [] ys = omega arith
nuls-append (x ∷ xs) ys = omega (arith, nuls-append xs ys)

nuls-reverse : (xs : List ℕ) → nuls (reverse xs) ≡ nuls xs
unfolding nuls
nuls-reverse [] = refl
nuls-reverse (x ∷ xs) =
    ap nuls (reverse-cons x xs) ∙ omega (arith, nuls-append (reverse xs) (x ∷ []), nuls-reverse xs)

trim_loop-nuls : (bs : List ℕ) (n : ℕ) → trim_loop bs n ≡ n - nuls bs
unfolding trim_loop nuls
trim_loop-nuls [] n = omega arith
trim_loop-nuls (b ∷ bs) n = ground (arith, trim_loop-nuls bs (if b == 0 then n - 1 else n))

-- Every NUL in the range costs one byte at the end: the count that goes out is that of the other
-- bytes, and as many bytes follow from the front.
write_string_lem :
    (s : List ℕ) → write_string s ≡ write_var_int (length s - nuls s) ++ take (length s - nuls s) s
unfolding write_string
write_string_lem s = rw (trim_loop-nuls (reverse s) (length s), nuls-reverse s)

nuls_none : (s : List ℕ) → All (λ b. 0 < b) s → nuls s ≡ 0
unfolding nuls
nuls_none [] h = refl
nuls_none (b ∷ bs) h = ground (arith, nuls_none bs h.1)

take_all : (s : List ℕ) → take (length s) s ≡ s
take_all s = rw append-nil at (take-length-append s [])

pub write_string_plain :
    (s : List ℕ) → All (λ b. 0 < b) s → write_string s ≡ write_var_int (length s) ++ s
write_string_plain s h =
    let keep : length s - nuls s ≡ length s = omega (arith, nuls_none s h) in
    write_string_lem s ∙ rw (keep, take_all s)

read_counted :
    (s rest : List ℕ) (e : Errno)
    → length s < 2 ^ 31
    → (read_var_int >>= λ n. read_bytes (to_size n))
        (at ((write_var_int (length s) ++ s) ++ rest) e)
      ≡ done s (at rest e)
read_counted s rest e short = rw append_assoc (
    bind_done read_var_int (λ n. read_bytes (to_size n))
      (read-write_var_int (length s) (s ++ rest) e (omega arith))
    ∙ read_bytes-append s rest (to_size (length s)) e (to_size_small (length s) short))

-- `readString` reads back what `writeString` wrote of a C string, and stops right behind it.
pub read-write_string :
    (s rest : List ℕ) (e : Errno)
    → All (λ b. 0 < b) s
    → length s < 2 ^ 31
    → read_string (at (write_string s ++ rest) e) ≡ done s (at rest e)
unfolding read_string
read-write_string s rest e h short = rw (write_string_plain s h) (read_counted s rest e short)

-- `readByteArray` reads back any bytes that `writeByteArray` wrote, zeros included.
read-write_byte_array :
    (arr rest : List ℕ) (e : Errno)
    → length arr < 2 ^ 31
    → read_byte_array (at (write_byte_array arr ++ rest) e) ≡ done arr (at rest e)
unfolding read_byte_array write_byte_array
read-write_byte_array arr rest e short =
    let fits : length arr % 2 ^ 32 ≡ length arr = omega arith in
    rw fits (read_counted arr rest e short)

-- The encodings of a row of strings.
abbrev pub strings_bytes : List (List ℕ) → List ℕ
strings_bytes [] = []
strings_bytes (s ∷ ss) = write_string s ++ strings_bytes ss

read_strings-bytes :
    (ss : List (List ℕ)) (rest : List ℕ) (e : Errno)
    → All (All (λ b. 0 < b)) ss
    → All (λ s. length s < 2 ^ 31) ss
    → read_strings (length ss) (at (strings_bytes ss ++ rest) e) ≡ done ss (at rest e)
unfolding read_strings
read_strings-bytes [] rest e h short = refl
read_strings-bytes (s ∷ ss) rest e h short = rw append_assoc (
    bind_done read_string _ (read-write_string s (strings_bytes ss ++ rest) e h.0 short.0)
    ∙ bind_done (read_strings (length ss)) _ (read_strings-bytes ss rest e h.1 short.1))

-- `readStringArray` reads back a count and that many strings.
read_string_array_lem :
    (ss : List (List ℕ)) (rest : List ℕ) (e : Errno)
    → All (All (λ b. 0 < b)) ss
    → All (λ s. length s < 2 ^ 31) ss
    → length ss < 2 ^ 31
    → read_string_array (at (write_var_int (length ss) ++ (strings_bytes ss ++ rest)) e)
      ≡ done ss (at rest e)
unfolding read_string_array
read_string_array_lem ss rest e h short few =
    let all_rounds : rounds (length ss) ≡ length ss = ground arith in
    bind_done read_var_int _
      (read-write_var_int (length ss) (strings_bytes ss ++ rest) e (omega arith))
    ∙ rw all_rounds (read_strings-bytes ss rest e h short)
