-- ===== src/Wire/Cursor.antt =====
-- Reading from a buffer. `buff` and `*index` of the C readers are one value here, the bytes from
-- `*index` on, beside `errno`. A read past the last byte, which C leaves undefined, is `fault`.
use doom_mc.Prelude.{
  ℕ, ◌+◌, ◌-◌, ◌^◌, ◌<◌, ◌≡◌, List, ◌++◌, arith, ltb, leb, if◌then◌else◌, length, take, drop,
  length-append, take-length-append, drop-length-append,
}

pub data Errno : Type 0 where
  clear overflow too_big : Errno

pub record Cursor : Type 0 where
  pub rest : List ℕ
  pub errno : Errno

abbrev pub at : List ℕ → Errno → Cursor
at bytes e = record { rest = bytes; errno = e }

pub data Outcome {ℓ} (A : Type ℓ) : Type ℓ where
  done : A → Cursor → Outcome A
  fault : Outcome A

abbrev pub Reader {ℓ} : Type ℓ → Type ℓ
Reader A = Cursor → Outcome A

infixl 5 ◌>>=◌
abbrev pub ◌>>=◌ {ℓ κ} : {A : Type ℓ} {B : Type κ} → Reader A → (A → Reader B) → Reader B
◌>>=◌ m f c = elim (m c) [ done a c' ↦ f a c' | fault ↦ fault ]

abbrev pub pure {ℓ} : {A : Type ℓ} → A → Reader A
pure a c = done a c

abbrev pub map_reader {ℓ κ} : {A : Type ℓ} {B : Type κ} → (A → B) → Reader A → Reader B
map_reader f m c = elim (m c) [ done a c' ↦ done (f a) c' | fault ↦ fault ]

-- `memcpy(result, buff + *index, n); *index += n;`
unfoldable pub read_bytes : ℕ → Reader (List ℕ)
read_bytes n c =
    if leb n (length c.rest)
    then done (take n c.rest) (record c { rest = drop n c.rest })
    else fault

-- An `int` that C converts to `size_t`: its bit pattern, extended by its sign.
unfoldable pub to_size : ℕ → ℕ
to_size v = if ltb v (2 ^ 31) then v else v + (2 ^ 64 - 2 ^ 32)

pub read_bytes-append :
    (xs ys : List ℕ) (n : ℕ) (e : Errno)
    → n ≡ length xs
    → read_bytes n (at (xs ++ ys) e) ≡ done xs (at ys e)
unfolding read_bytes
read_bytes-append xs ys n e h =
    ground (arith, length-append xs ys, take-length-append xs ys, drop-length-append xs ys)

pub read_bytes_short : (n : ℕ) (c : Cursor) → length c.rest < n → read_bytes n c ≡ fault
unfolding read_bytes
read_bytes_short n c h = ground arith

pub to_size_small : (v : ℕ) → v < 2 ^ 31 → to_size v ≡ v
unfolding to_size
to_size_small v h = ground arith

-- The first step of a `do` block, once its outcome is known.
pub bind_done {ℓ κ} :
    {A : Type ℓ} {B : Type κ} (m : Reader A) (f : A → Reader B) {c c' : Cursor} {a : A}
    → m c ≡ done a c'
    → (m >>= f) c ≡ f a c'
bind_done m f h = rw (h, ◌>>=◌)
