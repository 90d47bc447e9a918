-- ===== src/Framing/Frames.antt =====
-- The frames that `sendPacket` puts on the wire, with and without compression.
use doom_mc.Prelude.{
  ℕ, suc, ◌+◌, ◌%◌, ◌^◌, ◌≤◌, ◌<◌, ◌≡◌, refl, ◌≢◌, List, [], ◌∷◌, ◌++◌, arith, length, take, Option,
  none, some, append-nil, append_assoc, length-append, take-length-append,
}
use doom_mc.Wire.VarInt.{write_var_int}
use doom_mc.Wire.VarInt.Bounds.{write_var_int_shape}
use doom_mc.Framing.{Zlib, parsed, parse_packet, max_packet_size}
use doom_mc.Framing.Sending.{zlib_error, send_plain, send_deflated, send_frame}
use doom_mc.Framing.Parsing.{write_short_id, parse_plain, parse_stored, parse_packed}

-- zlib's promise: what `compress` packs, `uncompress` unpacks when there is room for all of it.
abbrev pub IsLossless : Zlib → Type 0
IsLossless z =
    (bytes packed : List ℕ)
    → z.compress (z.compress_bound (length bytes)) bytes ≡ some packed
    → z.uncompress (length bytes) packed ≡ some bytes

-- What went over the wire.
abbrev pub wire : List (List ℕ) → List ℕ
wire [] = []
wire (b ∷ bs) = b ++ wire bs

-- A frame that `sendPacket` wrote: the body behind its count, and the packet that is in the body.
unfoldable pub IsFrame : Zlib → ℕ → ℕ → List ℕ → List ℕ → List ℕ → Type 0
IsFrame z compression i bytes written body =
    (written ≡ write_var_int (length body) ++ body)
    × (1 ≤ length body)
    × (parse_packet z compression body
        ≡ parsed (record { size = length bytes; packet_id = i; payload = bytes }))

pub take_all : (bytes : List ℕ) → take (length bytes) bytes ≡ bytes
take_all bytes = rw append-nil at (take-length-append bytes [])

plain_count :
    (i : ℕ) (bytes : List ℕ)
    → i < 128
    → length bytes + 1 < 2 ^ 31
    → (length bytes + length (write_var_int i)) % 2 ^ 32 ≡ suc (length bytes)
plain_count i bytes h fits = rw (write_short_id i h) (omega arith)

pub send_plain-IsFrame :
    (z : Zlib) (compression i : ℕ) (bytes : List ℕ) (wrote : ℕ → ℕ)
    → 2 ^ 31 ≤ compression
    → i < 128
    → length bytes + 1 < 2 ^ 31
    → IsFrame z compression i bytes
        (wire (send_plain (length bytes) i (some bytes) (λ k. some (wrote k))).buffers)
        (i ∷ bytes)
unfolding IsFrame
send_plain-IsFrame z compression i bytes wrote off h fits = (
  rw (plain_count i bytes h fits, take_all bytes, write_short_id i h, append-nil) refl,
  omega arith,
  parse_plain z compression i bytes off h,
)

framed :
    (z : Zlib) (compression i n : ℕ) (bytes packed : List ℕ) (wrote : ℕ)
    → n < 2 ^ 32
    → length packed + length (write_var_int n) < 2 ^ 32
    → parse_packet z compression (write_var_int n ++ packed)
      ≡ parsed (record { size = length bytes; packet_id = i; payload = bytes })
    → IsFrame z compression i bytes
        (wire (send_frame n packed (some wrote)).buffers)
        (write_var_int n ++ packed)
unfolding IsFrame
framed z compression i n bytes packed wrote h fits reads =
    let total = length-append (write_var_int n) packed in
    let count : (length packed + length (write_var_int n)) % 2 ^ 32
        ≡ length (write_var_int n ++ packed) =
      omega arith in
    (rw (count, append-nil, append_assoc) refl, omega (arith, (write_var_int_shape n h).1), reads)

pub send_stored-IsFrame :
    (z : Zlib) (compression i : ℕ) (bytes : List ℕ) (wrote : ℕ)
    → compression < 2 ^ 31
    → i < 128
    → length bytes + 1 < 2 ^ 31
    → IsFrame z compression i bytes
        (wire (send_frame 0 (i ∷ bytes) (some wrote)).buffers)
        (write_var_int 0 ++ i ∷ bytes)
send_stored-IsFrame z compression i bytes wrote on h fits =
    framed z compression i 0 bytes (i ∷ bytes) wrote (omega arith)
      (omega (arith, (write_var_int_shape 0 (omega arith)).2))
      (parse_stored z compression i bytes on h)

length_packed :
    (n : ℕ) (packed : List ℕ) (wrote : ℕ)
    → length packed ≤ length (wire (send_frame n packed (some wrote)).buffers)
length_packed n packed wrote =
    let head = write_var_int ((length packed + length (write_var_int n)) % 2 ^ 32) in
    omega (
      arith,
      length-append (head ++ write_var_int n ++ packed) [],
      length-append (head ++ write_var_int n) packed,
    )

pub send_deflated-IsFrame :
    (z : Zlib) (compression i : ℕ) (bytes : List ℕ) (packed? : Option (List ℕ)) (wrote : ℕ)
    → IsLossless z
    → compression < 2 ^ 31
    → i < 128
    → length bytes + 1 < 2 ^ 31
    → z.compress (z.compress_bound (suc (length bytes))) (i ∷ bytes) ≡ packed?
    → (send_deflated (suc (length bytes)) packed? (some wrote)).result ≢ zlib_error
    → length (wire (send_deflated (suc (length bytes)) packed? (some wrote)).buffers)
      ≤ max_packet_size
    → (body : List ℕ) × IsFrame z compression i bytes
        (wire (send_deflated (suc (length bytes)) packed? (some wrote)).buffers)
        body
send_deflated-IsFrame z compression i bytes none wrote lossless on h fits e no_error small =
    absurd (no_error refl)
send_deflated-IsFrame z compression i bytes (some packed) wrote lossless on h fits e no_error
      small =
    let bound = length_packed (suc (length bytes)) packed wrote in
    let few = (write_var_int_shape (suc (length bytes)) (omega arith)).2 in
    (
      write_var_int (suc (length bytes)) ++ packed,
      framed z compression i (suc (length bytes)) bytes packed wrote (omega arith) (omega arith)
          (parse_packed z compression i bytes packed on h fits (lossless (i ∷ bytes) packed e)),
    )
