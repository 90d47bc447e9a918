-- ===== src/Framing/Sending.antt =====
-- `sendPacket`. A function gives what its calls of `write` answer, in order, `none` for -1.
use doom_mc.Prelude.{
  ℕ, ◌+◌, ◌%◌, ◌^◌, List, [], ◌∷◌, ◌++◌, Option, none, some, length, take, ltb, if◌then◌else◌,
}
use doom_mc.Wire.VarInt.{write_var_int}
use doom_mc.Framing.{Zlib, is_compressed}

-- The buffers handed to `write`, in order, and the result: a count, -1, or -2 for zlib's error.
pub data SendResult : Type 0 where
  count : ℕ → SendResult
  system_error zlib_error : SendResult

pub record Sent : Type 0 where
  pub buffers : List (List ℕ)
  pub result : SendResult

abbrev pub last_write : List (List ℕ) → Option ℕ → Sent
last_write buffers none = record { buffers = buffers; result = system_error }
last_write buffers (some n) = record { buffers = buffers; result = count n }

-- Both `write` calls of the condition, then the one of the data.
abbrev pub send_plain : ℕ → ℕ → Option (List ℕ) → (ℕ → Option ℕ) → Sent
send_plain size packet_id data? answer =
    let p = write_var_int packet_id in
    let s = write_var_int ((size + length p) % 2 ^ 32) in
    elim (answer 0) [
      | none ↦ record { buffers = s ∷ []; result = system_error }
      | some _ ↦ elim (answer 1) [
        | none ↦ record { buffers = s ∷ p ∷ []; result = system_error }
        | some _ ↦ elim data? [
          | none ↦ record { buffers = s ∷ p ∷ []; result = count (length s + 1) }
          | some bytes ↦ last_write (s ∷ p ∷ take size bytes ∷ []) (answer 2)
        ]
      ]
    ]

-- The single `write` of a compressed connection.
abbrev pub send_frame : ℕ → List ℕ → Option ℕ → Sent
send_frame data_length packed result =
    let l = write_var_int data_length in
    last_write ((write_var_int ((length packed + length l) % 2 ^ 32) ++ l ++ packed) ∷ []) result

abbrev pub send_deflated : ℕ → Option (List ℕ) → Option ℕ → Sent
send_deflated data_length none result = record { buffers = []; result = zlib_error }
send_deflated data_length (some packed) result = send_frame data_length packed result

-- The bytes that are framed on a compressed connection: `packetId` as a VarInt, then the data.
abbrev pub to_compress : ℕ → ℕ → Option (List ℕ) → List ℕ
to_compress size packet_id none = write_var_int packet_id
to_compress size packet_id (some bytes) = write_var_int packet_id ++ take size bytes

abbrev pub send_compressed : Zlib → ℕ → List ℕ → Option ℕ → Sent
send_compressed z compression bytes result =
    if ltb compression (length bytes)
    then send_deflated (length bytes) (z.compress (z.compress_bound (length bytes)) bytes) result
    else send_frame 0 bytes result

-- `data?` is `none` for NULL, which goes with a size of 0; else it holds `size` bytes at least.
unfoldable pub send_packet : Zlib → ℕ → ℕ → Option (List ℕ) → ℕ → (ℕ → Option ℕ) → Sent
unfolding write_var_int
send_packet z size packet_id data? compression answer =
    if is_compressed compression
    then send_compressed z compression (to_compress size packet_id data?) (answer 0)
    else send_plain size packet_id data? answer
