-- ===== src/Framing.antt =====
-- src/C/networkingMc.c and .h: the frames in which packets travel over a socket. What the system
-- and zlib do is given from outside: each call of `read` by its answer, zlib by a record.
pub mod Socket
pub mod Sending
pub mod HeaderLaws
pub mod Parsing
pub mod Frames
pub mod RoundTrip
pub mod Guards
use doom_mc.Prelude.{
  ℕ, ◌+◌, ◌-◌, ◌%◌, ◌^◌, ◌<◌, ◌≡◌, Bool, List, ◌++◌, Option, none, some, length, ltb, ◌==◌, ◌&&◌,
  if◌then◌else◌, replicate,
}
use doom_mc.Wire.Cursor.{clear, at, Outcome, done, fault, Reader, read_bytes}
use doom_mc.Wire.VarInt.{read_var_int}

-- An `int` is its 32-bit pattern: this is -1.
abbrev pub no_compression : ℕ
no_compression = 2 ^ 32 - 1

abbrev pub max_packet_id : ℕ
max_packet_id = 255

abbrev pub max_packet_size : ℕ
max_packet_size = 2097151

-- `a > b` for patterns `a` and a bound that is not negative.
abbrev pub exceeds : ℕ → ℕ → Bool
exceeds a bound = ltb a (2 ^ 31) && ltb bound a

-- `compression > NO_COMPRESSION`
abbrev pub is_compressed : ℕ → Bool
is_compressed compression = ltb compression (2 ^ 31)

-- The first argument of `compress` and `uncompress` is the room in the destination.
pub record Zlib : Type 0 where
  pub compress_bound : ℕ → ℕ
  pub compress : ℕ → List ℕ → Option (List ℕ)
  pub uncompress : ℕ → List ℕ → Option (List ℕ)

pub record Packet : Type 0 where
  pub size : ℕ
  pub packet_id : ℕ
  pub payload : List ℕ

-- Why `nullPacket` comes back.
pub data Reason : Type 0 where
  interrupted out_of_range no_memory not_inflated : Reason

pub data Parsed : Type 0 where
  parsed : Packet → Parsed
  refused : Reason → Parsed
  undefined : Parsed

-- `result.size -= 1; memcpy(result.data, data + index, result.size)` on the bytes from `index` on.
-- A size of -1 asks `memcpy` for nearly 2 ^ 64 bytes.
unfoldable pub copy_data : ℕ → Reader (List ℕ)
unfolding read_bytes
copy_data size c = if size == 0 then fault else read_bytes (size - 1) c

abbrev pub parsed_data : ℕ → ℕ → Outcome (List ℕ) → Parsed
parsed_data size packet_id (done bytes c) =
    parsed (record { size = size - 1; packet_id = packet_id % 256; payload = bytes })
parsed_data size packet_id fault = undefined

-- From `int32_t packetId = readVarInt(data, &index)` on.
abbrev pub parsed_id : ℕ → Outcome ℕ → Parsed
parsed_id size (done packet_id c) =
    if exceeds packet_id max_packet_id
    then refused out_of_range
    else parsed_data size packet_id (copy_data size c)
parsed_id size fault = undefined

-- The buffer has room for `dataLength` bytes and was zeroed; zlib fills `inflated` of them.
abbrev pub parsed_inflated : ℕ → Option (List ℕ) → Parsed
parsed_inflated data_length none = refused not_inflated
parsed_inflated data_length (some inflated) =
    parsed_id (length inflated)
      (read_var_int (at (inflated ++ replicate (data_length - length inflated) 0) clear))

-- From `uLongf dataLength = (uLongf)readVarInt(data, &index)` on. A negative count asks `calloc` for
-- nearly 2 ^ 64 bytes, and zlib is handed the NULL that comes back.
abbrev pub parsed_length : Zlib → Outcome ℕ → Parsed
parsed_length z (done data_length c) =
    if data_length == 0
    then parsed_id (length c.rest) (read_var_int c)
    else if ltb data_length (2 ^ 31)
    then parsed_inflated data_length (z.uncompress data_length c.rest)
    else undefined
parsed_length z fault = undefined

unfoldable pub parse_packet : Zlib → ℕ → List ℕ → Parsed
unfolding read_var_int copy_data
parse_packet z compression bytes =
    if is_compressed compression
    then parsed_length z (read_var_int (at bytes clear))
    else parsed_id (length bytes) (read_var_int (at bytes clear))
