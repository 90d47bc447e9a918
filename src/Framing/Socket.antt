-- ===== src/Framing/Socket.antt =====
-- `readSocket` and `readPacket`. The list holds what the calls of `read` on the socket answer, in
-- order; when it is empty, the next call blocks.
use doom_mc.Prelude.{ℕ, suc, ◌+◌, ◌^◌, List, [], ◌∷◌, ◌++◌, length, ltb, leb, ◌==◌, if◌then◌else◌}
use doom_mc.Wire.VarInt.{continue_bit, or_segment}
use doom_mc.Prelude.{bit_and}
use doom_mc.Framing.{
  Zlib, Packet, Reason, interrupted, out_of_range, no_memory, Parsed, parsed, parse_packet,
  max_packet_size, exceeds,
}

-- `got b bs` is a positive result; `try_again` is EAGAIN or EWOULDBLOCK, `closed` a result of 0 and
-- `failed` any other error.
pub data Answer : Type 0 where
  got : ℕ → List ℕ → Answer
  try_again closed failed : Answer

-- `undefined` is a shift by the width of an `int` or more, or more bytes than the call had room for.
pub data Received {ℓ} (A : Type ℓ) : Type ℓ where
  received : A → List Answer → Received A
  dropped : Reason → List Answer → Received A
  waiting : Received A
  undefined : Received A

-- The loop that reads the size of the frame, a byte at a time.
unfoldable pub header_loop : List Answer → ℕ → ℕ → Received ℕ
header_loop [] size position = waiting
header_loop (got b [] ∷ more) size position =
    let again = header_loop more (or_segment size b position) (position + 7) in
    if leb 32 position
    then undefined
    else if bit_and b continue_bit == 0
    then received (or_segment size b position) more
    else again
header_loop (got b (b' ∷ bs) ∷ more) size position = undefined
header_loop (try_again ∷ more) size position = dropped interrupted more
header_loop (closed ∷ more) size position = dropped interrupted more
header_loop (failed ∷ more) size position = dropped interrupted more

-- `while(nRead < size)`: `input` is what has been read.
unfoldable pub body_loop : List Answer → ℕ → List ℕ → Received (List ℕ)
body_loop [] size input = if ltb (length input) size then waiting else received input []
body_loop (got b bs ∷ more) size input =
    let next = body_loop more size (input ++ b ∷ bs) in
    if ltb (length input) size
    then if leb (length input + suc (length bs)) size then next else undefined
    else received input (got b bs ∷ more)
body_loop (try_again ∷ more) size input =
    let next = body_loop more size input in
    if ltb (length input) size then next else received input (try_again ∷ more)
body_loop (closed ∷ more) size input =
    if ltb (length input) size then dropped interrupted more else received input (closed ∷ more)
body_loop (failed ∷ more) size input =
    if ltb (length input) size then dropped interrupted more else received input (failed ∷ more)

-- From `if(size == 0 || size > MAX_PACKET_SIZE)` on. A negative size passes the guard, and `calloc`
-- has no room for it.
abbrev pub read_body : Received ℕ → Received (List ℕ)
read_body (received size more) =
    if size == 0
    then dropped out_of_range more
    else if exceeds size max_packet_size
    then dropped out_of_range more
    else if ltb size (2 ^ 31)
    then body_loop more size []
    else dropped no_memory more
read_body (dropped reason more) = dropped reason more
read_body waiting = waiting
read_body undefined = undefined

unfoldable pub read_socket : List Answer → Received (List ℕ)
unfolding header_loop body_loop
read_socket answers = read_body (header_loop answers 0 0)

abbrev pub parse_body : Parsed → List Answer → Received Packet
parse_body (parsed p) more = received p more
parse_body (Parsed.refused reason) more = dropped reason more
parse_body Parsed.undefined more = undefined

abbrev pub parse_received : Zlib → ℕ → Received (List ℕ) → Received Packet
parse_received z compression (received bytes more) =
    parse_body (parse_packet z compression bytes) more
parse_received z compression (dropped reason more) = dropped reason more
parse_received z compression waiting = waiting
parse_received z compression undefined = undefined

unfoldable pub read_packet : Zlib → ℕ → List Answer → Received Packet
unfolding parse_packet read_socket
read_packet z compression answers = parse_received z compression (read_socket answers)
