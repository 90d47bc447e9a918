-- ===== src/Framing/Guards.antt =====
-- What `readSocket` and `parsePacket` refuse, and what they do not guard against.
use doom_mc.Prelude.{
  ℕ, suc, ◌+◌, ◌*◌, ◌/◌, ◌%◌, ◌^◌, ◌≤◌, ◌<◌, ◌≡◌, refl, ◌⊎◌, List, [], ◌∷◌, ◌++◌, Bool, true, false,
  map, arith, length, All, ap, ◌∙◌, lt_wf,
}
use doom_mc.Wire.Cursor.{at, clear, read_bytes_short}
use doom_mc.Wire.VarInt.{or_segment, IsByte, read_var_int, write_var_int}
use doom_mc.Wire.VarInt.RoundTrip.{read-write_var_int, and_continue, write_more, write_last}
use doom_mc.Framing.{
  Zlib, undefined, out_of_range, interrupted, copy_data, parsed_id, parse_packet, max_packet_size,
  max_packet_id,
}
use doom_mc.Framing.Socket.{
  Answer, got, try_again, closed, failed, dropped, header_loop, read_body, read_socket,
}
use doom_mc.Framing.HeaderLaws.{one_byte, header_loop-write_var_int}

-- A count of 0, or of more than 2097151 bytes, is refused right behind the count: nothing of the
-- frame is read.
read_socket_refuses :
    (size : ℕ) (more : List Answer)
    → (size ≡ 0) ⊎ (max_packet_size < size)
    → size < 2 ^ 31
    → read_socket (map one_byte (write_var_int size) ++ more) ≡ dropped out_of_range more
unfolding read_socket
read_socket_refuses size more bad h =
    ap read_body (header_loop-write_var_int size more (omega arith)) ∙ ground arith

-- An answer that carries no bytes.
abbrev pub is_stop : Answer → Bool
is_stop (got b bs) = false
is_stop try_again = true
is_stop closed = true
is_stop failed = true

header_loop_stopped :
    (bs : List ℕ) (stop : Answer) (more : List Answer) (size position : ℕ)
    → All (λ b. (128 ≤ b) × IsByte b) bs
    → is_stop stop ≡ true
    → position + 7 * length bs < 32
    → header_loop (map one_byte bs ++ (stop ∷ more)) size position ≡ dropped interrupted more
unfolding header_loop
header_loop_stopped [] (got b bs) more size position high h early = cc
header_loop_stopped [] try_again more size position high h early = refl
header_loop_stopped [] closed more size position high h early = refl
header_loop_stopped [] failed more size position high h early = refl
header_loop_stopped (b ∷ bs) stop more size position ((big, byte), high) h early =
    let later =
      header_loop_stopped bs stop more (or_segment size b position) (position + 7) high h
        (omega arith) in
    ground (arith, and_continue b byte, later)

-- When the bytes of a count stop coming before the last one, be it only for a retry on a socket that
-- does not block, `readSocket` gives up, and the bytes of the count that it has read are lost: the
-- next call starts with the byte behind them.
pub read_socket_loses_count :
    (bs : List ℕ) (stop : Answer) (more : List Answer)
    → All (λ b. (128 ≤ b) × IsByte b) bs
    → is_stop stop ≡ true
    → length bs ≤ 4
    → read_socket (map one_byte bs ++ (stop ∷ more)) ≡ dropped interrupted more
unfolding read_socket
read_socket_loses_count bs stop more high h few =
    ap read_body (header_loop_stopped bs stop more 0 0 high h (omega arith))

write_long_id :
    (i : ℕ) → 128 ≤ i → i ≤ max_packet_id → write_var_int i ≡ (i % 128 + 128) ∷ (i / 128) ∷ []
unfolding write_var_int
write_long_id i low high =
    let (w, shape) = write_more i (lt_wf.apply i) (omega arith) low in
    shape ∙ ap (λ t. (i % 128 + 128) ∷ t) (write_last (i / 128) w (omega arith))

parsed_id_long :
    (i : ℕ) (bytes : List ℕ)
    → i ≤ max_packet_id
    → parsed_id (suc (suc (length bytes))) (read_var_int (at (write_var_int i ++ bytes) clear))
      ≡ undefined
unfolding copy_data
parsed_id_long i bytes high =
    ap (parsed_id (suc (suc (length bytes)))) (read-write_var_int i bytes clear (omega arith))
    ∙ ground (arith, read_bytes_short (suc (length bytes)) (at bytes clear))

-- An id of 128 to 255 is a valid one for `parsePacket`, and takes two bytes on the wire. The size of
-- the data is nevertheless counted from behind the first of them, so that without compression the
-- copy reads one byte past the end of every such frame.
pub parse_packet_over_read :
    (z : Zlib) (compression i : ℕ) (bytes : List ℕ)
    → 2 ^ 31 ≤ compression
    → 128 ≤ i
    → i ≤ max_packet_id
    → parse_packet z compression (write_var_int i ++ bytes) ≡ undefined
unfolding parse_packet
parse_packet_over_read z compression i bytes off low high =
    let size : length (write_var_int i ++ bytes) ≡ suc (suc (length bytes)) =
      ap (λ (t : List ℕ). length (t ++ bytes)) (write_long_id i low high) in
    ground (arith, rw (← size) at (parsed_id_long i bytes high))
