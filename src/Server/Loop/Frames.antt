-- ===== src/Server/Loop/Frames.antt =====
-- `server::run` on the frames that a client sends: a handshake, and a frame of which a part is missing.
use doom_mc.Prelude.{
  ℕ, zero, suc, ◌+◌, ◌^◌, ◌≤◌, ◌<◌, ◌≡◌, ◌≢◌, refl, ◌⊎◌, inl, inr, false, List, [], ◌∷◌, ◌++◌, map,
  length, arith, ◌∙◌, ap, replicate, ==_ne, length-append,
}
use doom_mc.PacketIds.{handshake}
use doom_mc.Wire.VarInt.{IsU32, write_var_int}
use doom_mc.Wire.VarInt.Bounds.{write_var_int_shape}
use doom_mc.Framing.{Zlib, no_compression, max_packet_size}
use doom_mc.Framing.Socket.{
  Answer, try_again, Received, received, waiting, body_loop, read_body, read_socket, parse_body,
  parse_received, read_packet,
}
use doom_mc.Framing.HeaderLaws.{
  IsDelivery, nothing, piece, retry, one_byte, header_loop-write_var_int, body_loop_got,
  body_loop_retry, read_socket-IsDelivery,
}
use doom_mc.Framing
use doom_mc.Framing.Parsing.{parse_plain}
use doom_mc.Server.{Client, Server, returned, ◌then◌, none_number, play_number}
use doom_mc.Server.Joining.{Host}
use doom_mc.Server.Handling.{handle_packet}
use doom_mc.Server.Login.{handshake_bytes, handle_packet-handshake}
use doom_mc.Server.Loop.{
  PollEvent, readable, going, stuck, is_over, settle, serve_received, run_event, run,
  try_again_number,
}

stalled :
    (k size : ℕ) (input : List ℕ)
    → length input < size
    → body_loop (replicate k try_again) size input ≡ waiting
unfolding body_loop
stalled zero size input short = ground arith
stalled (suc k) size input short =
    body_loop_retry (replicate k try_again) size input short ∙ stalled k size input short

body_loop_short :
    {bytes : List ℕ} {answers : List Answer} (input : List ℕ) (k size : ℕ)
    → IsDelivery bytes answers
    → length input + length bytes < size
    → body_loop (answers ++ replicate k try_again) size input ≡ waiting
body_loop_short input k size nothing short = stalled k size input (omega arith)
body_loop_short input k size (piece b bs {rest = rest} {answers = answers} e later) short =
    let total = ap length e ∙ length-append (b ∷ bs) rest in
    body_loop_got b bs (answers ++ replicate k try_again) size input (omega arith)
    ∙ body_loop_short (input ++ b ∷ bs) k size later (omega (arith, length-append input (b ∷ bs)))
body_loop_short input k size (retry {b = b} {bs = bs} {answers = answers} later) short =
    body_loop_retry (answers ++ replicate k try_again) size input (omega arith)
    ∙ body_loop_short input k size later short

read_body_short :
    (size : ℕ) (answers : List Answer)
    → size ≤ max_packet_size
    → 0 < size
    → body_loop answers size [] ≡ waiting
    → read_body (received size answers) ≡ waiting
read_body_short size answers small pos h = ground (arith, h)

-- A client that announces a frame of up to 2097151 bytes and sends only a part of it stops the server
-- for everyone: `readSocket` calls `read` again and again, however often the answer is that there is
-- nothing yet, and the loop comes to no other event.
pub run_event-stuck :
    (h : Host) (z : Zlib) (c size k read_errno errno : ℕ) (bytes : List ℕ) (answers : List Answer)
    (es : List PollEvent) (s : Server)
    → size ≤ max_packet_size
    → length bytes < size
    → IsDelivery bytes answers
    → run h z
        (readable c
            (map one_byte (write_var_int size) ++ (answers ++ replicate k try_again))
            read_errno
            errno
          ∷ es)
        s
      ≡ stuck
unfolding run run_event read_packet read_socket
run_event-stuck h z c size k read_errno errno bytes answers es s small short part =
    let more = answers ++ replicate k try_again in
    let waits : read_packet z (s.clients c).compression (map one_byte (write_var_int size) ++ more)
        ≡ waiting =
      ap (λ (r : Received ℕ). parse_received z (s.clients c).compression (read_body r))
        (header_loop-write_var_int size more (omega arith))
      ∙ ap (parse_received z (s.clients c).compression) (
          read_body_short size more small (omega arith)
            (body_loop_short [] k size part (omega arith))) in
    rw (waits, run, run_event) refl

-- `errno` stops nothing: it is 0, or EAGAIN.
abbrev pub IsCalm : ℕ → Type 0
IsCalm errno = (errno ≡ 0) ⊎ (errno ≡ try_again_number)

not_over : (errno state : ℕ) → IsCalm errno → state ≢ play_number → is_over errno state ≡ false
not_over errno state (inl e) ne = rw (e, ==_ne state play_number ne) refl
not_over errno state (inr e) ne = rw (e, ==_ne state play_number ne) refl

served_calmly :
    (h : Host) (c read_errno errno : ℕ) (p : Framing.Packet) (more : List Answer) (s s' : Server)
    → handle_packet h c p.packet_id p.payload s ≡ returned s'
    → is_over errno (s'.clients c).state ≡ false
    → serve_received h c read_errno errno (received p more) s ≡ going s'
unfolding settle
served_calmly h c read_errno errno p more s s' handled stays =
    rw (handled, serve_received, ◌then◌, stays) refl

handshake_fits :
    (protocol next port_high port_low : ℕ) (address : List ℕ)
    → IsU32 protocol
    → IsU32 next
    → length address ≤ 2 ^ 20
    → length (handshake ∷ handshake_bytes protocol address port_high port_low next)
      ≤ max_packet_size
handshake_fits protocol next port_high port_low address protocol_fits next_fits short =
    let a = write_var_int protocol in
    let b = write_var_int (length address) in
    let t = address ++ port_high ∷ port_low ∷ [] in
    let n = write_var_int next in
    omega (
      arith,
      (write_var_int_shape protocol protocol_fits).2,
      (write_var_int_shape (length address) (omega arith)).2,
      (write_var_int_shape next next_fits).2,
      length-append address (port_high ∷ port_low ∷ []),
      length-append t n,
      length-append b (t ++ n),
      length-append a (b ++ (t ++ n)),
    )

-- From the bytes on the socket to the state of the client: a new client, not yet compressed, sends a
-- handshake in a frame, with an address of at most 2 ^ 20 bytes and a next state that is not PLAY_STATE.
-- The bytes of the count are there at once, the rest of the frame arrives in whatever pieces, and
-- `errno` is 0 or EAGAIN after the packet. Then the client has the protocol and the state of that
-- handshake, and the loop goes on with the same slots of clients, the same lobbies and nothing sent.
pub run_event-handshake :
    (h : Host) (z : Zlib) (c protocol next port_high port_low read_errno errno : ℕ)
    (address : List ℕ) (answers more : List Answer) (s : Server)
    → (s.clients c).state ≡ none_number
    → (s.clients c).compression ≡ no_compression
    → IsU32 protocol
    → IsU32 next
    → next ≢ play_number
    → length address ≤ 2 ^ 20
    → IsCalm errno
    → IsDelivery (handshake ∷ handshake_bytes protocol address port_high port_low next) answers
    → (s' : Server) × (run_event h z
          (readable c
            (map one_byte (
                write_var_int
                  (length (handshake ∷ handshake_bytes protocol address port_high port_low next)))
              ++ (answers ++ more))
            read_errno
            errno)
          s
        ≡ going s')
      × (s'.clients c ≡ record (s.clients c) { protocol = protocol; state = next })
      × (s'.connected ≡ s.connected)
      × (s'.lobbies ≡ s.lobbies)
      × (s'.sent ≡ s.sent)
unfolding run_event read_packet
run_event-handshake h z c protocol next port_high port_low read_errno errno address answers more s
      fresh plain protocol_fits next_fits not_play short calm arrives =
    let payload = handshake_bytes protocol address port_high port_low next in
    let (s', handled, client, table, halls, sent) =
      handle_packet-handshake h c protocol next port_high port_low address s fresh protocol_fits
        next_fits (omega arith) in
    let packet : Framing.Packet = record {
      size = length payload;
      packet_id = handshake;
      payload = payload;
    } in
    let read : read_packet z (s.clients c).compression
          (map one_byte (write_var_int (length (handshake ∷ payload))) ++ (answers ++ more))
        ≡ received packet more =
      ap (parse_received z (s.clients c).compression) (
        read_socket-IsDelivery (handshake ∷ payload) answers more (omega arith)
          (handshake_fits protocol next port_high port_low address protocol_fits next_fits short)
          arrives)
      ∙ ap (λ p. parse_body p more)
          (parse_plain z (s.clients c).compression handshake payload (omega (arith, plain))
            (omega arith)) in
    (
      s',
      ap (λ r. serve_received h c read_errno errno r s) read
          ∙ served_calmly h c read_errno errno packet more s s' handled (
              ap (λ (k : Client). is_over errno k.state) client
              ∙ not_over errno next calm not_play),
      client,
      table,
      halls,
      sent,
    )
