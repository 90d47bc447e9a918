-- ===== src/Framing/RoundTrip.antt =====
-- What `sendPacket` puts on the wire, and that `readPacket` takes the packet out of it again.
use doom_mc.Prelude.{
  ℕ, suc, ◌+◌, ◌^◌, ◌≤◌, ◌<◌, ◌≡◌, refl, ◌≢◌, List, ◌∷◌, ◌++◌, map, arith, length, Option, some,
  dec_lt, length-append, ap, ◌∙◌, lt→ltb, ge→ltb,
}
use doom_mc.Wire.VarInt.{write_var_int}
use doom_mc.Framing.{Zlib, max_packet_size}
use doom_mc.Framing.Socket.{Answer, received, read_packet, parse_received, parse_body}
use doom_mc.Framing.Sending.{
  Sent, zlib_error, send_packet, send_plain, send_compressed, to_compress,
}
use doom_mc.Framing.Parsing.{write_short_id}
use doom_mc.Framing.HeaderLaws.{IsDelivery, one_byte, read_socket-IsDelivery}
use doom_mc.Framing.Frames.{
  IsLossless, wire, IsFrame, take_all, send_plain-IsFrame, send_stored-IsFrame,
  send_deflated-IsFrame,
}

-- Sent whole, unless zlib failed or the frame is too long for a reader.
IsSentWhole : Zlib → ℕ → ℕ → List ℕ → Sent → Type 0
IsSentWhole z compression i bytes sent =
    sent.result ≢ zlib_error
    → length (wire sent.buffers) ≤ max_packet_size
    → (body : List ℕ) × IsFrame z compression i bytes (wire sent.buffers) body

send_compressed-IsSentWhole :
    (z : Zlib) (compression i : ℕ) (bytes : List ℕ) (wrote : ℕ)
    → IsLossless z
    → compression < 2 ^ 31
    → i < 128
    → length bytes + 1 < 2 ^ 31
    → IsSentWhole z compression i bytes (send_compressed z compression (i ∷ bytes) (some wrote))
unfolding IsSentWhole
send_compressed-IsSentWhole z compression i bytes wrote lossless on h fits =
    elim (dec_lt compression (suc (length bytes))) [
      | yes over ↦
          rw (lt→ltb _ _ over)
            (send_deflated-IsFrame z compression i bytes _ wrote lossless on h fits refl)
      | no under ↦
          rw (ge→ltb compression (suc (length bytes)) (omega arith))
            (λ no_error small. (_, send_stored-IsFrame z compression i bytes wrote on h fits))
    ]

sent_compressed :
    (z : Zlib) (compression i : ℕ) (bytes : List ℕ) (answer : ℕ → Option ℕ)
    → compression < 2 ^ 31
    → i < 128
    → send_packet z (length bytes) i (some bytes) compression answer
      ≡ send_compressed z compression (i ∷ bytes) (answer 0)
unfolding send_packet
sent_compressed z compression i bytes answer on h =
    let head : to_compress (length bytes) i (some bytes) ≡ i ∷ bytes =
      rw (write_short_id i h, take_all bytes) refl in
    ground (arith, ap (λ (framed : List ℕ). send_compressed z compression framed (answer 0)) head)

sent_plain :
    (z : Zlib) (compression i : ℕ) (bytes : List ℕ) (answer : ℕ → Option ℕ)
    → 2 ^ 31 ≤ compression
    → send_packet z (length bytes) i (some bytes) compression answer
      ≡ send_plain (length bytes) i (some bytes) answer
unfolding send_packet
sent_plain z compression i bytes answer off = rw (ge→ltb _ _ off) refl

-- The packet is on the wire as a count and a body that `parsePacket` reads.
send_packet-IsSentWhole :
    (z : Zlib) (compression i : ℕ) (bytes : List ℕ) (wrote : ℕ → ℕ)
    → IsLossless z
    → i < 128
    → length bytes + 1 < 2 ^ 31
    → IsSentWhole z compression i bytes
        (send_packet z (length bytes) i (some bytes) compression (λ k. some (wrote k)))
unfolding IsSentWhole
send_packet-IsSentWhole z compression i bytes wrote lossless h fits =
    elim (dec_lt compression (2 ^ 31)) [
      | yes on ↦
          rw (sent_compressed z compression i bytes (λ k. some (wrote k)) on h)
            (send_compressed-IsSentWhole z compression i bytes (wrote 0) lossless on h fits)
      | no off ↦
          rw (sent_plain z compression i bytes (λ k. some (wrote k)) (omega arith))
            (λ no_error small.
              (_, send_plain-IsFrame z compression i bytes wrote (omega arith) h fits))
    ]

read_frame :
    (z : Zlib) (compression i : ℕ) (bytes written body : List ℕ) (answers more : List Answer)
    → length written ≤ max_packet_size
    → IsFrame z compression i bytes written body
    → IsDelivery body answers
    → read_packet z compression (map one_byte (write_var_int (length body)) ++ (answers ++ more))
      ≡ received (record { size = length bytes; packet_id = i; payload = bytes }) more
unfolding read_packet IsFrame
read_frame z compression i bytes written body answers more small (split, some_byte, reads) arrives =
    let total = ap length split ∙ length-append (write_var_int (length body)) body in
    ap (parse_received z compression)
      (read_socket-IsDelivery body answers more some_byte (omega arith) arrives)
    ∙ ap (λ p. parse_body p more) reads

-- The bytes that `sendPacket` writes for a packet with an id below 128, all its `write` calls
-- succeeding, are a count and a body; `readPacket` on the other side, with the same compression
-- setting, gets the same packet out of them, in whatever pieces the network delivers the body. That
-- holds with and without compression, provided that zlib loses nothing, `compress` succeeds and the
-- frame is no longer than 2097151 bytes.
pub read_packet-send_packet :
    (z : Zlib) (deliver : List ℕ → List Answer) (compression i : ℕ) (bytes : List ℕ) (wrote : ℕ → ℕ)
    (more : List Answer)
    → IsLossless z
    → ((body : List ℕ) → IsDelivery body (deliver body))
    → i < 128
    → length bytes + 1 < 2 ^ 31
    → (send_packet z (length bytes) i (some bytes) compression (λ k. some (wrote k))).result
      ≢ zlib_error
    → length (
        wire
          (send_packet z (length bytes) i (some bytes) compression (λ k. some (wrote k))).buffers)
      ≤ max_packet_size
    → (body : List ℕ) × (wire
          (send_packet z (length bytes) i (some bytes) compression (λ k. some (wrote k))).buffers
        ≡ write_var_int (length body) ++ body)
      × (read_packet z compression
            (map one_byte (write_var_int (length body)) ++ (deliver body ++ more))
          ≡ received (record { size = length bytes; packet_id = i; payload = bytes }) more)
unfolding IsSentWhole IsFrame
read_packet-send_packet z deliver compression i bytes wrote more lossless delivers h fits no_error
      small =
    let (body, frame) =
      send_packet-IsSentWhole z compression i bytes wrote lossless h fits no_error small in
    (
      body,
      frame.0,
      read_frame z compression i bytes _ body (deliver body) more small frame (delivers body),
    )
