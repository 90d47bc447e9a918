-- ===== src/Tests/FramingRuns.antt =====
-- The frames of src/C/networkingMc.c on concrete bytes.
use doom_mc.Prelude.{ℕ, ◌≤◌, ◌≡◌, refl, sym, ◌≢◌, arith, List, [], ◌∷◌, ◌++◌, length, map, some}
use doom_mc.Wire.VarInt.{write_var_int}
use doom_mc.Framing.{Zlib, no_compression, undefined, parse_packet, max_packet_size}
use doom_mc.Framing.Socket.{Answer, got, try_again, received, read_socket, read_packet}
use doom_mc.Framing.Sending.{send_packet, zlib_error}
use doom_mc.Framing.HeaderLaws.{IsDelivery, nothing, piece, retry, one_byte, read_socket-IsDelivery}
use doom_mc.Framing.Frames.{wire}
use doom_mc.Framing.RoundTrip.{read_packet-send_packet}
use doom_mc.Framing.Guards.{parse_packet_over_read}

-- A stand-in for zlib that packs nothing.
abbrev pub stored : Zlib
stored = record {
  compress_bound = λ n. n;
  compress = λ room bs. some bs;
  uncompress = λ room bs. some bs;
}

-- Every byte alone, each after a retry.
abbrev pub byte_by_byte : List ℕ → List Answer
byte_by_byte [] = []
byte_by_byte (b ∷ bs) = try_again ∷ got b [] ∷ byte_by_byte bs

pub byte_by_byte-IsDelivery : (bytes : List ℕ) → IsDelivery bytes (byte_by_byte bytes)
byte_by_byte-IsDelivery [] = nothing
byte_by_byte-IsDelivery (b ∷ bs) = retry (piece b [] refl (byte_by_byte-IsDelivery bs))

abbrev greeting : List ℕ
greeting = 5 ∷ 104 ∷ 101 ∷ 108 ∷ 108 ∷ 111 ∷ []

read_socket-IsDelivery_example :
    read_socket (map one_byte (write_var_int 6) ++ (byte_by_byte greeting ++ try_again ∷ []))
    ≡ received greeting (try_again ∷ [])
read_socket-IsDelivery_example =
    read_socket-IsDelivery greeting (byte_by_byte greeting) (try_again ∷ []) (omega arith)
      (omega arith) (byte_by_byte-IsDelivery greeting)

send_greeting :
    (send_packet stored 6 14 (some greeting) 4 (λ k. some 9)).buffers
    ≡ ((8 ∷ 7 ∷ 14 ∷ []) ++ greeting) ∷ []
unfolding send_packet write_var_int
send_greeting = refl

greeting_sent : (send_packet stored 6 14 (some greeting) 4 (λ k. some 9)).result ≢ zlib_error
unfolding send_packet write_var_int
greeting_sent e = cc

greeting_fits :
    length (wire (send_packet stored 6 14 (some greeting) 4 (λ k. some 9)).buffers)
    ≤ max_packet_size
greeting_fits = rw send_greeting (omega arith)

-- A connection that compresses packets of more than four bytes.
read_packet-send_packet_example :
    (body : List ℕ) × (wire (send_packet stored 6 14 (some greeting) 4 (λ k. some 9)).buffers
      ≡ write_var_int (length body) ++ body)
    × (read_packet stored 4
          (map one_byte (write_var_int (length body)) ++ (byte_by_byte body ++ try_again ∷ []))
        ≡ received (record { size = 6; packet_id = 14; payload = greeting }) (try_again ∷ []))
read_packet-send_packet_example =
    read_packet-send_packet stored byte_by_byte 4 14 greeting (λ k. 9) (try_again ∷ [])
      (λ bytes packed e. sym e) byte_by_byte-IsDelivery (omega arith) (omega arith) greeting_sent
      greeting_fits

parse_packet_over_read_example :
    parse_packet stored no_compression (write_var_int 200 ++ greeting) ≡ undefined
parse_packet_over_read_example =
    parse_packet_over_read stored no_compression 200 greeting (omega arith) (omega arith)
      (omega arith)
