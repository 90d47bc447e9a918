-- ===== src/Framing/HeaderLaws.antt =====
-- The loop that reads a frame's size against `readVarInt`, and a whole frame that arrives in pieces.
use doom_mc.Prelude.{
  ℕ, suc, ◌+◌, ◌^◌, ◌≤◌, ◌<◌, ◌≡◌, refl, ◌≢◌, List, [], ◌∷◌, ◌++◌, map, arith, length, bit_and,
  ℕ_discrete, dec_lt, append-nil, append_assoc, length-append, ap, ◌∙◌, sym,
}
use doom_mc.Wire.Cursor.{at, clear, overflow, done, Cursor, Errno}
use doom_mc.Wire.VarInt.{
  continue_bit, int32_max, max_var_int, or_segment, read_loop, read_var_int, write_var_int,
}
use doom_mc.Wire.VarInt.RoundTrip.{read-write_var_int}
use doom_mc.Framing.{max_packet_size}
use doom_mc.Framing.Socket.{
  Answer, got, try_again, closed, failed, received, header_loop, body_loop, read_body, read_socket,
}

-- A read of one byte.
abbrev pub one_byte : ℕ → Answer
one_byte b = got b []

-- The answers that deliver some bytes: pieces of any sizes, with any number of retries before each.
pub data IsDelivery : List ℕ → List Answer → Type 0 where
  nothing : IsDelivery [] []
  piece :
      (b : ℕ) (bs : List ℕ) {bytes rest : List ℕ} {answers : List Answer}
      → bytes ≡ b ∷ bs ++ rest
      → IsDelivery rest answers
      → IsDelivery bytes (got b bs ∷ answers)
  retry :
      {b : ℕ} {bs : List ℕ} {answers : List Answer}
      → IsDelivery (b ∷ bs) answers
      → IsDelivery (b ∷ bs) (try_again ∷ answers)

read_loop_last :
    (b size position taken : ℕ) (bs : List ℕ) (e : Errno)
    → bit_and b continue_bit ≡ 0
    → read_loop (b ∷ bs) size position taken e ≡ done (or_segment size b position) (at bs e)
unfolding read_loop
read_loop_last b size position taken bs e h = ground arith

read_loop_overflow :
    (b size position taken : ℕ) (bs : List ℕ) (e : Errno)
    → bit_and b continue_bit ≢ 0
    → ¬ (position + 7 < 32)
    → read_loop (b ∷ bs) size position taken e ≡ done int32_max (at bs overflow)
unfolding read_loop
read_loop_overflow b size position taken bs e h late = ground arith

read_loop_long :
    (b size position taken : ℕ) (bs : List ℕ) (e : Errno)
    → bit_and b continue_bit ≢ 0
    → max_var_int < taken + 1
    → read_loop (b ∷ bs) size position taken e ≡ done int32_max (at bs overflow)
unfolding read_loop
read_loop_long b size position taken bs e h long = ground arith

read_loop_more :
    (b size position taken : ℕ) (bs : List ℕ) (e : Errno)
    → bit_and b continue_bit ≢ 0
    → position + 7 < 32
    → taken < max_var_int
    → read_loop (b ∷ bs) size position taken e
      ≡ read_loop bs (or_segment size b position) (position + 7) (taken + 1) e
unfolding read_loop
read_loop_more b size position taken bs e h early few = ground arith

not_overflow :
    {v v' : ℕ} {rest rest' : List ℕ} → ¬ (done v (at rest overflow) ≡ done v' (at rest' clear))
not_overflow h = cc

header_last :
    (b size position : ℕ) (more : List Answer)
    → position < 32
    → bit_and b continue_bit ≡ 0
    → header_loop (one_byte b ∷ more) size position ≡ received (or_segment size b position) more
unfolding header_loop
header_last b size position more early h = ground arith

header_more :
    (b size position : ℕ) (more : List Answer)
    → position < 32
    → bit_and b continue_bit ≢ 0
    → header_loop (one_byte b ∷ more) size position
      ≡ header_loop more (or_segment size b position) (position + 7)
unfolding header_loop
header_more b size position more early h = ground arith

done_value : {v v' : ℕ} {c c' : Cursor} → done v c ≡ done v' c' → (v ≡ v') × (c ≡ c')
done_value h = (cc, cc)

-- Wherever `readVarInt` reads a number without an overflow, the loop of `readSocket` reads the same
-- number and stops behind the same byte.
pub header_loop-read_loop :
    (bs : List ℕ) (size position taken v : ℕ) (rest : List ℕ) (more : List Answer)
    → position < 32
    → taken ≤ max_var_int
    → read_loop bs size position taken clear ≡ done v (at rest clear)
    → header_loop (map one_byte bs ++ more) size position ≡ received v (map one_byte rest ++ more)
unfolding read_loop
header_loop-read_loop [] size position taken v rest more early few h = cc
header_loop-read_loop (b ∷ bs) size position taken v rest more early few h =
    elim (ℕ_discrete (bit_and b continue_bit) 0) [
      | yes last ↦
          let (e, e') = done_value (sym (read_loop_last b size position taken bs clear last) ∙ h) in
          header_last b size position _ early last ∙ rw (e, ap (λ (c : Cursor). c.rest) e') refl
      | no long ↦ elim (dec_lt (position + 7) 32) [
        | no late ↦
            elim (not_overflow
              (sym (read_loop_overflow b size position taken bs clear long late) ∙ h)) [ ]
        | yes room ↦ elim (dec_lt taken max_var_int) [
          | no many ↦
              elim (not_overflow
                (sym (read_loop_long b size position taken bs clear long (omega arith)) ∙ h)) [ ]
          | yes left ↦
              header_more b size position _ early long
              ∙ header_loop-read_loop bs (or_segment size b position) (position + 7) (taken + 1) v
                  rest more room (omega arith)
                  (sym (read_loop_more b size position taken bs clear long room left) ∙ h)
        ]
      ]
    ]

-- The count of a frame of any length comes in a byte at a time.
pub header_loop-write_var_int :
    (v : ℕ) (more : List Answer)
    → v < 2 ^ 32
    → header_loop (map one_byte (write_var_int v) ++ more) 0 0 ≡ received v more
unfolding read_var_int
header_loop-write_var_int v more h =
    header_loop-read_loop (write_var_int v) 0 0 0 v [] more (omega arith) (omega arith)
      (rw append-nil at (read-write_var_int v [] clear h))

body_loop_full :
    (more : List Answer) (size : ℕ) (input : List ℕ)
    → size ≡ length input
    → body_loop more size input ≡ received input more
unfolding body_loop
body_loop_full [] size input h = ground arith
body_loop_full (got b bs ∷ more) size input h = ground arith
body_loop_full (try_again ∷ more) size input h = ground arith
body_loop_full (closed ∷ more) size input h = ground arith
body_loop_full (failed ∷ more) size input h = ground arith

pub body_loop_got :
    (b : ℕ) (bs : List ℕ) (more : List Answer) (size : ℕ) (input : List ℕ)
    → length input + suc (length bs) ≤ size
    → body_loop (got b bs ∷ more) size input ≡ body_loop more size (input ++ b ∷ bs)
unfolding body_loop
body_loop_got b bs more size input h = ground arith

pub body_loop_retry :
    (more : List Answer) (size : ℕ) (input : List ℕ)
    → length input < size
    → body_loop (try_again ∷ more) size input ≡ body_loop more size input
unfolding body_loop
body_loop_retry more size input h = ground arith

body_loop-IsDelivery :
    {bytes : List ℕ} {answers : List Answer} (input : List ℕ) (more : List Answer) (size : ℕ)
    → IsDelivery bytes answers
    → size ≡ length input + length bytes
    → body_loop (answers ++ more) size input ≡ received (input ++ bytes) more
body_loop-IsDelivery input more size nothing h =
    rw append-nil (body_loop_full more size input (omega (arith, h)))
body_loop-IsDelivery input more size (piece b bs {rest = rest} {answers = answers} e later) h =
    let total = ap length e ∙ length-append (b ∷ bs) rest in
    body_loop_got b bs (answers ++ more) size input (omega arith)
    ∙ body_loop-IsDelivery (input ++ b ∷ bs) more size later
        (omega (arith, length-append input (b ∷ bs)))
    ∙ rw (e, append_assoc) refl
body_loop-IsDelivery input more size (retry {b = b} {bs = bs} {answers = answers} later) h =
    body_loop_retry (answers ++ more) size input (omega arith)
    ∙ body_loop-IsDelivery input more size later h

-- `readSocket` waits for a frame of 1 to 2097151 bytes to arrive and returns all of it, in whatever
-- pieces the bytes behind the count come and however often a read of them has to be tried again. It
-- leaves what follows the frame in the socket.
pub read_socket-IsDelivery :
    (body : List ℕ) (answers more : List Answer)
    → 1 ≤ length body
    → length body ≤ max_packet_size
    → IsDelivery body answers
    → read_socket (map one_byte (write_var_int (length body)) ++ (answers ++ more))
      ≡ received body more
unfolding read_socket
read_socket-IsDelivery body answers more some_byte small arrives =
    ap read_body (header_loop-write_var_int (length body) (answers ++ more) (omega arith))
    ∙ ground (arith, body_loop-IsDelivery [] more (length body) arrives (omega arith))
