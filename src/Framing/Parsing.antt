-- ===== src/Framing/Parsing.antt =====
-- `parsePacket` on the frames that `sendPacket` builds.
use doom_mc.Prelude.{
  ℕ, suc, ◌+◌, ◌-◌, ◌^◌, ◌≤◌, ◌<◌, ◌≡◌, refl, List, [], ◌∷◌, ◌++◌, arith, length, some, append-nil,
  ap, ◌∙◌, lt_wf,
}
use doom_mc.Wire.Cursor.{at, clear, done, read_bytes-append}
use doom_mc.Wire.VarInt.{read_var_int, write_var_int}
use doom_mc.Wire.VarInt.RoundTrip.{read-write_var_int, write_last}
use doom_mc.Framing.{
  Zlib, parsed, copy_data, parsed_id, parsed_inflated, parsed_length, parse_packet,
}

pub write_short_id : (i : ℕ) → i < 128 → write_var_int i ≡ i ∷ []
unfolding write_var_int
write_short_id i h = write_last i (lt_wf.apply i) h

read_short_id :
    (i : ℕ) (bytes : List ℕ)
    → i < 128
    → read_var_int (at (i ∷ bytes) clear) ≡ done i (at bytes clear)
read_short_id i bytes h =
    rw (write_short_id i h) at (read-write_var_int i bytes clear (omega arith))

copy_data_all :
    (bytes : List ℕ) → copy_data (suc (length bytes)) (at bytes clear) ≡ done bytes (at [] clear)
unfolding copy_data
copy_data_all bytes =
    let read = read_bytes-append bytes [] (length bytes) clear refl in
    ground (arith, rw append-nil at read)

parsed_id_short :
    (i : ℕ) (bytes : List ℕ)
    → i < 128
    → parsed_id (suc (length bytes)) (read_var_int (at (i ∷ bytes) clear))
      ≡ parsed (record { size = length bytes; packet_id = i; payload = bytes })
parsed_id_short i bytes h =
    ap (parsed_id (suc (length bytes))) (read_short_id i bytes h)
    ∙ ground (arith, copy_data_all bytes)

pub parse_plain :
    (z : Zlib) (compression i : ℕ) (bytes : List ℕ)
    → 2 ^ 31 ≤ compression
    → i < 128
    → parse_packet z compression (i ∷ bytes)
      ≡ parsed (record { size = length bytes; packet_id = i; payload = bytes })
unfolding parse_packet
parse_plain z compression i bytes off h = ground (arith, parsed_id_short i bytes h)

-- A frame on a compressed connection: the count of the packed bytes, 0 when they are as they were.
parse_counted :
    (z : Zlib) (compression n : ℕ) (bytes : List ℕ)
    → compression < 2 ^ 31
    → n < 2 ^ 31
    → parse_packet z compression (write_var_int n ++ bytes)
      ≡ parsed_length z (done n (at bytes clear))
unfolding parse_packet
parse_counted z compression n bytes on h =
    let read = ap (parsed_length z) (read-write_var_int n bytes clear (omega arith)) in
    ground (arith, read)

pub parse_stored :
    (z : Zlib) (compression i : ℕ) (bytes : List ℕ)
    → compression < 2 ^ 31
    → i < 128
    → parse_packet z compression (write_var_int 0 ++ i ∷ bytes)
      ≡ parsed (record { size = length bytes; packet_id = i; payload = bytes })
parse_stored z compression i bytes on h =
    parse_counted z compression 0 (i ∷ bytes) on (omega arith)
    ∙ ground (arith, parsed_id_short i bytes h)

parsed_inflated_all :
    (i : ℕ) (bytes : List ℕ)
    → i < 128
    → parsed_inflated (suc (length bytes)) (some (i ∷ bytes))
      ≡ parsed (record { size = length bytes; packet_id = i; payload = bytes })
parsed_inflated_all i bytes h =
    let none_left : suc (length bytes) - suc (length bytes) ≡ 0 = omega arith in
    rw (none_left, append-nil) (parsed_id_short i bytes h)

pub parse_packed :
    (z : Zlib) (compression i : ℕ) (bytes packed : List ℕ)
    → compression < 2 ^ 31
    → i < 128
    → length bytes + 1 < 2 ^ 31
    → z.uncompress (suc (length bytes)) packed ≡ some (i ∷ bytes)
    → parse_packet z compression (write_var_int (suc (length bytes)) ++ packed)
      ≡ parsed (record { size = length bytes; packet_id = i; payload = bytes })
parse_packed z compression i bytes packed on h fits unpacks =
    parse_counted z compression (suc (length bytes)) packed on (omega arith)
    ∙ ground
        (arith, ap (parsed_inflated (suc (length bytes))) unpacks, parsed_inflated_all i bytes h)
