-- ===== src/Server/Loop/Ending.antt =====
-- How a client, and how the server, comes to its end in `server::run`.
use doom_mc.Prelude.{
  ℕ, ◌+◌, ◌≤◌, ◌≡◌, ◌≢◌, refl, true, false, none, some, List, ◌∷◌, ◌++◌, map, length, get_elem?,
  set, All, arith, ◌∙◌, ap, ==_refl, ==_ne,
}
use doom_mc.Result.{error_code}
use doom_mc.Wire.VarInt.{IsByte}
use doom_mc.Framing.{Zlib, Reason, max_packet_size}
use doom_mc.Framing as Framing
use doom_mc.Framing.Socket.{Answer, dropped, parse_received, read_packet}
use doom_mc.Framing.HeaderLaws.{one_byte}
use doom_mc.Framing.Guards.{is_stop, read_socket_loses_count}
use doom_mc.Lobby.{update}
use doom_mc.Lobby.Slots.{taken-set-none}
use doom_mc.Server.{Server, returned, ◌then◌, remove_client}
use doom_mc.Server.Joining.{Host}
use doom_mc.Server.Table.{IsTable, disconnect_at, disconnect_at-IsTable}
use doom_mc.Server.Loop.{
  PollEvent, hung_up, readable, going, escaped, turn_of, delete_client, drop_client, no_packet,
  serve_received, run_event, run, broken_pipe_number,
}

-- `c` stands in the slot that it has for its index.
abbrev pub IsConnected : ℕ → Server → Type 0
IsConnected c s = get_elem? s.connected (s.clients c).index ≡ some (some c)

-- The server without `c`.
abbrev pub without : ℕ → Server → Server
without c s =
    let left = disconnect_at (s.clients c).index c s in
    record left {
      closed_sockets = (s.clients c).fd ∷ s.closed_sockets;
      watched = update left.watched (s.clients c).fd false;
    }

pub drop_client_run :
    (c : ℕ) (s : Server) → IsConnected c s → drop_client c s ≡ returned (without c s)
unfolding drop_client remove_client delete_client
drop_client_run c s here = rw (here, ◌then◌, remove_client) refl

pub without-IsTable : (c : ℕ) (s : Server) → IsTable s → IsConnected c s → IsTable (without c s)
without-IsTable c s t here =
    let o = disconnect_at-IsTable (s.clients c).index c s t here in
    record { sized = o.sized; small = o.small; counted = o.counted; placed = o.placed }

-- When a connected client hangs up, the loop goes on: the client's slot is free, its socket is closed
-- and no longer watched, the count is one lower, no other slot changes and the table stays in order.
pub run_event-hung_up :
    (h : Host) (z : Zlib) (c : ℕ) (s : Server)
    → IsTable s
    → IsConnected c s
    → (s' : Server) × (run_event h z (hung_up c) s ≡ going s')
      × (s'.connected ≡ set s.connected (s.clients c).index none)
      × (s'.connected_count + 1 ≡ s.connected_count)
      × (s'.watched (s.clients c).fd ≡ false)
      × (s'.closed_sockets ≡ (s.clients c).fd ∷ s.closed_sockets)
      × IsTable s'
unfolding run_event
run_event-hung_up h z c s t here =
    let o = without-IsTable c s t here in
    (
      without c s,
      ap turn_of (drop_client_run c s here),
      refl,
      omega (arith, t.counted, o.counted, taken-set-none s.connected (s.clients c).index c here),
      rw ==_refl refl,
      refl,
      o,
    )

run_first :
    (h : Host) (z : Zlib) (e : PollEvent) (es : List PollEvent) (s s' : Server)
    → run_event h z e s ≡ escaped error_code s'
    → run h z (e ∷ es) s ≡ escaped error_code s'
unfolding run
run_first h z e es s s' ends = rw (ends, run) refl

-- A client that gives no packet, with any `errno` but EPIPE, ends the server: `getPacket` throws, and
-- nothing in `run` catches it.
pub no_packet_ends :
    (h : Host) (z : Zlib) (c read_errno errno : ℕ) (answers more : List Answer) (reason : Reason)
    (es : List PollEvent) (s : Server)
    → read_packet z (s.clients c).compression answers ≡ dropped reason more
    → read_errno ≢ broken_pipe_number
    → run h z (readable c answers read_errno errno ∷ es) s ≡ escaped error_code s
unfolding run_event no_packet
no_packet_ends h z c read_errno errno answers more reason es s none_read other =
    run_first h z (readable c answers read_errno errno) es s s (
      ap (λ r. serve_received h c read_errno errno r s) none_read
      ∙ rw (==_ne read_errno broken_pipe_number other) refl)

-- Any client ends the server with the first bytes of a frame: where no more than four bytes of the
-- count have come, all of them to be continued, and the next `read` has nothing yet, or ends, or fails,
-- an exception leaves `run`, and no event behind that is served. `errno` is then not EPIPE, which only
-- a write gives.
pub run-cut_short :
    (h : Host) (z : Zlib) (c read_errno errno : ℕ) (bytes : List ℕ) (stop : Answer)
    (more : List Answer) (es : List PollEvent) (s : Server)
    → All (λ b. (128 ≤ b) × IsByte b) bytes
    → length bytes ≤ 4
    → is_stop stop ≡ true
    → read_errno ≢ broken_pipe_number
    → run h z (readable c (map one_byte bytes ++ (stop ∷ more)) read_errno errno ∷ es) s
      ≡ escaped error_code s
unfolding read_packet
run-cut_short h z c read_errno errno bytes stop more es s high few stops other =
    no_packet_ends h z c read_errno errno (map one_byte bytes ++ (stop ∷ more)) more
      Framing.interrupted es s
      (ap (parse_received z (s.clients c).compression)
        (read_socket_loses_count bytes stop more high stops few))
      other
