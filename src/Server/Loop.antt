-- ===== src/Server/Loop.antt =====
-- `server::run` in src/server.cpp, an event at a time, and `client::getPacket`. What the system tells
-- is in the event: who is ready, what `read` answers, what `errno` holds, and where `new` puts a client.
pub mod Keeping
pub mod Handlers
pub mod Moving
pub mod Served
pub mod Ending
pub mod Frames
pub mod Handover
use doom_mc.Prelude.{
  ℕ, ◌-◌, ◌^◌, Bool, false, ◌&&◌, ◌||◌, none, List, [], ◌∷◌, ltb, leb, ◌==◌, if◌then◌else◌,
  replicate,
}
use doom_mc.Result.{Exception, error_code}
use doom_mc.Framing.{Zlib}
use doom_mc.Framing as Framing
use doom_mc.Framing.Socket.{Answer, Received, read_packet}
use doom_mc.Lobby.{Lobby, Link, update}
use doom_mc.Server.{
  Client, Server, Step, returned, threw, undefined, Act, ◌then◌, play_number, create_client,
  remove_client, disconnect_client,
}
use doom_mc.Server.Joining.{Host}
use doom_mc.Server.Handling.{handle_packet}

-- EWOULDBLOCK is the same number.
abbrev pub try_again_number : ℕ
try_again_number = 11

abbrev pub broken_pipe_number : ℕ
broken_pipe_number = 32

-- `hung_up c` is EPOLLRDHUP of a client. `refused` is a connection where `accept` or `fcntl` fails, and
-- `knocking c socket` one where they succeed and the client comes to be at `c`. `readable` holds what
-- `read` answers, then `errno` after `readPacket`, then `errno` after `handlePacket`.
pub data PollEvent : Type 0 where
  hung_up : ℕ → PollEvent
  refused : PollEvent
  knocking : ℕ → ℕ → PollEvent
  readable : ℕ → List Answer → ℕ → ℕ → PollEvent

-- `going` on, `exited` with EXIT_FAILURE, left by an exception that nothing in `run` catches, or
-- `stuck` in the loop of `readSocket` for as long as the answers are given, or undefined behaviour.
pub data Turn : Type 0 where
  going : Server → Turn
  exited : Server → Turn
  escaped : Exception → Server → Turn
  stuck : Turn
  faulted : Turn

abbrev pub turn_of : Step → Turn
turn_of (returned s) = going s
turn_of (threw e s) = escaped e s
turn_of undefined = faulted

-- `delete c`: the socket is closed, and with that no longer watched.
unfoldable pub delete_client : ℕ → Act
delete_client c s = returned (record s {
  closed_sockets = (s.clients c).fd ∷ s.closed_sockets;
  watched = update s.watched (s.clients c).fd false;
})

-- `this->removeClient(c->getIndex()); delete c;`
unfoldable pub drop_client : ℕ → Act
unfolding remove_client delete_client
drop_client c s = (remove_client (s.clients c).index then delete_client c) s

-- `getPacket` where `readPacket` gives none: it returns the null packet, or throws.
unfoldable pub no_packet : ℕ → ℕ → Act
unfolding disconnect_client
no_packet c errno s =
    if errno == broken_pipe_number then disconnect_client c s else threw error_code s

-- `(errno != EAGAIN && errno != EWOULDBLOCK && errno > 0) || c->getState() == PLAY_STATE`
abbrev pub is_over : ℕ → ℕ → Bool
is_over errno state =
    ((if errno == try_again_number then false else ltb 0 errno) && ltb errno (2 ^ 31))
    || state == play_number

unfoldable pub settle : ℕ → ℕ → Act
unfolding drop_client
settle c errno s = if is_over errno (s.clients c).state then drop_client c s else returned s

-- From `packet p = c->getPacket();` on.
abbrev pub serve_received : Host → ℕ → ℕ → ℕ → Received Framing.Packet → Server → Turn
serve_received h c read_errno errno (Received.received p more) s =
    turn_of ((handle_packet h c p.packet_id p.payload then settle c errno) s)
serve_received h c read_errno errno (Received.dropped reason more) s =
    turn_of (no_packet c read_errno s)
serve_received h c read_errno errno Received.waiting s = stuck
serve_received h c read_errno errno Received.undefined s = faulted

-- The body of the loop over the events.
unfoldable pub run_event : Host → Zlib → PollEvent → Server → Turn
unfolding drop_client create_client handle_packet settle no_packet read_packet
run_event h z (hung_up c) s = turn_of (drop_client c s)
run_event h z refused s = exited s
run_event h z (knocking c socket) s = turn_of (create_client c socket s)
run_event h z (readable c answers read_errno errno) s =
    serve_received h c read_errno errno (read_packet z (s.clients c).compression answers) s

-- The events that come, in order, over any number of calls of `epoll_wait`.
unfoldable pub run : Host → Zlib → List PollEvent → Server → Turn
unfolding run_event
run h z [] s = going s
run h z (e ∷ es) s = elim (run_event h z e s) [
  | going s' ↦ run h z es s'
  | exited s' ↦ exited s'
  | escaped x s' ↦ escaped x s'
  | stuck ↦ stuck
  | faulted ↦ faulted
]

-- What the constructor leaves: no client, in `maxConnected` slots.
unfoldable pub new_server : (ℕ → Client) → (ℕ → Link) → (ℕ → Bool) → List Lobby → ℕ → ℕ → Server
new_server clients link watched lobbies next_player max_connected = record {
  clients = clients;
  connected = replicate max_connected none;
  connected_count = 0;
  max_connected = max_connected;
  watched = watched;
  closed_sockets = [];
  sent = [];
  link = link;
  lobbies = lobbies;
  next_player = next_player;
}
