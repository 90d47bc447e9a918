-- ===== src/Server.antt =====
-- src/server.cpp and src/client.cpp: the table of connected clients, and a client's `send` and
-- `disconnect`. A client is a pointer into `clients`; a packet is recorded with its socket.
pub mod Joining
pub mod Handling
pub mod Table
pub mod Login
pub mod Loop
use doom_mc.Prelude.{
  ℕ, zero, suc, ◌+◌, ◌-◌, ◌%◌, ◌^◌, ◌≡◌, Bool, true, false, ◌||◌, Option, none, some, List, [], ◌∷◌,
  ◌++◌, length, set, get_elem?, ltb, leb, ◌==◌, if◌then◌else◌,
}
use doom_mc.Result.{Exception, error_code}
use doom_mc.PacketIds.{disconnect_play, disconnect_login}
use doom_mc.Player.{Packet}
use doom_mc.Lobby.{Lobby, Link, up, closed, broken, update}
use doom_mc.Lobby.Members.{find_free}

-- `state` is a pattern of an `int`, since a client can set it to any; `index` is `2 ^ 32 - 1` for -1.
pub record Client : Type 0 where
  pub fd : ℕ
  pub state : ℕ
  pub username : Option (List ℕ)
  pub compression : ℕ
  pub protocol : ℕ
  pub index : ℕ
  pub uuid : ℕ

-- The numbers of `state_t`.
abbrev pub none_number : ℕ
none_number = 0

abbrev pub status_number : ℕ
status_number = 1

abbrev pub login_number : ℕ
login_number = 2

abbrev pub play_number : ℕ
play_number = 3

abbrev pub config_number : ℕ
config_number = 4

pub record Server : Type 0 where
  pub clients : ℕ → Client
  pub connected : List (Option ℕ)
  pub connected_count : ℕ
  pub max_connected : ℕ
  pub watched : ℕ → Bool
  pub closed_sockets : List ℕ
  pub sent : List (ℕ × Packet)
  pub link : ℕ → Link
  pub lobbies : List Lobby
  pub next_player : ℕ

-- A call returns, is left by an exception, or goes on into undefined behaviour.
pub data Step : Type 0 where
  returned : Server → Step
  threw : Exception → Server → Step
  undefined : Step

abbrev pub Act : Type 0
Act = Server → Step

infixr 5 ◌then◌
abbrev pub ◌then◌ : Act → Act → Act
◌then◌ a b s = elim (a s) [ returned s' ↦ b s' | threw e s' ↦ threw e s' | undefined ↦ undefined ]

abbrev pub set_client : ℕ → Client → Server → Server
set_client c client s = record s { clients = update s.clients c client }

-- `client::client(server*, int, int)`
unfoldable pub new_client : ℕ → ℕ → Client
new_client fd index = record {
  fd = fd;
  state = none_number;
  username = none;
  compression = 2 ^ 32 - 1;
  protocol = 0;
  index = index;
  uuid = 0;
}

-- `createClient`, where the new client is at `c`.
unfoldable pub create_client : ℕ → ℕ → Act
create_client c socket s =
    if leb s.max_connected s.connected_count
    then returned (record s { closed_sockets = socket ∷ s.closed_sockets })
    else elim (find_free s.connected) [
      | none ↦ returned (record s { connected_count = (s.connected_count + 1) % 2 ^ 32 })
      | some i ↦ returned (record s {
        clients = update s.clients c (new_client socket i);
        connected = set s.connected i (some c);
        watched = update s.watched socket true;
        connected_count = (s.connected_count + 1) % 2 ^ 32;
      })
    ]

-- `removeClient`; a socket that is not watched is only reported.
unfoldable pub remove_client : ℕ → Act
remove_client n s = elim (get_elem? s.connected n) [
  | none ↦ undefined
  | some slot ↦ elim slot [
    | none ↦ returned s
    | some c ↦ returned (record s {
      connected = set s.connected n none;
      connected_count = (s.connected_count + (2 ^ 32 - 1)) % 2 ^ 32;
      watched = update s.watched (s.clients c).fd false;
    })
  ]
]

abbrev pub forget_index : ℕ → Act
forget_index c s = returned (set_client c (record (s.clients c) { index = 2 ^ 32 - 1 }) s)

-- `client::send`. Where the write fails with `EPIPE` it calls `disconnect`, which in the states
-- LOGIN and PLAY sends to the same socket again, without end.
unfoldable pub send_client : ℕ → Packet → Act
unfolding remove_client
send_client c packet s = elim (s.link (s.clients c).fd) [
  | up ↦ returned (record s { sent = s.sent ++ ((s.clients c).fd, packet) ∷ [] })
  | broken ↦ threw error_code s
  | closed ↦
      if (s.clients c).index == 2 ^ 32 - 1
      then threw error_code s
      else if (s.clients c).state == play_number || (s.clients c).state == login_number
      then undefined
      else (remove_client (s.clients c).index then forget_index c then threw error_code) s
]

-- `client::disconnect`
unfoldable pub disconnect_client : ℕ → Act
unfolding send_client remove_client
disconnect_client c s =
    let leave : Act = λ t. (remove_client (t.clients c).index then forget_index c) t in
    if (s.clients c).index == 2 ^ 32 - 1
    then returned s
    else if (s.clients c).state == play_number
    then (send_client c (record { id = disconnect_play; payload = [] }) then leave) s
    else if (s.clients c).state == login_number
    then (send_client c (record { id = disconnect_login; payload = [] }) then leave) s
    else leave s
