-- ===== src/Tests/ServerRuns.antt =====
-- A server with one client that has just connected, and one lobby.
use doom_mc.Prelude.{
  ℕ, zero, suc, ◌+◌, ◌-◌, ◌^◌, ◌≡◌, refl, arith, true, false, none, some, [], ◌∷◌, get_elem?,
  replicate,
}
use doom_mc.PacketIds.{handshake, finish_configuration_2}
use doom_mc.Lobby.{Lobby, up, skip}
use doom_mc.Server.{Client, Server, undefined, ◌then◌, none_number, config_number}
use doom_mc.Server.Joining.{Host}
use doom_mc.Server.Handling.{handle_packet}
use doom_mc.Server.Table.{IsTable}
use doom_mc.Server.Login.{handshake_bytes, handle_packet-skip-login}
use doom_mc.Tests.PlayerRuns.{player_on}

abbrev pub host : Host
host = record {
  status_json = λ protocol online. 123 ∷ 125 ∷ [];
  md5 = λ bytes. replicate 16 9;
  registry = [];
  tags = [];
  memory = player_on 0 0;
  dup_fd = λ fd. fd + 100;
  skin_of = λ name. record { signature = some (115 ∷ []); value = some (118 ∷ []) };
  now = 1000;
  start_play = λ p i. skip;
}

abbrev pub empty_lobby : Lobby
empty_lobby = record {
  heap = λ j. player_on 0 0;
  link = λ fd. up;
  epoll = λ fd. false;
  pipe_open = true;
  sent = [];
  deleted = [];
  players = none ∷ none ∷ [];
  player_count = 0;
  max_players = 2;
}

abbrev pub newcomer : Client
newcomer = record {
  fd = 8;
  state = none_number;
  username = none;
  compression = 2 ^ 32 - 1;
  protocol = 0;
  index = 0;
  uuid = 0;
}

abbrev pub hall : Server
hall = record {
  clients = λ c. newcomer;
  connected = some 4 ∷ none ∷ [];
  connected_count = 1;
  max_connected = 2;
  watched = λ fd. true;
  closed_sockets = [];
  sent = [];
  link = λ fd. up;
  lobbies = empty_lobby ∷ [];
  next_player = 50;
}

placed : (i c : ℕ) → get_elem? hall.connected i ≡ some (some c) → 0 ≡ i
placed zero c e = refl
placed (suc zero) c e = cc
placed (suc (suc i)) c e = cc

pub only_four : (i d : ℕ) → get_elem? hall.connected i ≡ some (some d) → 4 ≡ d
only_four zero d e = cc e
only_four (suc zero) d e = cc
only_four (suc (suc i)) d e = cc

pub hall-IsTable : IsTable hall
hall-IsTable = record { sized = refl; small = omega arith; counted = refl; placed = placed }

handle_packet-skip-login_example :
    (handle_packet host 4 handshake (handshake_bytes 763 (104 ∷ 105 ∷ []) 99 221 config_number)
        then handle_packet host 4 finish_configuration_2 [])
      hall
    ≡ undefined
handle_packet-skip-login_example =
    handle_packet-skip-login host 4 763 99 221 0 (104 ∷ 105 ∷ []) empty_lobby hall refl refl
      (omega arith) (omega arith) refl (omega arith)
