-- ===== src/Server/Joining.antt =====
-- `server::addToLobby` and `client::toPlayer`: from a client to a player in a lobby.
use doom_mc.Prelude.{
  ℕ, zero, suc, ◌+◌, ◌-◌, ◌^◌, false, Option, none, some, List, [], ◌∷◌, set, ltb, if◌then◌else◌,
}
use doom_mc.Player.{Player, Skin, play_state}
use doom_mc.Lobby.{Lobby, M, done, raised, fault, update}
use doom_mc.Lobby.Members.{add_player}
use doom_mc.Server.{Client, Server, returned, threw, undefined, Act}

-- What comes from outside: the JSON status, MD5, the two tables that are read from files, what memory
-- holds in a new player, `dup`, the skin that is downloaded, the clock, and `player::startPlay`.
pub record Host : Type 1 where
  pub status_json : ℕ → ℕ → List ℕ
  pub md5 : List ℕ → List ℕ
  pub registry : List ℕ
  pub tags : List ℕ
  pub memory : Player
  pub dup_fd : ℕ → ℕ
  pub skin_of : List ℕ → Skin
  pub now : ℕ
  pub start_play : ℕ → ℕ → M (Unit {0})

-- The bytes before the first NUL.
unfoldable pub c_string : List ℕ → List ℕ
c_string [] = []
c_string (zero ∷ s) = []
c_string (suc b ∷ s) = suc b ∷ c_string s

-- `player::player`. The coordinates stay what memory held.
unfoldable pub new_player : Host → ℕ → List ℕ → ℕ → ℕ → Player
new_player h fd username protocol uuid = record h.memory {
  fd = fd;
  state = play_state;
  username = username;
  protocol = protocol;
  index = 2 ^ 32 - 1;
  uuid = uuid;
  eid = 0;
  entity_type = 122;
  entity_data = 0;
  in_lobby = false;
  held_slot = 0;
  on_ground = false;
  health = 20;
  teleport_id = 0;
  last_keep_alive = h.now;
  has_spawned = false;
  skin = h.skin_of username;
}

-- `toPlayer` of a client that has a name; it is called in PLAY_STATE only.
unfoldable pub to_player : Host → Client → List ℕ → Player
unfolding new_player c_string
to_player h client name =
    new_player h (h.dup_fd client.fd) (c_string name) client.protocol client.uuid

-- The first lobby that has room.
unfoldable pub find_room : List Lobby → Option (ℕ × Lobby)
find_room [] = none
find_room (l ∷ ls) =
    let later = find_room ls in
    if ltb l.player_count l.max_players
    then some (0, l)
    else elim later [ none ↦ none | some (i, m) ↦ some (suc i, m) ]

-- `this->lobbies[i]->addPlayer(p)` of a new player.
unfoldable pub enter_lobby : Host → ℕ → Lobby → Player → Act
enter_lobby h i l player s =
    let after : Lobby → Server =
      λ l'. record s { lobbies = set s.lobbies i l'; next_player = s.next_player + 1 } in
    elim (add_player h.start_play s.next_player
      (record l { heap = update l.heap s.next_player player })) [
        | done a l' ↦ returned (after l')
        | raised e l' ↦ threw e (after l')
        | fault ↦ undefined
      ]

-- A client without a name makes `toPlayer` take the length of NULL.
unfoldable pub add_to_lobby : Host → ℕ → Act
unfolding find_room enter_lobby
add_to_lobby h c s = elim (find_room s.lobbies) [
  | none ↦ returned s
  | some (i, l) ↦ elim (s.clients c).username [
    | none ↦ undefined
    | some name ↦ enter_lobby h i l (to_player h (s.clients c) name) s
  ]
]
