-- ===== src/Server/Loop/Handover.antt =====
-- The hand-over of a client to a lobby: the end of the configuration, from the socket to the slot.
use doom_mc.Prelude.{ℕ, ◌+◌, ◌≡◌, ◌≢◌, some, List, get_elem?, set}
use doom_mc.Player.{Player}
use doom_mc.Lobby.{Lobby, update}
use doom_mc.Server.{Server, set_client, play_number}
use doom_mc.Server.Joining.{Host, to_player}

-- No slot of the lobby holds the player `p`.
abbrev pub IsStranger : ℕ → Lobby → Type 0
IsStranger p l = (i q : ℕ) → get_elem? l.players i ≡ some (some q) → q ≢ p

-- The lobby once a new player is in memory at `p`.
abbrev pub born : ℕ → Player → Lobby → Lobby
born p player l = record l { heap = update l.heap p player }

-- The client as it is when `addToLobby` is called.
abbrev pub playing : ℕ → Server → Server
playing c s = set_client c (record (s.clients c) { state = play_number }) s

-- The player that `toPlayer` makes of the client.
abbrev pub player_of : Host → ℕ → List ℕ → Server → Player
player_of h c name s = to_player h ((playing c s).clients c) name

module _ (h : Host) (c j : ℕ) (name bytes : List ℕ) (l : Lobby) (s : Server) where
  -- The server once the lobby `l'` has the player.
  abbrev pub handed_over : Lobby → Server
  handed_over l' = record (playing c s) {
    lobbies = set s.lobbies j l';
    next_player = s.next_player + 1;
  }
