-- ===== src/Lobby/Members.antt =====
-- The operations that change the slots: `addPlayer`, `removePlayer`, and the loops over all players.
use doom_mc.Prelude.{
  ℕ, zero, suc, ◌+◌, ◌-◌, ◌%◌, ◌^◌, Bool, true, false, Option, none, some, List, [], ◌∷◌, length,
  set, ltb, leb, if◌then◌else◌, replicate,
}
use doom_mc.Result.{error_code, invalid_argument, runtime_error}
use doom_mc.Player.{Player, Packet}
use doom_mc.Player.Packets.{message_packet, keep_alive_packet}
use doom_mc.Lobby.{
  Link, Lobby, done, raised, fault, M, ◌>>=◌, ◌>>◌, update, send, broadcast, removal_packets,
}

-- `this->players[n] = v`
unfoldable pub set_slot : ℕ → Option ℕ → M (Unit {0})
set_slot n v l =
    if ltb n (length l.players) then done tt (record l { players = set l.players n v }) else fault

-- `epoll_ctl` with `EPOLL_CTL_ADD` and `EPOLL_CTL_DEL`: it fails where the socket is there, or is not.
unfoldable pub epoll_add : ℕ → M (Unit {0})
epoll_add fd l =
    if l.epoll fd
    then raised error_code l
    else done tt (record l { epoll = update l.epoll fd true })

-- The byte that wakes `epoll_wait`.
unfoldable pub write_pipe : M (Unit {0})
write_pipe l = if l.pipe_open then done tt l else raised error_code l

unfoldable pub epoll_del : ℕ → M (Unit {0})
epoll_del fd l =
    if l.epoll fd
    then done tt (record l { epoll = update l.epoll fd false })
    else raised error_code l

unfoldable pub drop_count : M (Unit {0})
drop_count l = done tt (record l { player_count = (l.player_count + (2 ^ 32 - 1)) % 2 ^ 32 })

unfoldable pub remove_player : ℕ → M (Unit {0})
remove_player p l =
    (do
      epoll_del (l.heap p).fd
      broadcast p (removal_packets (l.heap p))
      set_slot (l.heap p).index none
      drop_count)
      l

-- `delete p`: the socket is closed, and leaves the watched set with that.
unfoldable pub delete_player : ℕ → M (Unit {0})
delete_player p l =
    done tt (record l { deleted = p ∷ l.deleted; epoll = update l.epoll (l.heap p).fd false })

-- The first slot that is NULL.
unfoldable pub find_free : List (Option ℕ) → Option ℕ
find_free [] = none
find_free (none ∷ slots) = some 0
find_free (some p ∷ slots) = elim (find_free slots) [ none ↦ none | some i ↦ some (suc i) ]

unfoldable pub set_index : ℕ → ℕ → M (Unit {0})
set_index p i l = done tt (record l { heap = update l.heap p (record (l.heap p) { index = i }) })

unfoldable pub count_up : M (Unit {0})
count_up l = done tt (record l { player_count = (l.player_count + 1) % 2 ^ 32 })

-- `try { ... } catch(std::error_code e) { handler }`
unfoldable pub catch_error_code : M (Unit {0}) → M (Unit {0}) → M (Unit {0})
catch_error_code m handler l = elim (m l) [
  | done a l' ↦ done a l'
  | raised e l' ↦ elim e [
    | error_code ↦ handler l'
    | invalid_argument ↦ raised invalid_argument l'
    | runtime_error ↦ raised runtime_error l'
  ]
  | fault ↦ fault
]

-- `player::startPlay` is the argument.
module _ (start_play : ℕ → ℕ → M (Unit {0})) where
  unfoldable pub seat_player : ℕ → Option ℕ → M (Unit {0})
  seat_player p none l = done tt l
  seat_player p (some i) l =
      (do
        set_slot i (some p)
        set_index p i
        epoll_add (l.heap p).fd
        write_pipe
        catch_error_code (start_play p i) (do remove_player p; delete_player p))
        l

  unfoldable pub add_player : ℕ → M (Unit {0})
  unfolding seat_player
  add_player p l =
      if leb l.max_players l.player_count
      then done tt l
      else (do count_up; seat_player p (find_free l.players)) l

-- `sendMessage`, over the first `playerCount` slots, and one tick of `mainLoop`, over all of them.
unfoldable pub send_each : ℕ → List (Option ℕ) → Packet → M (Unit {0})
send_each zero slots packet l = done tt l
send_each (suc left) [] packet l = fault
send_each (suc left) (none ∷ slots) packet l = send_each left slots packet l
send_each (suc left) (some p ∷ slots) packet l =
    (send p packet >>= λ _. send_each left slots packet) l

unfoldable pub send_message : List ℕ → M (Unit {0})
unfolding send_each
send_message message l = send_each l.player_count l.players (message_packet message) l

unfoldable pub main_loop_tick : ℕ → M (Unit {0})
unfolding send_each
main_loop_tick now l = send_each l.max_players l.players (keep_alive_packet now) l

-- The lobby that the constructor leaves: no player, in `maxPlayers` slots.
unfoldable pub new_lobby : (ℕ → Player) → (ℕ → Link) → (ℕ → Bool) → ℕ → Lobby
new_lobby heap link epoll max_players = record {
  heap = heap;
  link = link;
  epoll = epoll;
  pipe_open = true;
  sent = [];
  deleted = [];
  players = replicate max_players none;
  player_count = 0;
  max_players = max_players;
}
