-- ===== src/Tests/LobbyRuns.antt =====
-- A lobby of three slots, of which the middle one is free.
use doom_mc.Prelude.{
  ℕ, zero, suc, ◌+◌, ◌*◌, ◌≡◌, ◌≢◌, refl, ◌↔◌, arith, true, false, length, ◌<◌, Option, none, some,
  List, [], ◌∷◌, ◌++◌, get_elem?,
}
use doom_mc.Result.{error_code}
use doom_mc.Wire.Endian.{write_big_endian_long}
use doom_mc.Player.{Packet}
use doom_mc.Lobby.Roster.{RosterStep, occupants, roster}
use doom_mc.Lobby.Runs.{join, leave, Reach, RosterReach, Step-RosterStep, new_lobby-Reach}
use doom_mc.Lobby.Members.{
  write_pipe, new_lobby, remove_player, seat_player, find_free, count_up, set_slot, set_index,
  epoll_add, catch_error_code,
}
use doom_mc.Lobby.{Lobby, up, done, raised, broadcast}
use doom_mc.Lobby.Members.{remove_player}
use doom_mc.Lobby.Broadcast.{audience, mailing, with_sent, Among, SlotBelow, CanHear, broadcast_lem}
use doom_mc.Lobby.Turned.{add_player-turned_away}
use doom_mc.Prelude.{ltb, set, ◌≤◌}
use doom_mc.Lobby.{M}
use doom_mc.Lobby.Members.{add_player}
use doom_mc.Lobby.Joining.{joined, IsFramed, add_player-IsSeated}
use doom_mc.Lobby.Slots.{in_range, IsSeated, without, remove_player-IsSeated}
use doom_mc.Lobby.Timeout.{handle_keep_alive, is_late, handle_keep_alive_raises}
use doom_mc.Tests.PlayerRuns.{player_on}

abbrev seats : List (Option ℕ)
seats = some 0 ∷ none ∷ some 1 ∷ []

abbrev pub tavern : Lobby
tavern = record {
  heap = λ j. player_on (j * 2) (j + 5);
  link = λ fd. up;
  epoll = λ fd. true;
  pipe_open = true;
  sent = [];
  deleted = [];
  players = seats;
  player_count = 2;
  max_players = 3;
}

some_inj : {a b : ℕ} → some (some a) ≡ some (some b) → a ≡ b
some_inj e = cc e

placed : (i p : ℕ) → get_elem? seats i ≡ some (some p) → p * 2 ≡ i
placed zero p e = let same : 0 ≡ p = some_inj e in omega arith
placed (suc zero) p e = cc
placed (suc (suc zero)) p e = let same : 1 ≡ p = some_inj e in omega arith
placed (suc (suc (suc i))) p e = cc

seated : IsSeated tavern
seated = record {
  sized = refl;
  small = omega arith;
  piped = refl;
  counted = refl;
  placed = λ i p e. (placed i p e, refl);
  apart = λ i j p q e f same. omega (arith, placed i p e, placed j q f, same);
}

abbrev notice : List Packet
notice = record { id = 1; payload = [] } ∷ []

abbrev other : ℕ
other = 1

broadcast_lem_example :
    (broadcast 0 notice tavern
      ≡ done tt (with_sent tavern ([] ++ mailing tavern.heap notice (audience 2 seats 0))))
    × (Among 1 (audience 2 seats 0) ↔ (SlotBelow 1 2 seats × (other ≢ 0)))
broadcast_lem_example = broadcast_lem tavern 0 1 notice (omega arith) tt

late : is_late 1000 900 ≡ true
unfolding is_late
late = refl

handle_keep_alive_raises_example :
    (l' : Lobby) × (handle_keep_alive 1000 1 (write_big_endian_long 900) tavern
      ≡ raised error_code l')
    × (l'.players ≡ some 0 ∷ none ∷ none ∷ [])
    × (l'.player_count + 1 ≡ 2)
    × (l'.epoll 6 ≡ false)
    × (remove_player 1 l' ≡ raised error_code l')
    × (l'.deleted ≡ [])
handle_keep_alive_raises_example =
    handle_keep_alive_raises 1000 900 1 2 tavern seated refl (refl, tt) refl (omega arith) refl
      (omega arith) late

-- The same lobby, which watches only the sockets below 10.
abbrev cellar : Lobby
cellar = record tavern { epoll = λ fd. ltb fd 10 }

low_fd : (i p : ℕ) → get_elem? seats i ≡ some (some p) → ltb (p + 5) 10 ≡ true
low_fd i p e =
    let few : p ≤ 1 = omega (arith, placed i p e, in_range seats i (some p) e) in ground arith

cellar-IsSeated : IsSeated cellar
cellar-IsSeated = record {
  sized = refl;
  small = omega arith;
  piped = refl;
  counted = refl;
  placed = λ i p e. (placed i p e, low_fd i p e);
  apart = λ i j p q e f same. omega (arith, placed i p e, placed j q f, same);
}

abbrev idle_play : ℕ → ℕ → M (Unit {0})
idle_play p i l = done tt l

pub idle-IsFramed : (l : Lobby) → IsFramed l l
idle-IsFramed l = record {
  same_players = refl;
  same_count = refl;
  same_max = refl;
  same_epoll = refl;
  same_pipe = refl;
  same_fd = λ q. refl;
  same_index = λ q. refl;
}

add_player-IsSeated_example :
    (i : ℕ) × (l' : Lobby) × (get_elem? seats i ≡ some none)
    × (add_player idle_play 9 cellar ≡ done tt l')
    × (l'.players ≡ set seats i (some 9))
    × (l'.player_count ≡ 2 + 1)
    × IsSeated l'
add_player-IsSeated_example =
    add_player-IsSeated idle_play 9 cellar cellar-IsSeated (omega arith) refl
      (λ i. (joined cellar 9 i, refl, idle-IsFramed (joined cellar 9 i)))

abbrev failing_play : ℕ → ℕ → M (Unit {0})
failing_play p i l = raised error_code l

all_hear : (l : Lobby) (qs : List ℕ) → ((fd : ℕ) → l.link fd ≡ up) → CanHear l qs
all_hear l [] h = tt
all_hear l (q ∷ qs) h = (h (l.heap q).fd, all_hear l qs h)

add_player-turned_away_example :
    (l'' : Lobby) × (deleted : List ℕ) × (add_player failing_play 9 cellar ≡ done tt l'')
    × (l''.deleted ≡ 9 ∷ deleted)
    × (l''.epoll 14 ≡ false)
    × (l''.players ≡ seats)
    × (l''.player_count ≡ 2)
    × IsSeated l''
add_player-turned_away_example =
    add_player-turned_away failing_play 9 cellar cellar-IsSeated (omega arith) refl (λ i. (
      joined cellar 9 i,
      refl,
      idle-IsFramed (joined cellar 9 i),
      all_hear (joined cellar 9 i) _ (λ fd. refl),
    ))

one_left : remove_player 1 tavern ≡ done tt (without tavern 1 2)
one_left = (remove_player-IsSeated tavern 1 2 seated refl (refl, tt)).0

Step-RosterStep_example :
    IsSeated (without tavern 1 2) × RosterStep (roster tavern) (roster (without tavern 1 2))
Step-RosterStep_example =
    Step-RosterStep idle_play tavern (without tavern 1 2) seated
      (leave 1 2 refl (refl, tt) one_left)

-- A lobby of three slots in which nobody is watched.
abbrev empty_tavern : Lobby
empty_tavern = new_lobby tavern.heap tavern.link (λ fd. false) 3

abbrev one_guest : Lobby
one_guest = joined empty_tavern 1 0

has_room : empty_tavern.player_count < empty_tavern.max_players
unfolding new_lobby
has_room = omega arith

not_watched : empty_tavern.epoll (empty_tavern.heap 1).fd ≡ false
unfolding new_lobby
not_watched = refl

guest_joined : add_player idle_play 1 empty_tavern ≡ done tt one_guest
unfolding add_player new_lobby seat_player find_free count_up set_slot set_index epoll_add
    write_pipe catch_error_code
guest_joined = refl

new_lobby-Reach_example :
    IsSeated one_guest
    × (one_guest.player_count ≡ length (occupants one_guest.players))
    × (one_guest.player_count ≤ one_guest.max_players)
    × RosterReach (record { members = []; capacity = 3 }) (roster one_guest)
new_lobby-Reach_example =
    new_lobby-Reach idle_play tavern.heap tavern.link (λ fd. false) 3 one_guest (omega arith)
      (Reach.then
        (join 1 has_room not_watched
          (λ i. (joined empty_tavern 1 i, refl, idle-IsFramed (joined empty_tavern 1 i)))
          guest_joined)
        Reach.here)
