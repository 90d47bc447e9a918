-- ===== src/Lobby/Runs.antt =====
-- Whole runs of a lobby: players join and leave and packets go out, one operation after the other.
use doom_mc.Prelude.{
  ℕ, zero, suc, ◌^◌, ◌≤◌, ◌<◌, ◌≡◌, refl, sym, ap, ◌∙◌, arith, Bool, true, false, List, [], ◌∷◌,
  none, some, get_elem?, length, length-set, length-replicate, replicate,
}
use mathlib.Core.List.{Perm}
use mathlib.Core.Path.{subst}
use doom_mc.Player.{Player}
use doom_mc.Player.Packets.{message_packet, keep_alive_packet}
use doom_mc.Result.{error_code}
use doom_mc.Lobby.{Link, up, Lobby, M, done, raised}
use doom_mc.Lobby.Timeout.{disconnect, goodbye, said_goodbye, disconnect_open, disconnect_run}
use doom_mc.Lobby.Turned.{add_player-turned_away}
use doom_mc.Lobby.Members.{add_player, remove_player, send_message, main_loop_tick, new_lobby}
use doom_mc.Lobby.Broadcast.{audience, CanHear}
use doom_mc.Lobby.Slots.{taken, taken-le, IsSeated, remove_player-IsSeated}
use doom_mc.Lobby.Joining.{IsFramed, IsFramed-IsSeated, joined, add_player-IsSeated}
use doom_mc.Lobby.Roster.{
  Roster, RosterStep, enter, exit, stay, occupants, roster, length-occupants, occupants-set-some,
  occupants-set-none,
}
use doom_mc.Lobby.Sends.{finished, done_state, send_each-IsFramed, sent-IsFramed}

-- `startPlay` of `p` returns, wherever the player sits, and leaves the lobby's own state alone.
abbrev pub Starts : (ℕ → ℕ → M (Unit {0})) → ℕ → Lobby → Type 0
Starts start_play p l =
    (i : ℕ)
    → (l' : Lobby) × (start_play p i (joined l p i) ≡ done tt l') × IsFramed (joined l p i) l'

-- `startPlay` of `p` throws an error code and leaves the lobby's own state alone, and the others can be
-- written to.
abbrev pub Fails : (ℕ → ℕ → M (Unit {0})) → ℕ → Lobby → Type 0
Fails start_play p l =
    (i : ℕ)
    → (l' : Lobby) × (start_play p i (joined l p i) ≡ raised error_code l')
      × IsFramed (joined l p i) l'
      × CanHear l' (audience l'.player_count l'.players p)

-- `addPlayer`, `removePlayer`, `player::disconnect`, `sendMessage` and a tick of `mainLoop`, where they return.
pub data Step (start_play : ℕ → ℕ → M (Unit {0})) : Lobby → Lobby → Type 0 where
  join :
      {l l' : Lobby} (p : ℕ)
      → l.player_count < l.max_players
      → l.epoll (l.heap p).fd ≡ false
      → Starts start_play p l
      → add_player start_play p l ≡ finished l'
      → Step start_play l l'
  reject :
      {l l' : Lobby} (p : ℕ)
      → l.player_count < l.max_players
      → l.epoll (l.heap p).fd ≡ false
      → Fails start_play p l
      → add_player start_play p l ≡ finished l'
      → Step start_play l l'
  turn_away :
      {l l' : Lobby} (p : ℕ)
      → l.max_players ≤ l.player_count
      → add_player start_play p l ≡ finished l'
      → Step start_play l l'
  leave :
      {l l' : Lobby} (p i : ℕ)
      → get_elem? l.players i ≡ some (some p)
      → CanHear l (audience l.player_count l.players p)
      → remove_player p l ≡ finished l'
      → Step start_play l l'
  part :
      {l l' : Lobby} (p i : ℕ)
      → get_elem? l.players i ≡ some (some p)
      → CanHear l (audience l.player_count l.players p)
      → l.link (l.heap p).fd ≡ up
      → (l.heap p).fd < 2 ^ 31
      → (l.heap p).in_lobby ≡ true
      → disconnect p l ≡ finished l'
      → Step start_play l l'
  say :
      {l l' : Lobby} (message : List ℕ)
      → send_message message l ≡ finished l'
      → Step start_play l l'
  tick : {l l' : Lobby} (now : ℕ) → main_loop_tick now l ≡ finished l' → Step start_play l l'

framed_step :
    (l l' : Lobby) → IsFramed l l' → IsSeated l → IsSeated l' × RosterStep (roster l) (roster l')
framed_step l l' f v = (IsFramed-IsSeated l l' f v, stay (rw (f.same_players, f.same_max) refl))

turned_away :
    (start_play : ℕ → ℕ → M (Unit {0})) (p : ℕ) (l : Lobby)
    → l.max_players ≤ l.player_count
    → add_player start_play p l ≡ finished l
unfolding add_player
turned_away start_play p l full = ground arith

module _ (start_play : ℕ → ℕ → M (Unit {0})) where
  -- Each of these operations keeps a lobby in order, and is one step of its roster: a player that was
  -- let in is a new member of a roster with room, one that left is a member no more, and anything else
  -- leaves the members as they were, `addPlayer` of a player whose `startPlay` throws among it.
  pub Step-RosterStep :
      (l l' : Lobby)
      → IsSeated l
      → Step start_play l l'
      → IsSeated l' × RosterStep (roster l) (roster l')
  unfolding send_message main_loop_tick
  Step-RosterStep l l' v (join p space unwatched plays run) =
      let (i, t, free, run', slots, count, ordered) =
        add_player-IsSeated start_play p l v space unwatched plays in
      let fits : length (occupants l.players) < l.max_players =
        omega (arith, length-occupants l.players, v.counted) in
      let capacity : t.max_players ≡ l.max_players =
        sym ordered.sized ∙ ap length slots ∙ length-set l.players i (some p) ∙ v.sized in
      let members : Perm (occupants t.players) (p ∷ occupants l.players) =
        rw slots (occupants-set-some l.players i p free) in
      subst (λ s. IsSeated s × RosterStep (roster l) (roster s)) (done_state (sym run' ∙ run))
        (ordered, enter p fits capacity members)
  Step-RosterStep l l' v (reject p space unwatched fails run) =
      let (t, deleted, run', _, _, slots, _, ordered) =
        add_player-turned_away start_play p l v space unwatched fails in
      let capacity : t.max_players ≡ l.max_players =
        sym ordered.sized ∙ ap length slots ∙ v.sized in
      subst (λ s. IsSeated s × RosterStep (roster l) (roster s)) (done_state (sym run' ∙ run))
        (ordered, stay (rw (slots, capacity) refl))
  Step-RosterStep l l' v (turn_away p full run) =
      subst (λ t. IsSeated t × RosterStep (roster l) (roster t))
        (done_state (sym (turned_away start_play p l full) ∙ run)) (v, stay refl)
  Step-RosterStep l l' v (leave p i here hear run) =
      let (run', ordered, count) = remove_player-IsSeated l p i v here hear in
      subst (λ t. IsSeated t × RosterStep (roster l) (roster t)) (done_state (sym run' ∙ run))
        (ordered, exit p refl (occupants-set-none l.players i p here))
  Step-RosterStep l l' v (part p i here hear link fd_ok member run) =
      let (index, watched) = v.placed i p here in
      let said = IsFramed-IsSeated l (said_goodbye l p) (sent-IsFramed p goodbye l) v in
      let (_, ordered, _) = remove_player-IsSeated (said_goodbye l p) p i said here hear in
      let run' =
        disconnect_open l p fd_ok member
        ∙ disconnect_run l p i (omega (arith, v.counted, taken-le l.players)) here index watched
            hear link in
      subst (λ t. IsSeated t × RosterStep (roster l) (roster t)) (done_state (sym run' ∙ run))
        (ordered, exit p refl (occupants-set-none l.players i p here))
  Step-RosterStep l l' v (say message run) =
      framed_step l l'
        (send_each-IsFramed l.player_count l.players (message_packet message) l l' run) v
  Step-RosterStep l l' v (tick now run) =
      framed_step l l' (send_each-IsFramed l.max_players l.players (keep_alive_packet now) l l' run)
        v

-- Any number of operations.
pub data Reach (start_play : ℕ → ℕ → M (Unit {0})) : Lobby → Lobby → Type 0 where
  here : {l : Lobby} → Reach start_play l l
  then : {l t l' : Lobby} → Step start_play l t → Reach start_play t l' → Reach start_play l l'

pub data RosterReach : Roster → Roster → Type 0 where
  here : {r : Roster} → RosterReach r r
  then : {r s t : Roster} → RosterStep r s → RosterReach s t → RosterReach r t

pub taken-none : (n : ℕ) → taken (replicate n none) ≡ 0
taken-none zero = refl
taken-none (suc n) = taken-none n

occupants-none : (n : ℕ) → occupants (replicate n none) ≡ []
occupants-none zero = refl
occupants-none (suc n) = occupants-none n

pub empty_slots : (n i p : ℕ) → ¬ (get_elem? (replicate n none) i ≡ some (some p))
empty_slots zero i p e = cc
empty_slots (suc n) zero p e = cc
empty_slots (suc n) (suc i) p e = empty_slots n i p e

new_lobby-IsSeated :
    (heap : ℕ → Player) (link : ℕ → Link) (epoll : ℕ → Bool) (max_players : ℕ)
    → max_players < 2 ^ 32
    → IsSeated (new_lobby heap link epoll max_players)
unfolding new_lobby
new_lobby-IsSeated heap link epoll max_players small = record {
  sized = length-replicate max_players none;
  small = small;
  piped = refl;
  counted = sym (taken-none max_players);
  placed = λ i p e. absurd (empty_slots max_players i p e);
  apart = λ i j p q e f same. absurd (empty_slots max_players i p e);
}

module _ (start_play : ℕ → ℕ → M (Unit {0})) where
  Reach-RosterReach :
      (l l' : Lobby)
      → IsSeated l
      → Reach start_play l l'
      → IsSeated l' × RosterReach (roster l) (roster l')
  Reach-RosterReach l l' v Reach.here = (v, RosterReach.here)
  Reach-RosterReach l l' v (Reach.then {t = t} step later) =
      let (v', now) = Step-RosterStep start_play l t v step in
      let (v'', runs) = Reach-RosterReach t l' v' later in (v'', RosterReach.then now runs)

  -- After any number of these operations on a new lobby, under their conditions: the lobby is in order,
  -- with every seated player in the slot that it knows, its count is the number of its members and not
  -- above the maximum, and its roster is one that steps of the roster lead to from the empty one.
  pub new_lobby-Reach :
      (heap : ℕ → Player) (link : ℕ → Link) (epoll : ℕ → Bool) (max_players : ℕ) (l : Lobby)
      → max_players < 2 ^ 32
      → Reach start_play (new_lobby heap link epoll max_players) l
      → IsSeated l
        × (l.player_count ≡ length (occupants l.players))
        × (l.player_count ≤ l.max_players)
        × RosterReach (record { members = []; capacity = max_players }) (roster l)
  unfolding new_lobby
  new_lobby-Reach heap link epoll max_players l small runs =
      let start = new_lobby-IsSeated heap link epoll max_players small in
      let (v, steps) = Reach-RosterReach _ l start runs in
      (
        v,
        omega (arith, v.counted, length-occupants l.players),
        omega (arith, v.counted, taken-le l.players, v.sized),
        rw occupants-none at steps,
      )
