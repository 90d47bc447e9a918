-- ===== src/Lobby/Turned.antt =====
-- `lobby::addPlayer` where `startPlay` throws: the player is turned away, and the lobby is as before.
use doom_mc.Prelude.{
  ℕ, zero, suc, ◌<◌, ◌≡◌, refl, Bool, true, false, Option, none, some, List, [], ◌∷◌, length,
  get_elem?, set, arith, ◌∙◌, ap, ◌==◌, leb, get_elem?-set_self, Bool-cases, inl, inr,
}
use doom_mc.Result.{error_code}
use doom_mc.Lobby.{Lobby, M, done, raised, ◌>>◌, update, then_done}
use doom_mc.Lobby.Members.{
  set_slot, set_index, epoll_add, count_up, catch_error_code, remove_player, delete_player,
  write_pipe, seat_player, add_player,
}
use doom_mc.Lobby.Broadcast.{CanHear, audience}
use doom_mc.Lobby.Slots.{IsSeated, in_range, set_slot_run, without, remove_player-IsSeated}
use doom_mc.Lobby.Free.{find_free-some}
use doom_mc.Lobby.Joining.{
  IsFramed, IsFramed-IsSeated, joined, joined-fd, joined-IsSeated, epoll_add_run, write_pipe_run,
}

catch_raised :
    (m handler : M (Unit {0})) {l l' : Lobby}
    → m l ≡ raised error_code l'
    → catch_error_code m handler l ≡ handler l'
unfolding catch_error_code
catch_raised m handler h = rw (h, catch_error_code)

set_back :
    (slots : List (Option ℕ)) (i p : ℕ)
    → get_elem? slots i ≡ some none
    → set (set slots i (some p)) i none ≡ slots
set_back [] i p e = refl
set_back (x ∷ slots) zero p e = ap (λ t. t ∷ slots) (cc e)
set_back (x ∷ slots) (suc i) p e = ap (λ t. x ∷ t) (set_back slots i p e)

-- The lobby that `delete p` leaves.
abbrev pub deleting : ℕ → Lobby → Lobby
deleting p l = record l { deleted = p ∷ l.deleted; epoll = update l.epoll (l.heap p).fd false }

closed_twice :
    (watched : ℕ → Bool) (fd j : ℕ)
    → update watched fd false j ≡ true
    → update (update watched fd false) fd false j ≡ true
closed_twice watched fd j h = elim (Bool-cases (j == fd)) [
  | inl same ↦ let no_watch : false ≡ true = rw same at h in cc no_watch
  | inr other ↦ rw other (rw other at h)
]

closed_at :
    (watched : ℕ → Bool) (fd j : ℕ) → fd ≡ j → update (update watched fd false) fd false j ≡ false
closed_at watched fd j e = let same : (j == fd) ≡ true = ground arith in rw same refl

deleting-IsSeated :
    (p i : ℕ) (l : Lobby) → IsSeated (without l p i) → IsSeated (deleting p (without l p i))
deleting-IsSeated p i l v = record {
  sized = v.sized;
  small = v.small;
  piped = v.piped;
  counted = v.counted;
  placed = λ j q e.
      let (index, watched) = v.placed j q e in
      (index, closed_twice l.epoll (l.heap p).fd (l.heap q).fd watched);
  apart = v.apart;
}

turned_run :
    (start_play : ℕ → ℕ → M (Unit {0})) (p i : ℕ) (l l' l'' : Lobby)
    → i < length l.players
    → l.epoll (l.heap p).fd ≡ false
    → l.pipe_open ≡ true
    → start_play p i (joined l p i) ≡ raised error_code l'
    → remove_player p l' ≡ done tt l''
    → (count_up >> seat_player start_play p (some i)) l ≡ done tt (deleting p l'')
unfolding count_up seat_player set_index delete_player
turned_run start_play p i l l' l'' low unwatched piped fails removes =
    then_done (set_slot i (some p)) _ (set_slot_run _ i (some p) low)
    ∙ then_done (epoll_add (l.heap p).fd) _ (epoll_add_run _ (l.heap p).fd unwatched)
    ∙ then_done write_pipe _ (write_pipe_run _ piped)
    ∙ catch_raised (start_play p i) (remove_player p >> delete_player p) fails
    ∙ then_done (remove_player p) (delete_player p) removes

-- `addPlayer` to a lobby in order that is not full, of a player whose socket is not watched, where
-- `startPlay` throws an error code and leaves the slots, the count, the watched sockets, the pipe, and each
-- player's socket and index as they are, while the others can be written to: `addPlayer` returns, the
-- player is deleted and its socket no longer watched, every slot and the count are as they were, and
-- the lobby is in order.
pub add_player-turned_away :
    (start_play : ℕ → ℕ → M (Unit {0})) (p : ℕ) (l : Lobby)
    → IsSeated l
    → l.player_count < l.max_players
    → l.epoll (l.heap p).fd ≡ false
    → ((i : ℕ)
        → (l' : Lobby) × (start_play p i (joined l p i) ≡ raised error_code l')
          × IsFramed (joined l p i) l'
          × CanHear l' (audience l'.player_count l'.players p))
    → (l'' : Lobby) × (deleted : List ℕ) × (add_player start_play p l ≡ done tt l'')
      × (l''.deleted ≡ p ∷ deleted)
      × (l''.epoll (l.heap p).fd ≡ false)
      × (l''.players ≡ l.players)
      × (l''.player_count ≡ l.player_count)
      × IsSeated l''
unfolding add_player
add_player-turned_away start_play p l v space unwatched fails =
    let (i, found, free) = find_free-some l.players (omega (arith, v.counted, v.sized)) in
    let low = in_range l.players i none free in
    let (l', fail, framed, hear) = fails i in
    let under : leb l.max_players l.player_count ≡ false = ground arith in
    let seated =
      IsFramed-IsSeated (joined l p i) l' framed (joined-IsSeated l p i v free unwatched) in
    let here : get_elem? l'.players i ≡ some (some p) =
      ap (λ (t : List (Option ℕ)). get_elem? t i) framed.same_players
      ∙ get_elem?-set_self l.players i (some p) low in
    let (removes, gone, fewer) = remove_player-IsSeated l' p i seated here hear in
    (
      deleting p (without l' p i),
      l'.deleted,
      rw (under, found)
          (turned_run start_play p i l l' (without l' p i) low unwatched v.piped fail removes),
      refl,
      closed_at l'.epoll (l'.heap p).fd (l.heap p).fd (framed.same_fd p ∙ joined-fd l p i p),
      ap (λ (t : List (Option ℕ)). set t i none) framed.same_players ∙ set_back l.players i p free,
      omega (arith, framed.same_count, fewer, v.small),
      deleting-IsSeated p i l' gone,
    )
