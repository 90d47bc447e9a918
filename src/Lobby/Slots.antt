-- ===== src/Lobby/Slots.antt =====
-- The slots of a lobby: a seated player knows its slot, the count is the number of seats taken.
use doom_mc.Prelude.{
  ℕ, zero, suc, ◌+◌, ◌-◌, ◌%◌, ◌^◌, ◌≤◌, ◌<◌, ◌≡◌, ◌≢◌, refl, true, false, Option, none, some, List,
  [], ◌∷◌, ◌++◌, length, get_elem?, set, arith, ◌∙◌, ap, length-set, get_elem?-set_self,
  get_elem?-set_ne, sym,
}
use doom_mc.Lobby.{Lobby, done, update, broadcast, removal_packets, then_done}
use doom_mc.Lobby.Members.{set_slot, epoll_del, drop_count, remove_player}
use doom_mc.Lobby.Broadcast.{audience, mailing, CanHear, broadcast_run}

-- The slots that are not NULL.
abbrev pub taken : List (Option ℕ) → ℕ
taken [] = 0
taken (none ∷ slots) = taken slots
taken (some p ∷ slots) = suc (taken slots)

pub taken-le : (slots : List (Option ℕ)) → taken slots ≤ length slots
taken-le [] = omega arith
taken-le (none ∷ slots) = omega (arith, taken-le slots)
taken-le (some p ∷ slots) = omega (arith, taken-le slots)

pub taken-set-none :
    (slots : List (Option ℕ)) (i p : ℕ)
    → get_elem? slots i ≡ some (some p)
    → taken slots ≡ suc (taken (set slots i none))
taken-set-none [] i p e = cc
taken-set-none (none ∷ slots) zero p e = cc
taken-set-none (some q ∷ slots) zero p e = refl
taken-set-none (none ∷ slots) (suc i) p e = taken-set-none slots i p e
taken-set-none (some q ∷ slots) (suc i) p e = ap suc (taken-set-none slots i p e)

pub taken-set-some :
    (slots : List (Option ℕ)) (i p : ℕ)
    → get_elem? slots i ≡ some none
    → taken (set slots i (some p)) ≡ suc (taken slots)
taken-set-some [] i p e = cc
taken-set-some (some q ∷ slots) zero p e = cc
taken-set-some (none ∷ slots) zero p e = refl
taken-set-some (none ∷ slots) (suc i) p e = taken-set-some slots i p e
taken-set-some (some q ∷ slots) (suc i) p e = ap suc (taken-set-some slots i p e)

-- A lobby in order: its count is right, each seated player has the index of its slot and is watched,
-- no two of them share a socket, and its pipe takes what is written to it.
pub record IsSeated (l : Lobby) : Type 0 where
  pub sized : length l.players ≡ l.max_players
  pub small : l.max_players < 2 ^ 32
  pub piped : l.pipe_open ≡ true
  pub counted : l.player_count ≡ taken l.players
  pub placed :
      (i p : ℕ)
      → get_elem? l.players i ≡ some (some p)
      → ((l.heap p).index ≡ i) × (l.epoll (l.heap p).fd ≡ true)
  pub apart :
      (i j p q : ℕ)
      → get_elem? l.players i ≡ some (some p)
      → get_elem? l.players j ≡ some (some q)
      → (l.heap p).fd ≡ (l.heap q).fd
      → i ≡ j

pub in_range :
    (slots : List (Option ℕ)) (i : ℕ) (s : Option ℕ) → get_elem? slots i ≡ some s → i < length slots
in_range [] i s e = cc
in_range (x ∷ slots) zero s e = omega arith
in_range (x ∷ slots) (suc i) s e = omega (arith, in_range slots i s e)

-- The lobby after `removePlayer`, as one record.
abbrev pub without : Lobby → ℕ → ℕ → Lobby
without l p i = record l {
  epoll = update l.epoll (l.heap p).fd false;
  sent =
      l.sent ++ mailing l.heap (removal_packets (l.heap p)) (audience l.player_count l.players p);
  players = set l.players i none;
  player_count = (l.player_count + (2 ^ 32 - 1)) % 2 ^ 32;
}

pub set_slot_run :
    (l : Lobby) (n : ℕ) (v : Option ℕ)
    → n < length l.players
    → set_slot n v l ≡ done tt (record l { players = set l.players n v })
unfolding set_slot
set_slot_run l n v h = ground arith

pub epoll_del_run :
    (l : Lobby) (fd : ℕ)
    → l.epoll fd ≡ true
    → epoll_del fd l ≡ done tt (record l { epoll = update l.epoll fd false })
unfolding epoll_del
epoll_del_run l fd h = rw (h, epoll_del)

pub remove_player_run :
    (l : Lobby) (p i : ℕ)
    → l.player_count ≤ length l.players
    → get_elem? l.players i ≡ some (some p)
    → (l.heap p).index ≡ i
    → l.epoll (l.heap p).fd ≡ true
    → CanHear l (audience l.player_count l.players p)
    → remove_player p l ≡ done tt (without l p i)
unfolding remove_player drop_count
remove_player_run l p i count here index watched hear =
    then_done (epoll_del (l.heap p).fd) _ (epoll_del_run l (l.heap p).fd watched)
    ∙ then_done (broadcast p (removal_packets (l.heap p))) _ (
        broadcast_run (record l { epoll = update l.epoll (l.heap p).fd false }) p
          (removal_packets (l.heap p)) count hear)
    ∙ then_done (set_slot (l.heap p).index none) _ (
        set_slot_run _ (l.heap p).index none
          (omega (arith, index, in_range l.players i (some p) here)))
    ∙ rw index

without-IsSeated :
    (l : Lobby) (p i : ℕ)
    → IsSeated l
    → get_elem? l.players i ≡ some (some p)
    → IsSeated (without l p i)
without-IsSeated l p i v here = record {
  sized = length-set l.players i none ∙ v.sized;
  small = v.small;
  piped = v.piped;
  counted =
      omega
        (arith, v.counted, taken-set-none l.players i p here, taken-le l.players, v.sized, v.small);
  placed = λ j q e.
      let ne : i ≢ j = λ same. not_left j q e same in
      let there = sym (get_elem?-set_ne l.players none ne) ∙ e in
      ((v.placed j q there).0, still_watched j q ne there);
  apart = λ j k q r e f same.
      v.apart j k q r (sym (get_elem?-set_ne l.players none (λ same'. not_left j q e same')) ∙ e)
        (sym (get_elem?-set_ne l.players none (λ same'. not_left k r f same')) ∙ f) same;
}
  where
    not_left : (j q : ℕ) → get_elem? (set l.players i none) j ≡ some (some q) → i ≢ j
    not_left j q e same = cc (
      get_elem?-set_self l.players i none (in_range l.players i (some p) here),
      e,
      ap (get_elem? (set l.players i none)) same,
    )

    still_watched :
        (j q : ℕ)
        → i ≢ j
        → get_elem? l.players j ≡ some (some q)
        → update l.epoll (l.heap p).fd false (l.heap q).fd ≡ true
    still_watched j q ne there =
        let other : (l.heap q).fd ≢ (l.heap p).fd =
          λ same. ne (v.apart i j p q here there (sym same)) in
        ground (arith, (v.placed j q there).1)

-- `removePlayer` of a seated player, where the others can be written to: it unwatches the socket,
-- tells its audience, empties exactly that slot, lowers the count by one, and leaves the lobby in
-- order.
pub remove_player-IsSeated :
    (l : Lobby) (p i : ℕ)
    → IsSeated l
    → get_elem? l.players i ≡ some (some p)
    → CanHear l (audience l.player_count l.players p)
    → (remove_player p l ≡ done tt (without l p i))
      × IsSeated (without l p i)
      × ((without l p i).player_count + 1 ≡ l.player_count)
remove_player-IsSeated l p i v here hear =
    let (index, watched) = v.placed i p here in
    let some_taken = taken-set-none l.players i p here in
    let bound = taken-le l.players in
    (
      remove_player_run l p i (omega (arith, v.counted, bound)) here index watched hear,
      without-IsSeated l p i v here,
      omega (arith, v.counted, v.sized, v.small, some_taken, bound),
    )
