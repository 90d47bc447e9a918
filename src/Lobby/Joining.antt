-- ===== src/Lobby/Joining.antt =====
-- `lobby::addPlayer`: a player that joins gets a free slot, and the lobby stays in order.
use doom_mc.Prelude.{
  ℕ, ◌+◌, ◌%◌, ◌^◌, ◌<◌, ◌≡◌, ◌≢◌, refl, Bool, true, false, Option, none, some, List, length,
  get_elem?, set, arith, ◌∙◌, ap, sym, ◌==◌, leb, length-set, ==_refl, ◌⊎◌, inl, inr, Bool-cases,
}
use doom_mc.Lobby.{Lobby, M, done, ◌>>◌, update, then_done}
use doom_mc.Lobby.Members.{
  set_slot, set_index, epoll_add, count_up, catch_error_code, remove_player, delete_player,
  write_pipe, seat_player, add_player,
}
use doom_mc.Lobby.Slots.{taken, taken-le, taken-set-some, IsSeated, in_range, set_slot_run}
use doom_mc.Lobby.Free.{find_free-some, get_elem?-set-cases}

-- What `startPlay` leaves as it is: the slots, the count, the watched sockets, the pipe, and of each player the
-- socket and the index.
pub record IsFramed (l l' : Lobby) : Type 0 where
  pub same_players : l'.players ≡ l.players
  pub same_count : l'.player_count ≡ l.player_count
  pub same_max : l'.max_players ≡ l.max_players
  pub same_epoll : l'.epoll ≡ l.epoll
  pub same_pipe : l'.pipe_open ≡ l.pipe_open
  pub same_fd : (q : ℕ) → (l'.heap q).fd ≡ (l.heap q).fd
  pub same_index : (q : ℕ) → (l'.heap q).index ≡ (l.heap q).index

pub IsFramed-IsSeated : (l l' : Lobby) → IsFramed l l' → IsSeated l → IsSeated l'
IsFramed-IsSeated l l' f v = record {
  sized = ap length f.same_players ∙ v.sized ∙ sym f.same_max;
  small = omega (arith, f.same_max, v.small);
  piped = f.same_pipe ∙ v.piped;
  counted = f.same_count ∙ v.counted ∙ ap taken (sym f.same_players);
  placed = λ i p e.
      let (index, watched) = v.placed i p (before i p e) in
      (
        f.same_index p ∙ index,
        ap (λ (w : ℕ → Bool). w (l'.heap p).fd) f.same_epoll ∙ ap l.epoll (f.same_fd p) ∙ watched,
      );
  apart = λ i j p q e g same.
      v.apart i j p q (before i p e) (before j q g) (sym (f.same_fd p) ∙ same ∙ f.same_fd q);
}
  where
    before :
        (i p : ℕ) → get_elem? l'.players i ≡ some (some p) → get_elem? l.players i ≡ some (some p)
    before i p e = ap (λ (s : List (Option ℕ)). get_elem? s i) (sym f.same_players) ∙ e

-- The lobby once `p` sits in slot `i` and is watched, before `startPlay`.
abbrev pub joined : Lobby → ℕ → ℕ → Lobby
joined l p i = record l {
  player_count = (l.player_count + 1) % 2 ^ 32;
  players = set l.players i (some p);
  heap = update l.heap p (record (l.heap p) { index = i });
  epoll = update l.epoll (l.heap p).fd true;
}

module _ (l : Lobby) (p i : ℕ) where
  pub joined-fd : (q : ℕ) → ((joined l p i).heap q).fd ≡ (l.heap q).fd
  joined-fd q = elim (Bool-cases (q == p)) [
    | inl here ↦ let q_p : q ≡ p = ground arith in rw (here, q_p) refl
    | inr other ↦ rw other refl
  ]

  still_watched : (fd : ℕ) → l.epoll fd ≡ true → (joined l p i).epoll fd ≡ true
  still_watched fd watched = elim (Bool-cases (fd == (l.heap p).fd)) [
    | inl here ↦ rw here refl
    | inr other ↦ rw other watched
  ]

  pub joined-IsSeated :
      IsSeated l
      → get_elem? l.players i ≡ some none
      → l.epoll (l.heap p).fd ≡ false
      → IsSeated (joined l p i)
  joined-IsSeated v free unwatched = record {
    sized = length-set l.players i (some p) ∙ v.sized;
    small = v.small;
    piped = v.piped;
    counted = omega (
      arith,
      v.counted,
      taken-set-some l.players i p free,
      taken-le (set l.players i (some p)),
      length-set l.players i (some p),
      v.sized,
      v.small,
    );
    placed = λ j q e. elim (seats j q e) [
      | inl (same, is_p) ↦ let q_p : (q == p) ≡ true = ground arith in (rw q_p same, at_home q is_p)
      | inr (other, there) ↦
          let (index, watched) = v.placed j q there in
          let q_p : (q == p) ≡ false = not_p j q there in
          (
            rw q_p index,
            ap (joined l p i).epoll (joined-fd q) ∙ still_watched (l.heap q).fd watched,
          )
    ];
    apart = λ j k q r e f same.
        let fds : (l.heap q).fd ≡ (l.heap r).fd = sym (joined-fd q) ∙ same ∙ joined-fd r in
        elim (seats j q e) [
          | inl (i_j, q_p) ↦ elim (seats k r f) [
            | inl (i_k, r_p) ↦ sym i_j ∙ i_k
            | inr (i_k, there) ↦
                absurd (stranger k r there (sym fds ∙ ap (λ (t : ℕ). (l.heap t).fd) (sym q_p)))
          ]
          | inr (i_j, there) ↦ elim (seats k r f) [
            | inl (i_k, r_p) ↦
                absurd (stranger j q there (fds ∙ ap (λ (t : ℕ). (l.heap t).fd) (sym r_p)))
            | inr (i_k, there') ↦ v.apart j k q r there there' fds
          ]
        ];
  }
    where
      seats :
          (j q : ℕ)
          → get_elem? (set l.players i (some p)) j ≡ some (some q)
          → ((i ≡ j) × (p ≡ q)) ⊎ ((i ≢ j) × (get_elem? l.players j ≡ some (some q)))
      seats j q e =
          elim (get_elem?-set-cases l.players i j (some p) (some q) e
            (in_range l.players i none free)) [
              | inl (same, is_p) ↦ inl (same, cc is_p)
              | inr (other, there) ↦ inr (other, there)
            ]

      stranger : (k r : ℕ) → get_elem? l.players k ≡ some (some r) → (l.heap r).fd ≢ (l.heap p).fd
      stranger k r there s = cc ((v.placed k r there).1, unwatched, s)

      not_p : (j q : ℕ) → get_elem? l.players j ≡ some (some q) → (q == p) ≡ false
      not_p j q there = elim (Bool-cases (q == p)) [
        | inl here ↦
            let q_p : q ≡ p = ground arith in
            let watched = (v.placed j q there).1 in
            let same_fd : (l.heap q).fd ≡ (l.heap p).fd = ap (λ (t : ℕ). (l.heap t).fd) q_p in
            cc (watched, unwatched, same_fd)
        | inr other ↦ other
      ]

      at_home : (q : ℕ) → p ≡ q → (joined l p i).epoll ((joined l p i).heap q).fd ≡ true
      at_home q p_q =
          ap (joined l p i).epoll (joined-fd q ∙ ap (λ (t : ℕ). (l.heap t).fd) (sym p_q))
          ∙ rw ==_refl refl

pub epoll_add_run :
    (l : Lobby) (fd : ℕ)
    → l.epoll fd ≡ false
    → epoll_add fd l ≡ done tt (record l { epoll = update l.epoll fd true })
unfolding epoll_add
epoll_add_run l fd h = rw (h, epoll_add)

pub write_pipe_run : (l : Lobby) → l.pipe_open ≡ true → write_pipe l ≡ done tt l
unfolding write_pipe
write_pipe_run l h = rw (h, write_pipe)

catch_done :
    (m handler : M (Unit {0})) {l l' : Lobby}
    → m l ≡ done tt l'
    → catch_error_code m handler l ≡ done tt l'
unfolding catch_error_code
catch_done m handler h = rw (h, catch_error_code)

seat_run :
    (start_play : ℕ → ℕ → M (Unit {0})) (p i : ℕ) (l l' : Lobby)
    → i < length l.players
    → l.epoll (l.heap p).fd ≡ false
    → l.pipe_open ≡ true
    → start_play p i (joined l p i) ≡ done tt l'
    → (count_up >> seat_player start_play p (some i)) l ≡ done tt l'
unfolding count_up seat_player set_index
seat_run start_play p i l l' low unwatched piped play =
    then_done (set_slot i (some p)) _ (set_slot_run _ i (some p) low)
    ∙ then_done (epoll_add (l.heap p).fd) _ (epoll_add_run _ (l.heap p).fd unwatched)
    ∙ then_done write_pipe _ (write_pipe_run _ piped)
    ∙ catch_done (start_play p i) (remove_player p >> delete_player p) play

-- `addPlayer` to a lobby in order that is not full, of a player whose socket is not watched, where
-- `startPlay` returns and leaves the slots, the count, the watched sockets, the pipe, and each player's socket
-- and index as they are: the player gets a slot that was free, no other slot changes, the count goes
-- up by one, and the lobby stays in order.
pub add_player-IsSeated :
    (start_play : ℕ → ℕ → M (Unit {0})) (p : ℕ) (l : Lobby)
    → IsSeated l
    → l.player_count < l.max_players
    → l.epoll (l.heap p).fd ≡ false
    → ((i : ℕ)
        → (l' : Lobby) × (start_play p i (joined l p i) ≡ done tt l') × IsFramed (joined l p i) l')
    → (i : ℕ) × (l' : Lobby) × (get_elem? l.players i ≡ some none)
      × (add_player start_play p l ≡ done tt l')
      × (l'.players ≡ set l.players i (some p))
      × (l'.player_count ≡ l.player_count + 1)
      × IsSeated l'
unfolding add_player
add_player-IsSeated start_play p l v space unwatched plays =
    let (i, found, free) = find_free-some l.players (omega (arith, v.counted, v.sized)) in
    let (l', play, framed) = plays i in
    let under : leb l.max_players l.player_count ≡ false = ground arith in
    (
      i,
      l',
      free,
      rw (under, found)
          (seat_run start_play p i l l' (in_range l.players i none free) unwatched v.piped play),
      framed.same_players,
      omega (arith, framed.same_count, v.small),
      IsFramed-IsSeated (joined l p i) l' framed (joined-IsSeated l p i v free unwatched),
    )
