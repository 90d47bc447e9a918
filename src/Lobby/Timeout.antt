-- ===== src/Lobby/Timeout.antt =====
-- `player::disconnect`, and the case KEEP_ALIVE_2 of `player::handlePacket`.
use doom_mc.Prelude.{
  ℕ, ◌+◌, ◌-◌, ◌%◌, ◌^◌, ◌≤◌, ◌<◌, ◌≡◌, refl, Bool, true, false, ◌&&◌, some, none, set, List, [],
  ◌∷◌, ◌++◌, length, get_elem?, arith, ◌∙◌, ap, ◌==◌, if◌then◌else◌, ltb, ==_refl, append-nil, sym,
  Bool-cases, inl, inr,
}
use doom_mc.Result.{error_code}
use doom_mc.PacketIds.{disconnect_play}
use doom_mc.Wire.Cursor
use doom_mc.Wire.Cursor.{at, clear}
use doom_mc.Wire.Endian.{write_big_endian_long, read_big_endian_long}
use doom_mc.Wire.Endian.Laws.{read-write_big_endian}
use doom_mc.Player.{Packet, Player}
use doom_mc.Lobby.{
  up, Lobby, done, raised, fault, M, ◌>>◌, skip, update, send, then_done, then_raised,
}
use doom_mc.Lobby.Members.{epoll_del, remove_player, delete_player}
use doom_mc.Lobby.Broadcast.{audience, CanHear, with_sent, send_up}
use doom_mc.Lobby.Slots.{IsSeated, taken-le, without, remove_player_run, remove_player-IsSeated}

-- `currentLobby` is this lobby, or NULL.
unfoldable pub disconnect : ℕ → M (Unit {0})
disconnect p l =
    if (l.heap p).fd == 2 ^ 32 - 1
    then done tt l
    else if (l.heap p).in_lobby
    then (do send p (record { id = disconnect_play; payload = [] }); remove_player p) l
    else fault

unfoldable pub set_last_keep_alive : ℕ → ℕ → M (Unit {0})
set_last_keep_alive p time l =
    done tt (record l { heap = update l.heap p (record (l.heap p) { last_keep_alive = time }) })

-- `this->getPing() > 20`, on the pattern of a `time_t`.
unfoldable pub is_late : ℕ → ℕ → Bool
is_late now last = let ping = (now + 2 ^ 64 - last) % 2 ^ 64 in ltb 20 ping && ltb ping (2 ^ 63)

-- After a late answer: `disconnect`, `removePlayer` and `delete this`.
unfoldable pub drop_late : ℕ → M (Unit {0})
drop_late p = do disconnect p; remove_player p; delete_player p

unfoldable pub handle_keep_alive : ℕ → ℕ → List ℕ → M (Unit {0})
unfolding set_last_keep_alive
handle_keep_alive now p bytes l = elim (read_big_endian_long (at bytes clear)) [
  | Cursor.fault ↦ fault
  | Cursor.done time c ↦
      (do set_last_keep_alive p time; (if is_late now time then drop_late p else skip)) l
]

-- The socket is not watched any more: `epoll_ctl` refuses.
epoll_del_refused : (l : Lobby) (fd : ℕ) → l.epoll fd ≡ false → epoll_del fd l ≡ raised error_code l
unfolding epoll_del
epoll_del_refused l fd h = rw (h, epoll_del)

remove_player_absent :
    (l : Lobby) (p : ℕ) → l.epoll (l.heap p).fd ≡ false → remove_player p l ≡ raised error_code l
unfolding remove_player
remove_player_absent l p h = then_raised (epoll_del (l.heap p).fd) _ (epoll_del_refused l _ h)

abbrev pub goodbye : Packet
goodbye = record { id = disconnect_play; payload = [] }

pub disconnect_open :
    (l : Lobby) (p : ℕ)
    → (l.heap p).fd < 2 ^ 31
    → (l.heap p).in_lobby ≡ true
    → disconnect p l ≡ (send p goodbye >> remove_player p) l
unfolding disconnect
disconnect_open l p fd_ok member =
    let open_socket : ((l.heap p).fd == 2 ^ 32 - 1) ≡ false = ground arith in
    rw (open_socket, member) refl

abbrev pub said_goodbye : Lobby → ℕ → Lobby
said_goodbye l p = with_sent l (l.sent ++ ((l.heap p).fd, goodbye) ∷ [])

pub disconnect_run :
    (l : Lobby) (p i : ℕ)
    → l.player_count ≤ length l.players
    → get_elem? l.players i ≡ some (some p)
    → (l.heap p).index ≡ i
    → l.epoll (l.heap p).fd ≡ true
    → CanHear l (audience l.player_count l.players p)
    → l.link (l.heap p).fd ≡ up
    → (send p goodbye >> remove_player p) l ≡ done tt (without (said_goodbye l p) p i)
disconnect_run l p i count here index watched hear link =
    then_done (send p goodbye) (remove_player p) (send_up l p goodbye link)
    ∙ remove_player_run (said_goodbye l p) p i count here index watched hear

-- The lobby once the answer's time is stored.
abbrev stamped : ℕ → ℕ → Lobby → Lobby
stamped p time l = record l {
  heap = update l.heap p (record (l.heap p) { last_keep_alive = time });
}

update_same {ℓ} : {A : Type ℓ} (f : ℕ → A) (k : ℕ) (v : A) → update f k v k ≡ v
update_same f k v = rw ==_refl

module _ (p time : ℕ) (l : Lobby) where
  stamped-fd : (q : ℕ) → ((stamped p time l).heap q).fd ≡ (l.heap q).fd
  stamped-fd q = elim (Bool-cases (q == p)) [
    | inl same ↦ rw same (ground arith)
    | inr other ↦ rw other refl
  ]

  stamped-index : (q : ℕ) → ((stamped p time l).heap q).index ≡ (l.heap q).index
  stamped-index q = elim (Bool-cases (q == p)) [
    | inl same ↦ rw same (ground arith)
    | inr other ↦ rw other refl
  ]

  stamped-CanHear : (qs : List ℕ) → CanHear l qs → CanHear (stamped p time l) qs
  stamped-CanHear [] h = h
  stamped-CanHear (q ∷ qs) h = (ap l.link (stamped-fd q) ∙ h.0, stamped-CanHear qs h.1)

drop_late_raises :
    (l l' : Lobby) (p : ℕ)
    → disconnect p l ≡ done tt l'
    → l'.epoll (l'.heap p).fd ≡ false
    → drop_late p l ≡ raised error_code l'
unfolding drop_late
drop_late_raises l l' p gone unwatched =
    then_done (disconnect p) _ gone
    ∙ then_raised (remove_player p) _ (remove_player_absent l' p unwatched)

handle_late :
    (now time p : ℕ) (bytes : List ℕ) (c : Cursor.Cursor) (l : Lobby)
    → read_big_endian_long (at bytes clear) ≡ Cursor.done time c
    → is_late now time ≡ true
    → handle_keep_alive now p bytes l ≡ drop_late p (stamped p time l)
unfolding handle_keep_alive set_last_keep_alive
handle_late now time p bytes c l back late = rw (back, late, handle_keep_alive) refl

long_alone :
    (time : ℕ)
    → time < 2 ^ 64
    → read_big_endian_long (at (write_big_endian_long time) clear) ≡ Cursor.done time (at [] clear)
long_alone time fits =
    ap (λ (b : List ℕ). read_big_endian_long (at b clear))
      (sym (append-nil (write_big_endian_long time)))
    ∙ (read-write_big_endian 0 0 time 0 [] clear (omega arith) (omega arith) fits (omega arith)).2

-- The bug: for a seated player that can be written to, as can its audience, whose answer is late, the
-- handler removes the player twice. The first time its slot is emptied, the count is one less, and its
-- socket is not watched any more; so the second `removePlayer` throws `std::error_code` and changes
-- nothing, the player is not deleted, and the exception leaves `handlePacket`.
pub handle_keep_alive_raises :
    (now time p i : ℕ) (l : Lobby)
    → IsSeated l
    → get_elem? l.players i ≡ some (some p)
    → CanHear l (audience l.player_count l.players p)
    → l.link (l.heap p).fd ≡ up
    → (l.heap p).fd < 2 ^ 31
    → (l.heap p).in_lobby ≡ true
    → time < 2 ^ 64
    → is_late now time ≡ true
    → (l' : Lobby) × (handle_keep_alive now p (write_big_endian_long time) l ≡ raised error_code l')
      × (l'.players ≡ set l.players i none)
      × (l'.player_count + 1 ≡ l.player_count)
      × (l'.epoll (l.heap p).fd ≡ false)
      × (remove_player p l' ≡ raised error_code l')
      × (l'.deleted ≡ l.deleted)
handle_keep_alive_raises now time p i l v here hear link fd_ok member fits late =
    let l1 = stamped p time l in
    let seat = v.placed i p here in
    let l2 = without (said_goodbye l1 p) p i in
    let gone : disconnect p l1 ≡ done tt l2 =
      disconnect_open l1 p (omega (arith, fd_ok, stamped-fd p time l p))
        (ap (λ (q : Player). q.in_lobby) (update_same l.heap p _) ∙ member)
      ∙ disconnect_run l1 p i (omega (arith, v.counted, taken-le l.players)) here
          (stamped-index p time l p ∙ seat.0) (ap l.epoll (stamped-fd p time l p) ∙ seat.1)
          (stamped-CanHear p time l _ hear) (ap l.link (stamped-fd p time l p) ∙ link) in
    let unwatched : l2.epoll (l2.heap p).fd ≡ false = update_same l1.epoll (l1.heap p).fd false in
    (
      l2,
      handle_late now time p (write_big_endian_long time) (at [] clear) l (long_alone time fits)
            late
          ∙ drop_late_raises l1 l2 p gone unwatched,
      refl,
      (remove_player-IsSeated l p i v here hear).2,
      ap l2.epoll (sym (stamped-fd p time l p)) ∙ unwatched,
      remove_player_absent l2 p unwatched,
      refl,
    )
