-- ===== src/Server/Loop/Handlers.antt =====
-- `send`, `disconnect` and the handlers of `client::handlePacket`, as steps of one client.
use doom_mc.Prelude.{
  ℕ, ◌-◌, ◌^◌, ◌≡◌, refl, Bool, Option, none, some, [], ◌∷◌, ◌++◌, get_elem?, arith, ◌∙◌, ap, sym,
  ◌==◌, if◌then◌else◌, ◌||◌, ==_ne, ==_refl, get_elem?-set_self, Bool-cases, inl, inr,
}
use doom_mc.Result.{error_code}
use doom_mc.PacketIds.{disconnect_play, disconnect_login}
use doom_mc.Player.{Packet}
use doom_mc.Lobby.{Link, up, closed, broken}
use doom_mc.Lobby.Slots.{in_range}
use doom_mc.Server.{
  Server, returned, threw, undefined, Act, ◌then◌, set_client, remove_client, forget_index,
  send_client, disconnect_client, play_number, login_number,
}
use doom_mc.Server.Table.{disconnect_at, disconnect_at-IsTable}
use doom_mc.Server.Loop.Keeping.{EndsIn, Within, Keeps, then-Keeps, if-Keeps, aside-Within}

module _ (c : ℕ) (s : Server) where
  disconnect_at-Within :
      (n d : ℕ) (t : Server)
      → Within c s t
      → get_elem? t.connected n ≡ some (some d)
      → Within c s (disconnect_at n d t)
  disconnect_at-Within n d t w here = record {
    in_order = λ o. disconnect_at-IsTable n d t (w.in_order o) here;
    others = w.others;
    same_fd = w.same_fd;
    same_room = w.same_room;
    follows = w.follows;
  }

  remove_by :
      (n : ℕ) (t : Server) (slot : Option (Option ℕ))
      → get_elem? t.connected n ≡ slot
      → Within c s t
      → EndsIn (Within c s) (remove_client n t)
  unfolding remove_client
  remove_by n t none e w = rw (e, remove_client) tt
  remove_by n t (some none) e w = rw (e, remove_client) w
  remove_by n t (some (some d)) e w = rw (e, remove_client) (disconnect_at-Within n d t w e)

  pub remove_client-Keeps : (n : ℕ) → Keeps c s (remove_client n)
  remove_client-Keeps n t w = remove_by n t (get_elem? t.connected n) refl w

  -- `this->index = -1`, once no slot holds the client.
  forget-Within :
      (t : Server)
      → Within c s t
      → get_elem? t.connected (t.clients c).index ≡ some none
      → Within c s (set_client c (record (t.clients c) { index = 2 ^ 32 - 1 }) t)
  forget-Within t w empty = record {
    in_order = λ o.
        let t_order = w.in_order o in
        record {
          sized = t_order.sized;
          small = t_order.small;
          counted = t_order.counted;
          placed = λ i d e. elim (Bool-cases (d == c)) [
            | inl here ↦
                let d_c : d ≡ c = ground arith in
                let at : (t.clients c).index ≡ i =
                  ap (λ (k : ℕ). (t.clients k).index) (sym d_c) ∙ t_order.placed i d e in
                cc (ap (get_elem? t.connected) at, empty, e)
            | inr other ↦ rw other (t_order.placed i d e)
          ];
        };
    others = λ d ne. rw (==_ne d c ne) (w.others d ne);
    same_fd = rw ==_refl w.same_fd;
    same_room = w.same_room;
    follows = rw ==_refl w.follows;
  }

  leave_by :
      (t : Server) (slot : Option (Option ℕ))
      → get_elem? t.connected (t.clients c).index ≡ slot
      → Within c s t
      → EndsIn (Within c s) ((remove_client (t.clients c).index then forget_index c) t)
  unfolding remove_client
  leave_by t none e w = rw (e, ◌then◌, remove_client) tt
  leave_by t (some none) e w = rw (e, ◌then◌, remove_client) (forget-Within t w e)
  leave_by t (some (some d)) e w =
      let n = (t.clients c).index in
      rw (e, ◌then◌, remove_client)
        (forget-Within (disconnect_at n d t) (disconnect_at-Within n d t w e)
          (get_elem?-set_self t.connected n none (in_range t.connected n (some d) e)))

  leave-Keeps : Keeps c s (λ t. (remove_client (t.clients c).index then forget_index c) t)
  leave-Keeps t w = leave_by t (get_elem? t.connected (t.clients c).index) refl w

  leave_then :
      (k : Act) (t : Server) (slot : Option (Option ℕ))
      → Keeps c s k
      → get_elem? t.connected (t.clients c).index ≡ slot
      → Within c s t
      → EndsIn (Within c s) ((remove_client (t.clients c).index then forget_index c then k) t)
  unfolding remove_client
  leave_then k t none v e w = rw (e, ◌then◌, remove_client) tt
  leave_then k t (some none) v e w = rw (e, ◌then◌, remove_client) (v _ (forget-Within t w e))
  leave_then k t (some (some d)) v e w =
      let n = (t.clients c).index in
      rw (e, ◌then◌, remove_client)
        (v _ (
          forget-Within (disconnect_at n d t) (disconnect_at-Within n d t w e)
            (get_elem?-set_self t.connected n none (in_range t.connected n (some d) e))))

  threw-Keeps : Keeps c s (threw error_code)
  threw-Keeps t w = w

  send_by :
      (packet : Packet) (t : Server) (link : Link)
      → t.link (t.clients c).fd ≡ link
      → Within c s t
      → EndsIn (Within c s) (send_client c packet t)
  unfolding send_client
  send_by packet t up e w =
      rw (e, send_client)
        (aside-Within c s t (record t { sent = t.sent ++ ((t.clients c).fd, packet) ∷ [] }) w refl
          refl refl refl)
  send_by packet t broken e w = rw (e, send_client) w
  send_by packet t closed e w =
      rw (e, send_client)
        (if-Keeps c s ((t.clients c).index == 2 ^ 32 - 1) (threw error_code)
          (λ u.
            if (u.clients c).state == play_number || (u.clients c).state == login_number
            then undefined
            else (remove_client (u.clients c).index then forget_index c then threw error_code) u)
          t w
          (if-Keeps c s ((t.clients c).state == play_number || (t.clients c).state == login_number)
            (λ u. undefined)
            (λ u. (remove_client (u.clients c).index then forget_index c then threw error_code) u) t
            tt
            (leave_then (threw error_code) t (get_elem? t.connected (t.clients c).index) threw-Keeps
              refl w)))

  pub send_client-Keeps : (packet : Packet) → Keeps c s (send_client c packet)
  send_client-Keeps packet t w = send_by packet t (t.link (t.clients c).fd) refl w

  pub disconnect_client-Keeps : Keeps c s (disconnect_client c)
  unfolding disconnect_client
  disconnect_client-Keeps t w =
      let leave : Act = λ u. (remove_client (u.clients c).index then forget_index c) u in
      let say : ℕ → Act = λ i. send_client c (record { id = i; payload = [] }) then leave in
      let say-Keeps : (i : ℕ) → Keeps c s (say i) =
        λ i. then-Keeps c s (send_client c _) leave (send_client-Keeps _) leave-Keeps in
      let in_state : ℕ → Bool = λ n. (t.clients c).state == n in
      let at_login : Act = λ u. if in_state login_number then say disconnect_login u else leave u in
      let at_play : Act = λ u. if in_state play_number then say disconnect_play u else at_login u in
      if-Keeps c s ((t.clients c).index == 2 ^ 32 - 1) returned at_play t w (
        if-Keeps c s (in_state play_number) (say disconnect_play) at_login t
          (say-Keeps disconnect_play t w)
          (if-Keeps c s (in_state login_number) (say disconnect_login) leave t
            (say-Keeps disconnect_login t w) (leave-Keeps t w)))
