-- ===== src/Server/Loop/Served.antt =====
-- The event loop over any number of events: the table of clients stays in order.
use mathlib.Core.Path.{subst}
use doom_mc.Prelude.{
  ℕ, ◌^◌, ◌≤◌, ◌<◌, ◌≡◌, refl, Bool, none, List, arith, ◌∙◌, sym, ◌==◌, inl, inr, length-replicate,
}
use doom_mc.Result.{error_code}
use doom_mc.Framing.{Zlib}
use doom_mc.Framing as Framing
use doom_mc.Framing.Socket.{Received, read_packet}
use doom_mc.Lobby.{Lobby, Link}
use doom_mc.Lobby.Runs.{taken-none, empty_slots}
use doom_mc.Lobby.Slots.{taken-le}
use doom_mc.Server.{
  Client, Server, Step, returned, threw, undefined, Act, ◌then◌, remove_client, create_client,
}
use doom_mc.Server.Joining.{Host}
use doom_mc.Server.Handling.{handle_packet}
use doom_mc.Server.Table.{IsTable, IsNew, create_client-IsTable}
use doom_mc.Server
use doom_mc.Server.Loop.{
  PollEvent, hung_up, refused, knocking, readable, Turn, going, exited, escaped, stuck, faulted,
  turn_of, delete_client, drop_client, no_packet, is_over, settle, serve_received, run_event,
  new_server, broken_pipe_number,
}
use doom_mc.Server.Loop.Keeping.{
  EndsIn, Within, Within-refl, Keeps, after, then-Keeps, if-Keeps, aside-Within,
}
use doom_mc.Server.Loop.Handlers.{remove_client-Keeps, disconnect_client-Keeps}
use doom_mc.Server.Loop.Moving.{handle_packet-Within}

module _ (c : ℕ) (s : Server) where
  delete_client-Keeps : Keeps c s (delete_client c)
  unfolding delete_client
  delete_client-Keeps t w = aside-Within c s t _ w refl refl refl refl

  pub drop_client-Keeps : Keeps c s (drop_client c)
  unfolding drop_client
  drop_client-Keeps t w =
      then-Keeps c s (remove_client (t.clients c).index) (delete_client c)
        (remove_client-Keeps c s (t.clients c).index) delete_client-Keeps t w

  settle-Keeps : (errno : ℕ) → Keeps c s (settle c errno)
  unfolding settle
  settle-Keeps errno t w =
      if-Keeps c s (is_over errno (t.clients c).state) (drop_client c) returned t
        (drop_client-Keeps t w) w

  no_packet-Keeps : (errno : ℕ) → Keeps c s (no_packet c errno)
  unfolding no_packet
  no_packet-Keeps errno t w =
      if-Keeps c s (errno == broken_pipe_number) (Server.disconnect_client c) (threw error_code) t
        (disconnect_client-Keeps c s t w) w

-- The server that a turn leaves, where it leaves one.
abbrev pub Leaves : (Server → Type 0) → Turn → Type 0
Leaves P (going s) = P s
Leaves P (exited s) = P s
Leaves P (escaped e s) = P s
Leaves P stuck = Unit
Leaves P faulted = Unit

Leaves-turn_of :
    (P Q : Server → Type 0) (r : Step)
    → ((s : Server) → P s → Q s)
    → EndsIn P r
    → Leaves Q (turn_of r)
Leaves-turn_of P Q (returned s) f h = f s h
Leaves-turn_of P Q (threw e s) f h = f s h
Leaves-turn_of P Q undefined f h = tt

Leaves-map :
    (P Q : Server → Type 0) (r : Turn) → ((s : Server) → P s → Q s) → Leaves P r → Leaves Q r
Leaves-map P Q (going s) f h = f s h
Leaves-map P Q (exited s) f h = f s h
Leaves-map P Q (escaped e s) f h = f s h
Leaves-map P Q stuck f h = tt
Leaves-map P Q faulted f h = tt

-- The table is in order, and has as many slots as in `s`.
abbrev pub InOrder : Server → Server → Type 0
InOrder s u = IsTable u × (u.max_connected ≡ s.max_connected)

serve-Within :
    (h : Host) (c read_errno errno : ℕ) (r : Received Framing.Packet) (s : Server)
    → Leaves (Within c s) (serve_received h c read_errno errno r s)
serve-Within h c read_errno errno (Received.received p more) s =
    Leaves-turn_of (Within c s) (Within c s) _ (λ t w. w)
      (after c s s _ (handle_packet h c p.packet_id p.payload) (settle c errno) refl
        (handle_packet-Within h c p.packet_id p.payload s) (settle-Keeps c s errno))
serve-Within h c read_errno errno (Received.dropped reason more) s =
    Leaves-turn_of (Within c s) (Within c s) _ (λ t w. w)
      (no_packet-Keeps c s read_errno s (Within-refl c s))
serve-Within h c read_errno errno Received.waiting s = tt
serve-Within h c read_errno errno Received.undefined s = tt

-- `new` gives memory that no connected client has.
abbrev pub IsDue : PollEvent → Server → Type 0
IsDue (knocking c socket) s = IsNew c s
IsDue _ s = Unit

create_client-InOrder :
    (c socket : ℕ) (s : Server)
    → IsTable s
    → IsNew c s
    → Leaves (InOrder s) (turn_of (create_client c socket s))
create_client-InOrder c socket s t fresh = elim (create_client-IsTable c socket s t fresh) [
  | inl (full, e) ↦
      rw e
        (record { sized = t.sized; small = t.small; counted = t.counted; placed = t.placed }, refl)
  | inr (i, free, e, t') ↦ rw e (t', refl)
]

-- Every event that is due leaves the table in order, whatever the turn comes to.
pub run_event-InOrder :
    (h : Host) (z : Zlib) (e : PollEvent) (s : Server)
    → IsTable s
    → IsDue e s
    → Leaves (InOrder s) (run_event h z e s)
unfolding run_event
run_event-InOrder h z (hung_up c) s t due =
    Leaves-turn_of (Within c s) (InOrder s) _ (λ u w. (w.in_order t, w.same_room))
      (drop_client-Keeps c s s (Within-refl c s))
run_event-InOrder h z refused s t due = (t, refl)
run_event-InOrder h z (knocking c socket) s t due = create_client-InOrder c socket s t due
run_event-InOrder h z (readable c answers read_errno errno) s t due =
    Leaves-map (Within c s) (InOrder s) _ (λ u w. (w.in_order t, w.same_room))
      (serve-Within h c read_errno errno (read_packet z (s.clients c).compression answers) s)

-- The servers that any events lead to.
pub data Served (h : Host) (z : Zlib) (s : Server) : Server → Type 0 where
  start : Served h z s s
  next :
      {t u : Server} (e : PollEvent)
      → Served h z s t
      → IsDue e t
      → run_event h z e t ≡ going u
      → Served h z s u

new_server-IsTable :
    (clients : ℕ → Client) (link : ℕ → Link) (watched : ℕ → Bool) (lobbies : List Lobby)
    (next_player max_connected : ℕ)
    → max_connected < 2 ^ 32
    → IsTable (new_server clients link watched lobbies next_player max_connected)
unfolding new_server
new_server-IsTable clients link watched lobbies next_player max_connected small = record {
  sized = length-replicate max_connected none;
  small = small;
  counted = sym (taken-none max_connected);
  placed = λ i c e. absurd (empty_slots max_connected i c e);
}

going-InOrder :
    (s : Server) {u : Server} (r : Turn) → r ≡ going u → Leaves (InOrder s) r → InOrder s u
going-InOrder s (going v) e o = subst (InOrder s) (cc e) o
going-InOrder s (exited v) e o = cc e
going-InOrder s (escaped x v) e o = cc e
going-InOrder s stuck e o = cc e
going-InOrder s faulted e o = cc e

Served-InOrder :
    (h : Host) (z : Zlib) (s : Server) {t : Server} → IsTable s → Served h z s t → InOrder s t
Served-InOrder h z s t start = (t, refl)
Served-InOrder h z s t (next {t = u} e before due step) =
    let (ordered, room) = Served-InOrder h z s t before in
    let (ordered', room') = going-InOrder u _ step (run_event-InOrder h z e u ordered due) in
    (ordered', room' ∙ room)

-- Whatever events come, in any order and number, from the server that the constructor leaves on, and
-- whatever the clients send: between two events the count of clients is that of the slots in use and
-- at most `maxConnected`, and every client knows its slot; and where the next event ends the loop by a
-- failure or an exception, that still holds. `new` is taken to give memory that no connected client
-- has.
pub run_event-IsTable :
    (h : Host) (z : Zlib) (clients : ℕ → Client) (link : ℕ → Link) (watched : ℕ → Bool)
    (lobbies : List Lobby) (next_player max_connected : ℕ) (t : Server) (e : PollEvent)
    → max_connected < 2 ^ 32
    → Served h z (new_server clients link watched lobbies next_player max_connected) t
    → IsDue e t
    → IsTable t × (t.connected_count ≤ max_connected) × Leaves IsTable (run_event h z e t)
unfolding new_server
run_event-IsTable h z clients link watched lobbies next_player max_connected t e small served due =
    let first = new_server-IsTable clients link watched lobbies next_player max_connected small in
    let (ordered, room) = Served-InOrder h z _ first served in
    (
      ordered,
      omega (arith, ordered.counted, ordered.sized, taken-le t.connected, room),
      Leaves-map (InOrder t) IsTable _ (λ u o. o.0) (run_event-InOrder h z e t ordered due),
    )
