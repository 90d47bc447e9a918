-- ===== src/Lobby.antt =====
-- src/lobby.cpp: the slots of a lobby, and what it sends to its players. A player is a pointer into
-- `heap`; a packet is recorded with the socket that it went to; `link` is what the operating system
-- answers to a write; `epoll` is the set of sockets that the lobby watches.
pub mod Members
pub mod Broadcast
pub mod Slots
pub mod Timeout
pub mod Free
pub mod Movement
pub mod Dispatch
pub mod Moves
pub mod Joining
pub mod Turned
pub mod Roster
pub mod Sends
pub mod Runs
use doom_mc.Prelude.{
  ℕ, zero, suc, ◌+◌, ◌-◌, ◌%◌, ◌^◌, ◌≡◌, Bool, true, false, ◌||◌, Option, none, some, List, [], ◌∷◌,
  ◌++◌, length, set, ltb, leb, ◌==◌, if◌then◌else◌, replicate,
}
use doom_mc.Result.{Exception, error_code}
use doom_mc.Player.{Player, Floats, Packet}
use doom_mc.Player.Packets.{
  info_remove_packet, info_unlist_packet, remove_entity_packet, player_info_packet,
  spawn_player_packet, spawn_entity_packet, entity_position_packet, entity_rotation_packet,
  entity_position_rotation_packet, message_packet, keep_alive_packet,
}

-- What `write` answers: it succeeds, it fails with `EPIPE`, or it fails otherwise.
pub data Link : Type 0 where
  up closed broken : Link

-- `pipe_open` says that the lobby's pipe takes another byte.
pub record Lobby : Type 0 where
  pub heap : ℕ → Player
  pub link : ℕ → Link
  pub epoll : ℕ → Bool
  pub pipe_open : Bool
  pub sent : List (ℕ × Packet)
  pub deleted : List ℕ
  pub players : List (Option ℕ)
  pub player_count : ℕ
  pub max_players : ℕ

-- A run ends, is left by an exception, or goes on into undefined behaviour.
pub data Run {ℓ} (A : Type ℓ) : Type ℓ where
  done : A → Lobby → Run A
  raised : Exception → Lobby → Run A
  fault : Run A

abbrev pub M {ℓ} : Type ℓ → Type ℓ
M A = Lobby → Run A

infixl 5 ◌>>=◌ ◌>>◌
abbrev pub ◌>>=◌ {ℓ κ} : {A : Type ℓ} {B : Type κ} → M A → (A → M B) → M B
◌>>=◌ m f l = elim (m l) [ done a l' ↦ f a l' | raised e l' ↦ raised e l' | fault ↦ fault ]

abbrev pub ◌>>◌ {ℓ} : {B : Type ℓ} → M (Unit {0}) → M B → M B
m >> k = m >>= λ _. k

abbrev pub skip : M (Unit {0})
skip l = done tt l

abbrev pub update {ℓ} : {A : Type ℓ} → (ℕ → A) → ℕ → A → ℕ → A
update f k v j = if j == k then v else f j

-- What the machine supplies: its floats, `time(NULL)`, and bytes that the stack happens to hold.
pub record Host : Type 0 where
  pub floats : Floats
  pub now : ℕ
  pub stack : List ℕ

-- `client::send` of a player. Where the write fails with `EPIPE` it calls `disconnect`, which sends
-- to the same socket again, and so on without end.
unfoldable pub send : ℕ → Packet → M (Unit {0})
send p packet l = elim (l.link (l.heap p).fd) [
  | up ↦ done tt (record l { sent = l.sent ++ ((l.heap p).fd, packet) ∷ [] })
  | closed ↦ fault
  | broken ↦ raised error_code l
]

unfoldable pub send_all : ℕ → List Packet → M (Unit {0})
send_all p [] = skip
send_all p (packet ∷ packets) = do send p packet; send_all p packets

-- One round of a loop over the players, which skips the empty slots and `p` itself.
unfoldable pub tell : ℕ → List Packet → Option ℕ → M (Unit {0})
tell p packets none = skip
tell p packets (some q) = if q == p then skip else send_all q packets

-- `for(unsigned int i = 0; i < this->playerCount; i++)`: the rounds left, and the slots from `i` on.
unfoldable pub tell_others : ℕ → List (Option ℕ) → ℕ → List Packet → M (Unit {0})
tell_others zero slots p packets l = done tt l
tell_others (suc left) [] p packets l = fault
tell_others (suc left) (slot ∷ slots) p packets l =
    (tell p packets slot >>= λ _. tell_others left slots p packets) l

unfoldable pub broadcast : ℕ → List Packet → M (Unit {0})
broadcast p packets l = tell_others l.player_count l.players p packets l

-- `player::removePlayer`, for each of the others.
abbrev pub removal_packets : Player → List Packet
removal_packets p = info_remove_packet p ∷ info_unlist_packet p ∷ remove_entity_packet p ∷ []

-- `player::spawnPlayer`, for each of the others.
abbrev pub spawn_packets : Host → Player → List Packet
spawn_packets h p =
    player_info_packet h.now p
    ∷ spawn_player_packet h.floats p
    ∷ spawn_entity_packet h.floats h.stack p
    ∷ []

unfoldable pub spawn_player : Host → ℕ → M (Unit {0})
spawn_player h p l = broadcast p (spawn_packets h (l.heap p)) l

-- `if(y <= 0) y = 1;`, on the pattern of an `int`.
abbrev pub at_least_one : ℕ → ℕ
at_least_one y = if y == 0 || leb (2 ^ 31) y then 1 else y

unfoldable pub update_player_position : ℕ → ℕ → ℕ → ℕ → M (Unit {0})
update_player_position p x y z l =
    broadcast p
      (entity_position_packet (l.heap p).eid (x % 2 ^ 16) (at_least_one y % 2 ^ 16) (z % 2 ^ 16)
          (l.heap p).on_ground
        ∷ [])
      l

unfoldable pub update_player_rotation : Host → ℕ → ℕ → ℕ → M (Unit {0})
update_player_rotation h p yaw pitch l =
    broadcast p (entity_rotation_packet h.floats (l.heap p).eid yaw pitch (l.heap p).on_ground ∷ [])
      l

unfoldable pub update_player_position_rotation : Host → ℕ → ℕ → ℕ → ℕ → ℕ → ℕ → M (Unit {0})
update_player_position_rotation h p x y z yaw pitch l =
    broadcast p
      (entity_position_rotation_packet h.floats (l.heap p).eid (x % 2 ^ 16)
          (at_least_one y % 2 ^ 16) (z % 2 ^ 16) yaw pitch (l.heap p).on_ground
        ∷ [])
      l

-- The first step of a `do` block, once its outcome is known.
pub then_done {ℓ} :
    {B : Type ℓ} (m : M (Unit {0})) (k : M B) {l l' : Lobby} → m l ≡ done tt l' → (m >> k) l ≡ k l'
then_done m k h = rw (h, ◌>>◌, ◌>>=◌)

pub then_raised {ℓ} :
    {B : Type ℓ} (m : M (Unit {0})) (k : M B) {l l' : Lobby} {e : Exception}
    → m l ≡ raised e l'
    → (m >> k) l ≡ raised e l'
then_raised m k h = rw (h, ◌>>◌, ◌>>=◌)
