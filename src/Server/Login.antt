-- ===== src/Server/Login.antt =====
-- The first packets of a client: the handshake, the ping, and what a peer can do with them.
use doom_mc.Prelude.{
  ℕ, zero, suc, ◌+◌, ◌-◌, ◌%◌, ◌^◌, ◌<◌, ◌≡◌, refl, true, none, some, List, [], ◌∷◌, ◌++◌, length,
  get_elem?, arith, ◌∙◌, ap, sym, ltb, if◌then◌else◌, ==_refl, length-append, drop-length-append,
  append-nil, Bool-cases, inl, inr,
}
use doom_mc.PacketIds.{handshake, finish_configuration_2}
use doom_mc.Wire.Cursor
use doom_mc.Wire.Cursor.{at, clear}
use doom_mc.Wire.VarInt.{IsU32, write_var_int, read_var_int}
use doom_mc.Wire.VarInt.RoundTrip.{read-write_var_int}
use doom_mc.Wire.VarInt.Bounds.{write_var_int_shape}
use doom_mc.Lobby.{Lobby, update}
use doom_mc.Server.{
  Client, Server, returned, undefined, Act, ◌then◌, set_client, none_number, play_number,
  config_number,
}
use doom_mc.Server.Joining.{Host, find_room, add_to_lobby}
use doom_mc.Server.Handling.{
  reading, skip_address, handle_handshake, handle_config, handle_packet, set_state, read_address,
  read_next_state,
}

-- The payload of a handshake: the protocol, the address, the two bytes of the port, the next state.
abbrev pub handshake_bytes : ℕ → List ℕ → ℕ → ℕ → ℕ → List ℕ
handshake_bytes protocol address port_high port_low next =
    write_var_int protocol
    ++ (write_var_int (length address)
        ++ ((address ++ port_high ∷ port_low ∷ []) ++ write_var_int next))

reading_done {ℓ} :
    {A : Type ℓ} (m : Cursor.Reader A) (bytes rest : List ℕ) (k : A → List ℕ → Act) (s : Server)
    (a : A)
    → m (at bytes clear) ≡ Cursor.done a (at rest clear)
    → reading m bytes k s ≡ k a rest s
reading_done m bytes rest k s a h = rw (h, reading) refl

skip_address_lem :
    (head tail : List ℕ) (offset address_length : ℕ)
    → offset + address_length + 2 ≡ length head
    → length head < 2 ^ 31
    → skip_address (head ++ tail) offset address_length ≡ tail
unfolding skip_address
skip_address_lem head tail offset address_length e small =
    let sum : (offset + address_length + 2) % 2 ^ 32 ≡ length head = omega arith in
    let below : ltb (length head) (2 ^ 31) ≡ true = ground arith in
    rw (sum, below) (drop-length-append head tail)

apart {ℓ} : {A : Type ℓ} (xs ys zs : List A) → xs ++ (ys ++ zs) ≡ (xs ++ ys) ++ zs
apart [] ys zs = refl
apart (x ∷ xs) ys zs = ap (λ t. x ∷ t) (apart xs ys zs)

-- Behind two numbers and the address with its port.
skip_head :
    (a b t n : List ℕ) (address_length : ℕ)
    → length t ≡ address_length + 2
    → length a + length b + length t < 2 ^ 31
    → skip_address
        (a ++ (b ++ (t ++ n)))
        (length (a ++ (b ++ (t ++ n))) - length (t ++ n))
        address_length
      ≡ n
skip_head a b t n address_length size small =
    let head_size : length (a ++ (b ++ t)) ≡ length a + length b + length t =
      omega (arith, length-append a (b ++ t), length-append b t) in
    let whole : a ++ (b ++ (t ++ n)) ≡ (a ++ (b ++ t)) ++ n =
      ap (λ u. a ++ u) (apart b t n) ∙ apart a (b ++ t) n in
    let offset : length (a ++ (b ++ (t ++ n))) - length (t ++ n) ≡ length a + length b =
      omega (arith, length-append a (b ++ (t ++ n)), length-append b (t ++ n)) in
    rw (offset, whole)
      (skip_address_lem (a ++ (b ++ t)) n (length a + length b) address_length
        (omega (arith, head_size, size)) (omega (arith, head_size, small)))

abbrev shaken : ℕ → ℕ → ℕ → Server → Server
shaken c protocol next s =
    let s1 = set_client c (record (s.clients c) { protocol = protocol }) s in
    set_client c (record (s1.clients c) { state = next }) s1

handshake_run :
    (c protocol next port_high port_low : ℕ) (address : List ℕ) (s : Server)
    → IsU32 protocol
    → IsU32 next
    → length address < 2 ^ 30
    → handle_handshake c (handshake_bytes protocol address port_high port_low next) s
      ≡ returned (shaken c protocol next s)
unfolding handle_handshake read_address read_next_state
handshake_run c protocol next port_high port_low address s protocol_fits next_fits short =
    let a = write_var_int protocol in
    let b = write_var_int (length address) in
    let t = address ++ port_high ∷ port_low ∷ [] in
    let n = write_var_int next in
    let (_, _, a_size) = write_var_int_shape protocol protocol_fits in
    let (_, _, b_size) = write_var_int_shape (length address) (omega arith) in
    let t_size : length t ≡ length address + 2 =
      omega (arith, length-append address (port_high ∷ port_low ∷ [])) in
    let whole = handshake_bytes protocol address port_high port_low next in
    let s1 = set_client c (record (s.clients c) { protocol = protocol }) s in
    let a_back = read-write_var_int protocol (b ++ (t ++ n)) clear protocol_fits in
    let b_back = read-write_var_int (length address) (t ++ n) clear (omega arith) in
    let n_back = read-write_var_int next [] clear next_fits in
    let there =
      skip_head a b t n (length address) t_size (omega (arith, a_size, b_size, t_size, short)) in
    let n_alone = ap (λ (u : List ℕ). read_var_int (at u clear)) (sym (append-nil n)) ∙ n_back in
    reading_done read_var_int (a ++ (b ++ (t ++ n))) (b ++ (t ++ n)) (read_address c whole) s
      protocol a_back
    ∙ reading_done read_var_int (b ++ (t ++ n)) (t ++ n) (read_next_state c whole) s1
        (length address) b_back
    ∙ ap (λ (u : List ℕ). reading read_var_int u (λ next_state more. set_state c next_state) s1)
        there
    ∙ reading_done read_var_int n [] (λ next_state more. set_state c next_state) s1 next n_alone

update_same {ℓ} : {A : Type ℓ} (f : ℕ → A) (k : ℕ) (v : A) → update f k v k ≡ v
update_same f k v = rw ==_refl

shaken_client :
    (c protocol next : ℕ) (s : Server)
    → (shaken c protocol next s).clients c
      ≡ record (s.clients c) { protocol = protocol; state = next }
shaken_client c protocol next s = rw ==_refl refl

then_returned : (a b : Act) {s s' : Server} → a s ≡ returned s' → (a then b) s ≡ b s'
then_returned a b h = rw (h, ◌then◌) refl

dispatch_none :
    (h : Host) (c : ℕ) (bytes : List ℕ) (s : Server)
    → (s.clients c).state ≡ none_number
    → handle_packet h c handshake bytes s ≡ handle_handshake c bytes s
unfolding handle_packet
dispatch_none h c bytes s e = rw (e, handle_packet) refl

pub dispatch_config :
    (h : Host) (c : ℕ) (bytes : List ℕ) (s : Server)
    → (s.clients c).state ≡ config_number
    → handle_packet h c finish_configuration_2 bytes s
      ≡ (set_state c play_number then add_to_lobby h c) s
unfolding handle_packet handle_config
dispatch_config h c bytes s e = rw (e, handle_packet) refl

-- A client that is new and sends a well-formed handshake has the protocol and the state of that
-- handshake, whatever number the state is, and all else is as before.
pub handle_packet-handshake :
    (h : Host) (c protocol next port_high port_low : ℕ) (address : List ℕ) (s : Server)
    → (s.clients c).state ≡ none_number
    → IsU32 protocol
    → IsU32 next
    → length address < 2 ^ 30
    → (s' : Server) × (handle_packet h c handshake
          (handshake_bytes protocol address port_high port_low next)
          s
        ≡ returned s')
      × (s'.clients c ≡ record (s.clients c) { protocol = protocol; state = next })
      × (s'.connected ≡ s.connected)
      × (s'.lobbies ≡ s.lobbies)
      × (s'.sent ≡ s.sent)
handle_packet-handshake h c protocol next port_high port_low address s fresh protocol_fits next_fits
      short =
    (
      shaken c protocol next s,
      dispatch_none h c (handshake_bytes protocol address port_high port_low next) s fresh
          ∙ handshake_run c protocol next port_high port_low address s protocol_fits next_fits
              short,
      shaken_client c protocol next s,
      refl,
      refl,
      refl,
    )

find_room-some :
    (ls : List Lobby) (i : ℕ) (l : Lobby)
    → get_elem? ls i ≡ some l
    → l.player_count < l.max_players
    → (j : ℕ) × (m : Lobby) × (find_room ls ≡ some (j, m))
unfolding find_room
find_room-some [] i l e h = cc
find_room-some (x ∷ ls) zero l e h =
    let same : x ≡ l = cc e in
    let room : ltb x.player_count x.max_players ≡ true =
      ap (λ (t : Lobby). ltb t.player_count t.max_players) same ∙ ground arith in
    (0, x, rw room refl)
find_room-some (x ∷ ls) (suc i) l e h =
    let (j, m, found) = find_room-some ls i l e h in
    elim (Bool-cases (ltb x.player_count x.max_players)) [
      | inl room ↦ (0, x, rw room refl)
      | inr full ↦ (suc j, m, rw (full, found) refl)
    ]

nameless_join :
    (h : Host) (c j : ℕ) (m : Lobby) (s : Server)
    → find_room s.lobbies ≡ some (j, m)
    → (s.clients c).username ≡ none
    → add_to_lobby h c s ≡ undefined
unfolding add_to_lobby
nameless_join h c j m s room nameless = rw (room, add_to_lobby, nameless) refl

-- Two packets bring the server down: a handshake whose next state is CONFIG_STATE, and then the end of
-- the configuration. The client has no name yet, and where a lobby has room `toPlayer` takes the
-- length of NULL.
pub handle_packet-skip-login :
    (h : Host) (c protocol port_high port_low i : ℕ) (address : List ℕ) (l : Lobby) (s : Server)
    → (s.clients c).state ≡ none_number
    → (s.clients c).username ≡ none
    → IsU32 protocol
    → length address < 2 ^ 30
    → get_elem? s.lobbies i ≡ some l
    → l.player_count < l.max_players
    → (handle_packet h c handshake
            (handshake_bytes protocol address port_high port_low config_number)
          then handle_packet h c finish_configuration_2 [])
        s
      ≡ undefined
handle_packet-skip-login h c protocol port_high port_low i address l s fresh nameless fits short
      here free =
    let (j, m, found) = find_room-some s.lobbies i l here free in
    let s1 = shaken c protocol config_number s in
    let first =
      handshake_run c protocol config_number port_high port_low address s fits (omega arith)
        short in
    let nameless' : (s1.clients c).username ≡ none =
      ap (λ (k : Client). k.username) (shaken_client c protocol config_number s) ∙ nameless in
    let configuring : (s1.clients c).state ≡ config_number =
      ap (λ (k : Client). k.state) (shaken_client c protocol config_number s) in
    let s2 = set_client c (record (s1.clients c) { state = play_number }) s1 in
    let nameless_still : (s2.clients c).username ≡ none =
      ap (λ (k : Client). k.username) (update_same s1.clients c _) ∙ nameless' in
    then_returned (handle_packet h c handshake _) (handle_packet h c finish_configuration_2 [])
      (dispatch_none h c _ s fresh ∙ first)
    ∙ dispatch_config h c [] s1 configuring
    ∙ nameless_join h c j m s2 found nameless_still
