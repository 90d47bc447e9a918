-- ===== src/Server/Loop/Moving.antt =====
-- `client::handlePacket` as a step of one client: what it can reach, and how the client's state moves.
use doom_mc.Prelude.{
  ℕ, ◌≡◌, refl, Option, none, some, List, ◌==◌, if◌then◌else◌, Bool-cases, inl, inr, ℕ_discrete,
  ==_ne,
}
use doom_mc.Result.{invalid_argument}
use doom_mc.PacketIds.{
  handshake, status_request, ping_request, ping_response, login_start, login_acknowledged,
  registry_data, finish_configuration_2,
}
use doom_mc.Wire.VarInt.{read_var_int}
use doom_mc.Wire.Endian.{store, read_long}
use doom_mc.Wire.Strings.{read_string}
use doom_mc.Wire.Uuid.{create_offline}
use doom_mc.Player.{Player}
use doom_mc.Lobby.{Lobby, Run, done, raised, fault, update}
use doom_mc.Lobby.Members.{add_player}
use doom_mc.Server.{
  Client, Server, returned, threw, Act, ◌then◌, set_client, send_client, none_number, status_number,
  login_number, play_number, config_number,
}
use doom_mc.Server.Joining.{Host, c_string, find_room, to_player, enter_lobby, add_to_lobby}
use doom_mc.Server.Handling.{
  reading, read_uuid, set_state, read_next_state, set_protocol, read_address, handle_handshake,
  handle_status, without_config, send_registry_codec, send_tags, send_feature_flags,
  client_compression, start_compression, set_login, log_in, handle_login, handle_config,
  handle_packet,
}
use doom_mc.Server.Loop.Keeping.{
  Follows, Follows-same, greeted, acknowledged, logged_in, configured, EndsIn, Within, Within-refl,
  Keeps, then-Keeps, if-Keeps, reading-Keeps, write-Within, aside-Within,
}
use doom_mc.Server.Loop.Handlers.{send_client-Keeps}

module _ (c : ℕ) (s : Server) where
  set_state-Keeps : (n : ℕ) → Follows (s.clients c).state n → Keeps c s (set_state c n)
  set_state-Keeps n move t w =
      write-Within c s (record (t.clients c) { state = n }) t w refl refl move

  -- A write to `c` that keeps its socket, its index and its state.
  field-Keeps :
      (f : Client → Client)
      → ((k : Client) → (f k).fd ≡ k.fd)
      → ((k : Client) → (f k).index ≡ k.index)
      → ((k : Client) → (f k).state ≡ k.state)
      → Keeps c s (λ t. returned (set_client c (f (t.clients c)) t))
  field-Keeps f fd index state t w =
      write-Within c s (f (t.clients c)) t w (fd _) (index _)
        (Follows-same (s.clients c).state (t.clients c).state _ (state _) w.follows)

  handle_handshake-Keeps :
      (bytes : List ℕ) → (s.clients c).state ≡ none_number → Keeps c s (handle_handshake c bytes)
  unfolding handle_handshake read_address read_next_state
  handle_handshake-Keeps bytes at_start =
      let next : (address_length : ℕ) (rest : List ℕ)
          → Keeps c s (read_next_state c bytes address_length rest) =
        λ address_length rest.
          reading-Keeps c s read_var_int _ _ (λ n more. set_state-Keeps n (greeted at_start)) in
      reading-Keeps c s read_var_int bytes (read_address c bytes) (λ protocol rest.
        then-Keeps c s (set_protocol c protocol) _
          (field-Keeps (λ (k : Client). record k { protocol = protocol }) (λ k. refl) (λ k. refl)
            (λ k. refl))
          (reading-Keeps c s read_var_int rest (read_next_state c bytes) next))

  handle_status-Keeps :
      (h : Host) (id : ℕ) (bytes : List ℕ) → Keeps c s (handle_status h c id bytes)
  unfolding handle_status
  handle_status-Keeps h id bytes t w = elim (Bool-cases (id == status_request)) [
    | inl e ↦ rw e (send_client-Keeps c s _ t w)
    | inr e ↦ rw e (elim (Bool-cases (id == ping_request)) [
      | inl f ↦ rw f (
          reading-Keeps c s read_long bytes
            (λ val rest. send_client c (record { id = ping_response; payload = store 8 val }))
            (λ val rest. send_client-Keeps c s _) t w)
      | inr f ↦ rw f w
    ])
  ]

  enter_by :
      (h : Host) (i : ℕ) (l : Lobby) (player : Player) (t : Server) (r : Run (Unit {0}))
      → add_player h.start_play t.next_player
          (record l { heap = update l.heap t.next_player player })
        ≡ r
      → Within c s t
      → EndsIn (Within c s) (enter_lobby h i l player t)
  unfolding enter_lobby
  enter_by h i l player t (done a l') e w =
      rw (e, enter_lobby) (aside-Within c s t _ w refl refl refl refl)
  enter_by h i l player t (raised x l') e w =
      rw (e, enter_lobby) (aside-Within c s t _ w refl refl refl refl)
  enter_by h i l player t fault e w = rw (e, enter_lobby) tt

  room_by :
      (h : Host) (t : Server) (room : Option (ℕ × Lobby)) (name : Option (List ℕ))
      → find_room t.lobbies ≡ room
      → (t.clients c).username ≡ name
      → Within c s t
      → EndsIn (Within c s) (add_to_lobby h c t)
  unfolding add_to_lobby
  room_by h t none name e f w = rw (e, add_to_lobby) w
  room_by h t (some (i, l)) none e f w = rw (e, add_to_lobby, f) tt
  room_by h t (some (i, l)) (some name) e f w =
      rw (e, add_to_lobby, f) (enter_by h i l (to_player h (t.clients c) name) t _ refl w)

  add_to_lobby-Keeps : (h : Host) → Keeps c s (add_to_lobby h c)
  add_to_lobby-Keeps h t w = room_by h t (find_room t.lobbies) (t.clients c).username refl refl w

  send_registry_codec-Keeps : (h : Host) → Keeps c s (send_registry_codec h c)
  unfolding send_registry_codec
  send_registry_codec-Keeps h t w =
      if-Keeps c s ((t.clients c).state == config_number)
        (send_client c (record { id = registry_data; payload = h.registry }))
        (threw invalid_argument) t (send_client-Keeps c s _ t w) w

  send_tags-Keeps : (h : Host) → Keeps c s (send_tags h c)
  unfolding send_tags
  send_tags-Keeps h t w = elim (Bool-cases ((t.clients c).state == config_number)) [
    | inl e ↦ rw e (send_client-Keeps c s _ t w)
    | inr e ↦ rw e (elim (Bool-cases ((t.clients c).state == play_number)) [
      | inl f ↦ rw f (send_client-Keeps c s _ t w)
      | inr f ↦ rw f w
    ])
  ]

  send_feature_flags-Keeps : Keeps c s (send_feature_flags c)
  unfolding send_feature_flags
  send_feature_flags-Keeps t w = send_client-Keeps c s _ t w

  play-Keeps :
      (h : Host)
      → Follows (s.clients c).state play_number
      → Keeps c s (set_state c play_number then add_to_lobby h c)
  play-Keeps h move =
      then-Keeps c s (set_state c play_number) (add_to_lobby h c) (set_state-Keeps play_number move)
        (add_to_lobby-Keeps h)

  log_in-Keeps :
      (h : Host) (name : List ℕ) (uuid : ℕ)
      → (s.clients c).state ≡ login_number
      → Keeps c s (log_in h c name uuid)
  unfolding log_in
  log_in-Keeps h name uuid at_login =
      let uuid' = if uuid == 0 then create_offline h.md5 (c_string name) else uuid in
      let play : Act = set_state c play_number then add_to_lobby h c in
      then-Keeps c s (set_login c name uuid') _
        (field-Keeps (λ (k : Client). record k { username = some name; uuid = uuid' }) (λ k. refl)
          (λ k. refl) (λ k. refl))
        (then-Keeps c s (send_client c _) _ (send_client-Keeps c s _) (λ t w.
          if-Keeps c s (without_config (t.clients c).protocol) play returned t
            (play-Keeps h (logged_in at_login refl) t w) w))

  handle_login-Keeps :
      (h : Host) (id : ℕ) (bytes : List ℕ)
      → (s.clients c).state ≡ login_number
      → Keeps c s (handle_login h c id bytes)
  unfolding handle_login
  handle_login-Keeps h id bytes at_login t w =
      let told : List ℕ → List ℕ → Act =
        λ name rest. reading read_uuid rest (λ uuid more. log_in h c name uuid) in
      elim (Bool-cases (id == login_start)) [
        | inl e ↦ rw e (
            then-Keeps c s (send_client c _) _ (send_client-Keeps c s _)
              (then-Keeps c s (start_compression c) (reading read_string bytes told)
                (field-Keeps (λ (k : Client). record k { compression = client_compression })
                  (λ k. refl) (λ k. refl) (λ k. refl))
                (reading-Keeps c s read_string bytes told (λ name rest.
                  reading-Keeps c s read_uuid rest (λ uuid more. log_in h c name uuid)
                    (λ uuid more. log_in-Keeps h name uuid at_login))))
              t w)
        | inr e ↦ rw e (elim (Bool-cases (id == login_acknowledged)) [
          | inl f ↦ rw f (
              then-Keeps c s (set_state c config_number) _
                (set_state-Keeps config_number (acknowledged at_login refl))
                (then-Keeps c s (send_registry_codec h c) _ (send_registry_codec-Keeps h) (
                  then-Keeps c s (send_tags h c) _ (send_tags-Keeps h) (
                    then-Keeps c s (send_feature_flags c) _ send_feature_flags-Keeps
                      (send_client-Keeps c s _))))
                t w)
          | inr f ↦ rw f w
        ])
      ]

  handle_config-Keeps :
      (h : Host) (id : ℕ) → (s.clients c).state ≡ config_number → Keeps c s (handle_config h c id)
  unfolding handle_config
  handle_config-Keeps h id configuring t w =
      if-Keeps c s (id == finish_configuration_2) (set_state c play_number then add_to_lobby h c)
        returned t (play-Keeps h (configured configuring refl) t w) w

-- However a call of `handlePacket` of a client ends, if it ends, the table of clients is in order where
-- it was before, no other client has changed, the client has its socket, and its state is the old one
-- or follows it: any number whatever follows NONE_STATE, since the handshake casts what it reads,
-- CONFIG_STATE and PLAY_STATE follow LOGIN_STATE, and PLAY_STATE follows CONFIG_STATE. No packet leads
-- out of STATUS_STATE or PLAY_STATE, or out of a number that is no state.
pub handle_packet-Within :
    (h : Host) (c id : ℕ) (bytes : List ℕ) (s : Server)
    → EndsIn (Within c s) (handle_packet h c id bytes s)
unfolding handle_packet
handle_packet-Within h c id bytes s =
    let w = Within-refl c s in
    elim (ℕ_discrete (s.clients c).state none_number) [
      | yes e ↦
          rw (e, handle_packet)
            (if-Keeps c s (id == handshake) (handle_handshake c bytes) returned s
              (handle_handshake-Keeps c s bytes e s w) w)
      | no not_new ↦ elim (ℕ_discrete (s.clients c).state status_number) [
        | yes e ↦ rw (e, handle_packet) (handle_status-Keeps c s h id bytes s w)
        | no not_status ↦ elim (ℕ_discrete (s.clients c).state login_number) [
          | yes e ↦ rw (e, handle_packet) (handle_login-Keeps c s h id bytes e s w)
          | no not_login ↦ elim (ℕ_discrete (s.clients c).state config_number) [
            | yes e ↦ rw (e, handle_packet) (handle_config-Keeps c s h id e s w)
            | no not_config ↦
                rw
                  (
                    ==_ne _ _ not_new,
                    ==_ne _ _ not_status,
                    ==_ne _ _ not_login,
                    ==_ne _ _ not_config,
                  )
                  w
          ]
        ]
      ]
    ]
