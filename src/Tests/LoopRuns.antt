-- ===== src/Tests/LoopRuns.antt =====
-- The event loop of src/server.cpp with one client, which has a slot of two.
use doom_mc.Prelude.{
  ℕ, ◌+◌, ◌≤◌, ◌≡◌, refl, inr, arith, false, none, some, List, [], ◌∷◌, ◌++◌, map, length,
  replicate,
}
use doom_mc.Result.{error_code}
use doom_mc.PacketIds.{handshake}
use doom_mc.Wire.VarInt.{write_var_int}
use doom_mc.Framing as Framing
use doom_mc.Framing.Socket.{got, try_again}
use doom_mc.Framing.HeaderLaws.{one_byte}
use doom_mc.Lobby.{Lobby, up}
use doom_mc.Lobby.Members.{find_free}
use doom_mc.Server.{Server, config_number, create_client}
use doom_mc.Server.Login.{handshake_bytes}
use doom_mc.Server.Table.{IsTable, IsNew, connect_at}
use doom_mc.Server.Handling.{handle_packet}
use doom_mc.Server.Loop.{
  hung_up, knocking, readable, going, escaped, stuck, run_event, run, new_server,
}
use doom_mc.Server.Loop.Keeping.{EndsIn, Within}
use doom_mc.Server.Loop.Moving.{handle_packet-Within}
use doom_mc.Server.Loop.Served.{Served, start, next, Leaves, run_event-IsTable}
use doom_mc.Server.Loop.Ending.{run_event-hung_up, run-cut_short}
use doom_mc.Server.Loop.Frames.{run_event-stuck, run_event-handshake}
use doom_mc.Lobby.Runs.{empty_slots}
use doom_mc.Tests.FramingRuns.{stored, byte_by_byte, byte_by_byte-IsDelivery}
use doom_mc.Tests.ServerRuns.{host, empty_lobby, newcomer, hall, hall-IsTable}

handle_packet-Within_example :
    EndsIn
      (Within 4 hall)
      (handle_packet host 4 handshake (handshake_bytes 763 (104 ∷ []) 99 221 2) hall)
handle_packet-Within_example =
    handle_packet-Within host 4 handshake (handshake_bytes 763 (104 ∷ []) 99 221 2) hall

abbrev opened : Server
opened = new_server (λ c. newcomer) (λ fd. up) (λ fd. false) (empty_lobby ∷ []) 50 2

opened-IsNew : (c : ℕ) → IsNew c opened
unfolding new_server
opened-IsNew c i d e = absurd (empty_slots 2 i d e)

knocked : run_event host stored (knocking 4 8) opened ≡ going (connect_at 4 8 0 opened)
unfolding run_event create_client new_server find_free
knocked = refl

knocked-Served : Served host stored opened (connect_at 4 8 0 opened)
knocked-Served = next (knocking 4 8) start (opened-IsNew 4) knocked

run_event-IsTable_example :
    IsTable (connect_at 4 8 0 opened)
    × ((connect_at 4 8 0 opened).connected_count ≤ 2)
    × Leaves IsTable (run_event host stored (hung_up 4) (connect_at 4 8 0 opened))
run_event-IsTable_example =
    run_event-IsTable host stored (λ c. newcomer) (λ fd. up) (λ fd. false) (empty_lobby ∷ []) 50 2
      (connect_at 4 8 0 opened) (hung_up 4) (omega arith) knocked-Served tt

run_event-hung_up_example :
    (s' : Server) × (run_event host stored (hung_up 4) hall ≡ going s')
    × (s'.connected ≡ none ∷ none ∷ [])
    × (s'.connected_count + 1 ≡ 1)
    × (s'.watched 8 ≡ false)
    × (s'.closed_sockets ≡ 8 ∷ [])
    × IsTable s'
run_event-hung_up_example = run_event-hung_up host stored 4 hall hall-IsTable refl

-- The count 300 is 172 and 2, and the 2 is late.
run-cut_short_example :
    run host stored
      (readable 4 (map one_byte (172 ∷ []) ++ (try_again ∷ got 2 [] ∷ [])) 11 11 ∷ hung_up 4 ∷ [])
      hall
    ≡ escaped error_code hall
run-cut_short_example =
    run-cut_short host stored 4 11 11 (172 ∷ []) try_again (got 2 [] ∷ []) (hung_up 4 ∷ []) hall
      ((omega arith, omega arith), tt) (omega arith) refl (omega arith)

-- Ten bytes are announced, two come.
run_event-stuck_example :
    run host stored
      (readable 4
          (map one_byte (write_var_int 10)
            ++ (byte_by_byte (1 ∷ 2 ∷ []) ++ replicate 1000 try_again))
          11
          11
        ∷ hung_up 4
        ∷ [])
      hall
    ≡ stuck
run_event-stuck_example =
    run_event-stuck host stored 4 10 1000 11 11 (1 ∷ 2 ∷ []) (byte_by_byte (1 ∷ 2 ∷ []))
      (hung_up 4 ∷ []) hall (omega arith) (omega arith) (byte_by_byte-IsDelivery (1 ∷ 2 ∷ []))

abbrev shake : List ℕ
shake = handshake ∷ handshake_bytes 763 (104 ∷ 105 ∷ []) 99 221 2

run_event-handshake_example :
    (s' : Server) × (run_event host stored
        (readable 4
          (map one_byte (write_var_int (length shake)) ++ (byte_by_byte shake ++ try_again ∷ []))
          11
          11)
        hall
      ≡ going s')
    × (s'.clients 4 ≡ record newcomer { protocol = 763; state = 2 })
    × (s'.connected ≡ hall.connected)
    × (s'.lobbies ≡ hall.lobbies)
    × (s'.sent ≡ hall.sent)
run_event-handshake_example =
    run_event-handshake host stored 4 763 2 99 221 11 11 (104 ∷ 105 ∷ []) (byte_by_byte shake)
      (try_again ∷ []) hall refl refl (omega arith) (omega arith) (omega arith) (omega arith)
      (inr refl) (byte_by_byte-IsDelivery shake)

-- The client at the end of its configuration.
abbrev configured_hall : Server
configured_hall = record hall {
  clients = λ c. record newcomer { state = config_number; username = some (104 ∷ []) };
}
