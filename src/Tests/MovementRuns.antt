-- ===== src/Tests/MovementRuns.antt =====
-- A player of src/player.cpp that walks one block, and one that changes the held item.
use doom_mc.Prelude.{◌+◌, ◌-◌, ◌^◌, ◌≡◌, refl, arith, not, [], ◌∷◌, ◌++◌, ◌==◌}
use doom_mc.Result
use doom_mc.GameMap.{GameMap}
use doom_mc.Lobby.{Host, done}
use doom_mc.Lobby.Broadcast.{mailing, with_sent}
use doom_mc.Lobby.Movement.{Conversions, entity_block, handle_position}
use doom_mc.Lobby.Moves.{
  position_bytes, settled, with_player, coordinates, step_packet, handle_position-moves,
}
use doom_mc.Tests.PlayerRuns.{floats, player_on}
use doom_mc.Tests.LobbyRuns.{tavern}

abbrev machine : Host
machine = record { floats = floats; now = 1000; stack = [] }

abbrev conversions : Conversions
conversions = record {
  int_of = λ d. d;
  place = λ d n. d + n;
  int_of_float = λ f. f;
  add_float = λ a b. a + b;
}

-- A map with no room at all: there is no block anywhere.
abbrev void_map : GameMap
void_map = record { width = 0; height = 0; depth = 0; palette = []; blocks = []; spawns = [] }

no_ground : entity_block conversions void_map (player_on 2 6) 0 (2 ^ 32 - 1) 0 ≡ Result.ok 0
unfolding entity_block doom_mc.GameMap.get_block
no_ground = refl

-- Player 1 moves, and player 0 is told.
handle_position-moves_example :
    let l1 = with_player 1 (settled 0 (not (1 == 0)) (player_on 2 6)) tavern in
    handle_position machine conversions void_map 1 (position_bytes 4 5 6 1) tavern
    ≡ done tt (
        with_player 1 (coordinates 4 5 6 (l1.heap 1)) (
          with_sent l1
            ([] ++ mailing l1.heap (step_packet machine (l1.heap 1) 4 5 6 ∷ []) (0 ∷ []))))
handle_position-moves_example =
    handle_position-moves machine conversions void_map 1 4 5 6 1 0 tavern (omega arith)
      (omega arith) (omega arith) no_ground refl (omega arith) (refl, tt)
