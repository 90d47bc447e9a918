-- ===== src/Lib.antt =====
-- doomMC is a Minecraft server that runs Doom maps. This library models the parts of it that move
-- bytes, blocks and players; paths are from the repository's root.
--
-- Wire (src/C/mcTypes.c, src/C/mcTypes.h). What the server writes and reads. A buffer and its index
-- are a Cursor, the bytes that are left, beside errno; a read past the end is a fault. Wire/VarInt is
-- writeVarInt and readVarInt; Wire/Endian the integers and floats of both orders, on bit patterns;
-- Wire/Strings writeString, readString, the byte arrays and readStringArray; Wire/BitSet the bit sets;
-- Wire/Packed writePackedLong and writePackedArray, with Wire/Quotient the count of its longs; Wire/Paletted the writers of paletted containers,
-- sections and slots, and in Wire/Paletted/Reading readPalettedContainer; Wire/Position the macros on
-- position; Wire/Uuid createOffline, where MD5 is an argument.
--
-- Framing (src/C/networkingMc.c, src/C/networkingMc.h). parsePacket on the body of a frame;
-- Framing/Socket is readSocket and readPacket on the answers that the calls of read get, and
-- Framing/Sending is sendPacket with the buffers that it hands to write. zlib is a record of functions.
--
-- GameMap (src/map/map.cpp, src/map/map.hpp). The block array of a map, with getBlock, getSection,
-- getSpawn and getBound. A method returns a Result: a value, an exception, or undefined behaviour.
--
-- Udmf (src/map/udmf.cpp). The text of a Doom map: Udmf holds the structures and what a key sets,
-- Udmf/Text the pass over the comments and parseBlock, Udmf/Blocks the loop over the blocks,
-- Udmf/Layout the move to the grid, Udmf/Drawing the walls, Udmf/Building the sectors, the spawns and
-- the constructor, which gives a GameMap. atoi, atof and the arithmetic on floats are arguments.
--
-- RegionMap (src/map/mcr.cpp). The merge of the sections of a region file into one palette and one
-- array; what the region parser finds in the file is an argument.
--
-- PacketIds (src/C/packetDefinitions.h). The packet ids that the server uses.
--
-- Player (src/player.cpp, src/player.hpp, src/client.hpp, src/entity.hpp). The fields of a player, and
-- in Player/Packets and Player/Chunk the bytes of the packets that it sends, with the buffer each is
-- built in; Player/Start is startPlay up to the player list, Player/Arrival what follows: the spawn,
-- the chunks of the map, and the player's own state, and Player/Joining puts the two together.
--
-- Lobby (src/lobby.cpp). The slots of a lobby, the set of sockets that it watches, and what it has
-- sent. An operation is a function from a lobby to a Run: done, left by an exception, or a fault.
-- Lobby holds the broadcasts, Lobby/Members the operations that change the slots, with startPlay as an
-- argument, Lobby/Timeout the disconnect and the keep-alive answer of a player (src/player.cpp,
-- src/client.cpp), Lobby/Movement and Lobby/Dispatch player::handlePacket, with entity::getBlock
-- (src/entity.cpp). Lobby/Roster is who is in a lobby, and Lobby/Runs its operations as a step
-- relation.
--
-- Server (src/server.cpp, src/client.cpp). The table of connected clients and a client's send and
-- disconnect; Server/Handling is client::handlePacket with what it sends, Server/Joining addToLobby
-- and toPlayer, which hand a client over to a Lobby. An operation is a function from a server to a
-- Step: returned, threw, or undefined. Server/Loop is server::run and getPacket: an event that
-- epoll_wait reports holds what the system answers, the reads of the socket and errno among it, and
-- run_event puts Framing, Server/Handling and Lobby together.
--
-- Weapons (src/weapons.cpp, src/doom.hpp). The tables of ammunition and weapons, and weapon::getNBT;
-- the tags of the nbt library are arguments.
--
-- Bounds and loops. Numbers are natural numbers; a machine integer is its bit pattern and wraps where
-- the code wraps. writeVarInt recurs on the accessibility of <; readVarInt stops after five bytes as
-- the code does; the loops of readSocket recur on the answers that its reads get, those over a text on
-- the text; every other loop recurs on the rounds that its bound leaves. No definition runs on fuel
-- that could be too little.
--
-- Not modelled. Zlib, cJSON, nbt, spdlog, epoll, sockets and curl are code of others: a socket is what
-- a read of it or a write to it answers, epoll the set of the sockets in it, and float operations are
-- arguments. The region parser in src/C/regionParser.c is a copy of another project's code, an argument
-- too. The request for a skin in src/C/networkingMc.c, the readers of NBT and of slots, the start-up of
-- the server, and the threads are not modelled. In the text of a UDMF map, a block whose type has no
-- space before it is a fault: where the search for that space goes on to is not modelled.
pub mod Prelude
pub mod Wire
pub mod Result
pub mod Framing
pub mod GameMap
pub mod PacketIds
pub mod Player
pub mod Lobby
pub mod Server
pub mod Weapons
pub mod Udmf
pub mod RegionMap
mod Tests
