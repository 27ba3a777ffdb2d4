-- ===== src/Lib.antt =====
-- The landlord card game server: verification library.
--
-- The server (src/server) lets users log in over TCP, gathers them into tables of three,
-- deals cards, runs an auction for the landlord and a round of play, and counts the gold.
-- This library models its core and proves what makes it correct.
--
-- Parts, and the files that model them. A function of the source keeps its name in the
-- model, in lower case with underscores: Player::checkOutCard is check_out_card.
-- + Cards: Room::shuffleCard (src/server/game/Room/Room.cpp) in Cards/Shuffle, and the
--   arrays of OutCardAi (src/server/game/AI/OutCardAI.cpp) in Cards/Hand.
-- + Game: class Player (src/server/game/Player) in Game/Player and its children, one for
--   each step of Player::Update; class Room (src/server/game/Room) and AiPlayerPool
--   (src/server/game/AI) in Game/Room and its children. Game/Types has the data,
--   Game/Store the state monad, Game/Spec the words in which properties are stated, and
--   Game/Room/Holding the rules for who holds a pointer to a player.
-- + Packets: class ByteBuffer (src/server/shared/Packets) in Packets/ByteBuffer and
--   its children: dates, maps, packed GUIDs and texts for the log.
-- + Network: MessageBuffer and Socket (src/server/shared/Networking) and WorldSocket
--   (src/server/game/Server): the reading side in Network/Socket, from the completions of
--   asynchronous reads on, and the write queue in Network/Writing. PacketLog
--   (src/server/game/Server/Protocol) in Network/PacketLog.
-- + Server: WorldSession and the table of its handlers (src/server/game/Server) in
--   Server/Session; World (src/server/game/World) and RoomManager (src/server/game/Room) in
--   Server/World. One pass of the world handles the packets that the sockets have queued,
--   then updates the rooms.
-- + Threads: the queues between threads (src/server/shared/Threading) in Threads/Queues, and
--   RoomUpdater (src/server/game/Room) in Threads/Updater: each thread is where it stands in
--   its loop, and any thread may take the next step.
-- + Timing: Timer.h, EventProcessor in Timing/Events and EventMap in Timing/EventMap
--   (src/server/shared/Utilities).
-- + Logging: Log, Logger and Appender (src/server/shared/Logging): how a message finds its
--   logger and appenders, and how the settings are read. AppenderFile is Logging/File, over a
--   record of the calls it makes of the file system; AppenderConsole is Logging/Console.
-- + Configuration: ConfigMgr (src/server/shared/Configuration) in Configuration; the reading
--   of a file is a parameter.
-- + Text: times, tokens, lines, names, letters, flags and conversions from and to UTF-8 of
--   Util.h and Util.cpp (src/server/shared/Utilities).
-- + Prelude: names, lists and machine words that all parts share.
--
-- State. The game's code works on Player objects that point to one another; the model has
-- a store of numbered objects, and a pointer is a number or null. A step is a function of
-- the whole state that may fault: by a null or dangling pointer, by leaving an array, or
-- by running out of fuel. So a property that names a result also says that nothing faults.
-- A uint32 is a number below 2^32 and an int32 its bit pattern; sums wrap where the code
-- lets them wrap. `_cards` and `_baseCards` are one array of 24 entries, as they lie in
-- memory, since OutCardAi reads from the one into the other.
--
-- Fuel. Player::checkOutPlayer and checkRoundOver call themselves for a neighbour; a call
-- takes one unit, and Player::Update hands out four, one more than a table has seats.
-- Room::UpdateOne takes a player from its list in each round that goes on, so the length
-- of the list is fuel enough. A session's destructor has four units too.
--
-- From outside come the results of rand() as a stream, the settings, the float division of
-- the winning rate, the calendar and the UTF-8 library, and the content of memory that a constructor does not set.
--
-- Not modelled: platform services, the copies of other libraries in dep, the acceptor of
-- connections, the start of the program, and QueryCallback (src/server/shared/Threading),
-- which needs a header that the repository does not have and which nothing uses.
-- RoomManager::Update is modelled with the rooms one after another; that the threads update
-- each room exactly once is shown for RoomUpdater alone.
pub mod Prelude
pub mod Cards
pub mod Packets
pub mod Timing
pub mod Game
pub mod Network
pub mod Server
pub mod Threads
pub mod Text
pub mod Configuration
pub mod Logging
