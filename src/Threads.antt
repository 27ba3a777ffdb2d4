-- ===== src/Threads.antt =====
-- What the threads of the server share (server/shared/Threading, server/game/Room/RoomUpdater.cpp).
-- A method that holds its lock from beginning to end is one step.
pub mod Queues
pub mod Updater
pub mod Tests
