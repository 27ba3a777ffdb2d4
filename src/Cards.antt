-- ===== src/Cards.antt =====
-- The deck of Room::shuffleCard (server/game/Room/Room.cpp) and the card arrays that OutCardAi works
-- on (server/game/AI/OutCardAI.cpp).
pub mod Shuffle
pub mod Hand
