-- ===== src/Text.antt =====
-- Util.h and Util.cpp (server/shared/Utilities). A text is the list of its characters' codes.
pub mod Times
pub mod Tokens
pub mod Letters
pub mod Lines
pub mod Flags
pub mod Names
pub mod Utf8
pub mod Tests
