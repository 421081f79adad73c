-- ===== src/Protocol.antt =====
-- The reader's ASCII protocol over TCP (internal/reader/protocol): frames, lines and commands.
pub mod Cut
pub mod Framer
pub mod Blanks
pub mod Hex
pub mod Parser
pub mod Commands
