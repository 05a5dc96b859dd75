-- ===== src/Handlers.antt =====
-- mlnserver/myPacketHandler: the request handlers and the paths that they are registered under.
pub mod Macros
pub mod Account
pub mod Player
