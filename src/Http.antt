-- ===== src/Http.antt =====
-- The HTTP side of the server: the responses, and the helpers of mlnserver/lobbyServerUtils.h.
pub mod Response
pub mod Build
pub mod Query
pub mod Template
pub mod Answers
