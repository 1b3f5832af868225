-- ===== src/Server.antt =====
-- server.c: the state of `main`, its request handlers and its loop.
pub mod State
pub mod Chat
pub mod Users
pub mod Say
pub mod Rooms
pub mod Peers
pub mod Start
pub mod CommandLine
pub mod Round
pub mod Spec
