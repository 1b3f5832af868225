-- ===== src/Tests.antt =====
-- The server at work on small inputs.
pub mod Setup
mod Users
mod Rooms
mod Peers
mod Rounds
mod Courses
mod Tables
mod Typing
mod Networks
mod Starts
mod Threads
mod Floods
