-- ===== src/Relay.antt =====
-- The relay's AppLogic1, r-nat-s/app1: its state (app1.h), the handlers of its callbacks (tunnel.cpp,
-- user.cpp, app1.cpp) and what they keep.
pub mod State
pub mod Tunnel
pub mod User
pub mod Step
pub mod Registry
pub mod Directory
pub mod Startup
pub mod Hosting
pub mod Assignment
pub mod Blocking
pub mod Corking
pub mod Ending
pub mod Sessions
pub mod Isolation
