-- ===== src/Agent.antt =====
-- The agent's AppLogic1, r-nat-c/app1: its state (app1.h), the handlers of its callbacks (tunnel.cpp,
-- session_tunnel.cpp, user.cpp, app1.cpp) and what they keep.
pub mod State
pub mod Tunnel
pub mod User
pub mod Clients
pub mod Step
pub mod Isolation
pub mod Startup
pub mod Blocking
pub mod Corking
pub mod Ending
pub mod Sessions
