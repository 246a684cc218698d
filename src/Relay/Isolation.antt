-- ===== src/Relay/Isolation.antt =====
-- The sessions of r-nat-s/app1 as the services have them: what the handlers do to the tables, and what
-- comes of it.
pub mod Tables
pub mod Handlers
pub mod Gains
pub mod Users
