-- ===== src/Agent/Isolation.antt =====
-- The sessions of r-nat-c/app1 as the users have them: what the handlers do to the tables, and what
-- comes of it.
pub mod Tables
pub mod Users
