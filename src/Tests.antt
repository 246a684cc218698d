-- ===== src/Tests.antt =====
-- The theorems at concrete inputs, module by module.
mod RelayTests
mod AgentTests
mod NetworkTests
mod RawTests
mod StartupTests
mod ClientTests
mod HostingTests
mod LinkTests
mod StreamTests
