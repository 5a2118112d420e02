-- ===== src/Module.antt =====
-- module/mod_audio_fork.cpp: the FreeSWITCH module. FreeSWITCH is what it answers and what is asked of
-- it.
pub mod Settings
pub mod Registry
pub mod Start
pub mod Commands
pub mod Status
pub mod Bug
pub mod Lifetime
pub mod Events
mod Tests
