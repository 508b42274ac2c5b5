-- ===== src/Session.antt =====
-- src/session.rs: the life of a session, over a model of the disk and of the operating system.
pub mod World
pub mod Process
pub mod Metadata
pub mod Start
pub mod Stop
pub mod Input
pub mod Lifecycle
pub mod Locking
pub mod Progress
pub mod Supervisor
pub mod Threads
pub mod Launch
pub mod Reports
