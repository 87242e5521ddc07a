-- ===== src/Probes.antt =====
-- What the probing providers share: a session of one `collect`, the shell helper and the outside.
-- A probe changes the session, and may raise; what was changed before a raise stays.
pub mod System
pub mod Session
pub mod Shell
pub mod Context
pub mod Network
pub mod Redis
