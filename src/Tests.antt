-- ===== src/Tests.antt =====
-- Concrete runs, and each property at a concrete input.
mod Data
mod Options
mod Redaction
mod World
mod Network
mod Redis
mod Tracing
mod Shell
mod Decisions
mod Probes
mod Causes
mod Pipeline
mod Loading
mod Gate
mod Granting
mod Plugins
