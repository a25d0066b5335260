-- ===== src/Tests.antt =====
-- Concrete runs of the native streamer at which the theorems are applied.
mod Samples
mod Lifetime
mod Threads
mod Serial
mod Media
mod Play
mod Audio
mod Server
mod Commands
mod Entry
mod Feedback
mod Dot
mod Walk
mod Bus
mod Progress
mod Reports
