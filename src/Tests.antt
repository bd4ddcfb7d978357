-- ===== src/Tests.antt =====
-- Runs on concrete inputs, and the theorems at inputs that meet their hypotheses.
mod Machine
mod Relinking
mod Moving
mod Lifecycle
mod Compacting
mod Reading
mod Settings
mod Commands
mod Scanning
mod Volume
mod Children
mod Orphans
mod Keys
