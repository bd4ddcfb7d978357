-- ===== src/Cli.antt =====
-- src/cli: the commands.
pub mod Session
pub mod Render
pub mod Lookup
pub mod ListCommand
pub mod Outcomes
pub mod CompactCommand
pub mod OperationCommands
pub mod ConfigCommand
pub mod OrphansCommand
pub mod InfoCommand
pub mod UsageCommand
