-- ===== src/Platform.antt =====
-- src/lib/platform: what stands between the program and Windows.
pub mod CommandLine
pub mod Win32Error
pub mod Win32
pub mod FileSystem
pub mod SparseCopy
pub mod WslHost
pub mod DiskHandle
pub mod VirtualDisk
pub mod Registry
pub mod Editor
pub mod Clock
