-- ===== src/Model.antt =====
-- src/lib/model: text, sizes, distributions, scans and measurements.
pub mod Text
pub mod Distro
pub mod Size
pub mod Orphans
pub mod WslOutput
pub mod DiskInfo
pub mod Config
pub mod Catalogue
