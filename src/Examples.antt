-- ===== src/Examples.antt =====
-- The theorems of the development, each applied to a concrete case.
mod Sample
mod Parsers
mod Calendar
mod Monitors
mod Clusters
mod Handlers
mod Lookups
mod Takeovers
mod Parts
mod Disks
mod Wire
mod Sorting
mod Faces
mod Detections
mod Exchanges
