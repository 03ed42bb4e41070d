-- ===== src/Block/Controller.antt =====
-- driver/blockstorage/controller.go: the controller service of the block storage driver.
pub mod Volumes
pub mod Publish
pub mod Snapshots
pub mod Queries
pub mod Promises
pub mod Service
pub mod Attachment
pub mod Republish
pub mod Detachment
pub mod Retry
pub mod Sizes
pub mod SnapshotLaws
pub mod SnapshotRetry
pub mod SnapshotPromises
pub mod Reads
pub mod Later
pub mod Guards
pub mod Capabilities
