-- ===== src/Share/Controller.antt =====
-- driver/filestorage/controllerserver.go: the controller service of the file storage driver.
pub mod Pending
pub mod Volumes
pub mod Locks
pub mod Creation
pub mod Expansion
pub mod NoPanic
pub mod Interleaving
pub mod Retry
pub mod Service
