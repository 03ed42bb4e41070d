-- ===== src/Share.antt =====
-- driver/filestorage: the CSI driver of shared file systems.
pub mod Api
pub mod Util
pub mod Shares
pub mod Controller
pub mod Plugin
pub mod Node
pub mod Driver
pub mod Server
pub mod Command
pub mod Lifecycle
