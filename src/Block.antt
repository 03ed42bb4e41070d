-- ===== src/Block.antt =====
-- driver/blockstorage: the CSI driver of block volumes.
pub mod Client
pub mod Controller
pub mod Node
pub mod Driver
pub mod Server
pub mod Command
