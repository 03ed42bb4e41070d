-- ===== src/Block/Node/Mounts.antt =====
-- driver/blockstorage/nodeserver.go: what the node service promises of the mounts, as a table of paths,
-- and its requests one after the other.
pub mod Effects
pub mod Refinement
use csi_bizflycloud.Base.{
  Bool, List, Option, String, [], false, none, some, true, ℕ, ◌+◌, ◌-◌, ◌==◌, ◌∷◌, ◌≡◌, ◌≤◌, ◌⊎◌,
}
use csi_bizflycloud.Base.Go.{Result, err, ok}
use csi_bizflycloud.Csi.{AccessType, VolumeCapability, block, mount, no_access_type}
use csi_bizflycloud.Metadata.{Metadata}
use csi_bizflycloud.Block.Node.HostCalls.{Acts, Host, HostCall, formatted, mounted, unmounted}
use csi_bizflycloud.Block.Node.{
  MountRequest, NodeRpc, node_publish_volume, node_stage_volume, node_unpublish_volume,
  node_unstage_volume,
}

pub data NodeOp : Type 0 where
  staging publishing : MountRequest → NodeOp
  unpublishing unstaging : String → String → NodeOp

abbrev pub succeeded {ℓ} : {E A : Type ℓ} → Result E A → Bool
succeeded (ok a) = true
succeeded (err e) = false

-- How many mounts there are at each path, one over the other.
abbrev pub Table : Type 0
Table = String → ℕ

-- What becomes of the number of mounts at a path: whether the request has succeeded, the number before
-- and the number after it.
abbrev pub Change : Type 1
Change = Bool → ℕ → ℕ → Type 0

abbrev pub Keeps : Change
Keeps b n k = k ≡ n

-- One mount more; a request that fails may have made it.
abbrev pub Adds : Change
Adds true n k = k ≡ n + 1
Adds false n k = (k ≡ n) ⊎ (k ≡ n + 1)

-- A mount that is there already is enough.
abbrev pub Ensures : Change
Ensures true n k = ((1 ≤ n) × (k ≡ n)) ⊎ (k ≡ n + 1)
Ensures false n k = (k ≡ n) ⊎ (k ≡ n + 1)

-- No mount is left; a request that fails may have taken one away.
abbrev pub Clears : Change
Clears true n k = k ≡ 0
Clears false n k = (k ≡ n) ⊎ (k ≡ n - 1)

-- The change at the path, and none elsewhere.
pub record Changed (path : String) (change : ℕ → ℕ → Type 0) (m after : Table) : Type 0 where
  pub there : change (m path) (after path)
  pub elsewhere : (p : String) → (path == p) ≡ false → after p ≡ m p

-- A block device is not mounted when it is staged, and mounted anew whenever it is published.
abbrev pub staged_type : AccessType → Change
staged_type block = Keeps
staged_type (mount fs flags) = Ensures
staged_type no_access_type = Ensures

abbrev pub published_type : AccessType → Change
published_type block = Adds
published_type (mount fs flags) = Ensures
published_type no_access_type = Ensures

abbrev pub of_type : (AccessType → Change) → Option VolumeCapability → Change
of_type f none = Keeps
of_type f (some c) = f c.access_type

-- The promise: a stage and a publication see to the mount at their path, and their opposites clear it.
abbrev pub Promised : NodeOp → Bool → Table → Table → Type 0
Promised (staging req) b =
    Changed req.staging_target_path (of_type staged_type req.volume_capability b)
Promised (publishing req) b =
    Changed req.target_path (of_type published_type req.volume_capability b)
Promised (unpublishing volume target) b = Changed target (Clears b)
Promised (unstaging volume path) b = Changed path (Clears b)

module _ (host : Host) (metadata : Metadata) where
  abbrev pub node_operate : NodeOp → NodeRpc (Unit {0})
  node_operate (staging req) = node_stage_volume host metadata req
  node_operate (publishing req) = node_publish_volume host metadata req
  node_operate (unpublishing volume target) = node_unpublish_volume host metadata volume target
  node_operate (unstaging volume path) = node_unstage_volume host metadata volume path

  -- What was done, and whether each request has succeeded.
  unfoldable pub node_operate_all : List NodeOp → Acts → List Bool × Acts
  node_operate_all [] h = ([], h)
  node_operate_all (op ∷ ops) h =
      let (r, h1) = node_operate op h in
      let (bs, h2) = node_operate_all ops h1 in (succeeded r ∷ bs, h2)

-- The promise for requests one after the other.
pub data PromisedAll : List NodeOp → Table → List Bool → Table → Type 0 where
  nothing : (m : Table) → PromisedAll [] m [] m
  then :
      (op : NodeOp) (ops : List NodeOp) (answer : Bool) (answers : List Bool) (l m n : Table)
      → Promised op answer l m
      → PromisedAll ops m answers n
      → PromisedAll (op ∷ ops) l (answer ∷ answers) n

abbrev pub is_quiet : HostCall → Bool
is_quiet (mounted source target fs options) = false
is_quiet (formatted source target fs options) = false
is_quiet (unmounted path) = false
is_quiet _ = true

-- What the mount library and mount(8) do to the mounts. A mount that succeeds is one more at its
-- target; one that fails may be there, since a bind mount is mounted first and remounted with its options
-- then. UnmountPath is CleanupMountPoint, which "unmounts the given path and deletes the remaining
-- directory if successful": nothing is mounted at a path that is gone, and where it fails it has
-- unmounted once at most. The query is not
-- exact, since it does not see bind mounts; it only does not answer that a mount is there where none is.
pub record IsTable (host : Host) (table : Acts → Table) : Type 0 where
  pub asked :
      (h : Acts) (path : String) → host.on_not_mount_point h path ≡ ok false → 1 ≤ table h path
  pub mounts :
      (h : Acts) (source target fs : String) (options : List String)
      → Changed target
          (Adds (succeeded (host.on_mount h source target fs options)))
          (table h)
          (table (mounted source target fs options ∷ h))
  pub formats :
      (h : Acts) (source target fs : String) (options : List String)
      → Changed target
          (Adds (succeeded (host.on_format_and_mount h source target fs options)))
          (table h)
          (table (formatted source target fs options ∷ h))
  pub unmounts :
      (h : Acts) (path : String)
      → Changed path
          (Clears (succeeded (host.on_unmount h path)))
          (table h)
          (table (unmounted path ∷ h))
  pub quiet : (h : Acts) (c : HostCall) → is_quiet c ≡ true → table (c ∷ h) ≡ table h
