-- ===== src/Block/Node.antt =====
-- driver/blockstorage/nodeserver.go: a volume is staged, published and grown on a node.
pub mod HostCalls
pub mod Staging
pub mod Blocks
pub mod Mounts
use csi_bizflycloud.Base.{
  Bool, List, Option, String, [], false, if◌then◌else◌, is_empty, none, not, some, true, ◌∷◌,
}
use csi_bizflycloud.Base.Int.{pos}
use csi_bizflycloud.Base.Text.{trim_space}
use csi_bizflycloud.Base.Go.{
  Exec, Failure, GoError, Result, as_status, as_text, attempt, err, fail, fail_if, format, internal,
  invalid_argument, not_found, ok, pure, status, wrap_err, ◌>>=◌, ◌>>◌,
}
use csi_bizflycloud.Csi.{
  AccessType, CapacityRange, NodeInfo, StatsRequest, VolumeCapability, VolumeUsage, block,
  bytes_unit, inodes_unit, mount, no_access_type, required_of,
}
use csi_bizflycloud.Metadata.{Metadata}
use csi_bizflycloud.Block.Node.HostCalls.{
  Acts, DeviceStats, Host, device_sought, findmnt, format_and_mount, get_device_stats, make_dir,
  make_file, mount_at, not_mount_point, path_exists, remove_file, rescan, resize_fs, unmount_path,
}

-- The requests of NodePublishVolume and NodeStageVolume.
pub record MountRequest : Type 0 where
  pub volume_id : String
  pub staging_target_path : String
  pub target_path : String
  pub volume_capability : Option VolumeCapability
  pub readonly : Bool

abbrev pub NodeRpc : Type 0 → Type 0
NodeRpc A = Exec Acts Failure A

abbrev pub invalid : String → Failure
invalid text = status invalid_argument (format text)

-- `fsType`, ext4 where none is given.
abbrev pub fs_type : AccessType → String
fs_type (mount fs flags) = if is_empty fs then "ext4" else fs
fs_type _ = "ext4"

abbrev pub mount_flags : AccessType → List String
mount_flags (mount fs flags) = flags
mount_flags _ = []

abbrev pub mount_options : Bool → List String
mount_options readonly = "bind" ∷ (if readonly then "ro" else "rw") ∷ []

-- The answer where the mount of a block device has failed: the file was removed, or it was not.
abbrev pub mount_failure : Result GoError (Unit {0}) → Failure
mount_failure (ok u) = status internal (format "Could not mount %q at %q: %v")
mount_failure (err e) = status internal (format "Could not remove mount target %q: %v")

-- The usage that NodeGetVolumeStats answers.
abbrev pub usage_of : DeviceStats → List VolumeUsage
usage_of s =
    if s.is_block
    then record { total = s.total_bytes; available = pos 0; used = pos 0; unit = bytes_unit } ∷ []
    else (record {
      total = s.total_bytes;
      available = s.available_bytes;
      used = s.used_bytes;
      unit = bytes_unit;
    }
        ∷ record {
          total = s.total_inodes;
          available = s.available_inodes;
          used = s.used_inodes;
          unit = inodes_unit;
        }
        ∷ [])

module _ (host : Host) (metadata : Metadata) where
  -- The path that the mount library finds, or the one of the metadata service.
  unfoldable pub get_device_path : String → NodeRpc String
  get_device_path volume h =
      let path = host.on_device_path h volume in
      (ok (if is_empty path then metadata.device_path volume else path), device_sought volume ∷ h)

  abbrev pub find_device : String → NodeRpc String
  find_device volume = do
    path ← get_device_path volume
    fail_if (is_empty path) (status internal (format "Unable to find Device path for volume"))
    pure path

  abbrev pub make_dir_unless : Bool → String → NodeRpc (Unit {0})
  make_dir_unless true path = pure tt
  make_dir_unless false path =
      wrap_err (as_status internal "Could not create dir %q: %v") (make_dir host path)

  -- What follows the call of Mount.
  abbrev pub after_mount : String → Result GoError (Unit {0}) → NodeRpc (Unit {0})
  after_mount target (ok u) = pure tt
  after_mount target (err e) = do
    removed ← attempt (remove_file host target)
    fail (mount_failure removed)

  unfoldable pub node_publish_volume_for_block : MountRequest → NodeRpc (Unit {0})
  node_publish_volume_for_block req = do
    source ← find_device req.volume_id
    exists ← wrap_err (as_text internal) (path_exists host (host.dir req.target_path))
    make_dir_unless exists (host.dir req.target_path)
    wrap_err (as_status internal "Error in making file %v") (make_file host req.target_path)
    done ← attempt (mount_at host source req.target_path "" (mount_options req.readonly))
    after_mount req.target_path done

  abbrev pub bind_if : Bool → MountRequest → AccessType → NodeRpc (Unit {0})
  bind_if false req type = pure tt
  bind_if true req type = wrap_err (as_text internal) (
      mount_at host req.staging_target_path req.target_path (fs_type type)
        (mount_options req.readonly))

  -- A volume with a file system: bound to the target, unless something is mounted there.
  abbrev pub publish_mount : MountRequest → AccessType → NodeRpc (Unit {0})
  publish_mount req type = do
    free ← wrap_err (as_text internal) (not_mount_point host req.target_path)
    bind_if free req type

  abbrev pub publish_as : MountRequest → AccessType → NodeRpc (Unit {0})
  publish_as req block = node_publish_volume_for_block req
  publish_as req (mount fs flags) = publish_mount req (mount fs flags)
  publish_as req no_access_type = publish_mount req no_access_type

  abbrev pub publish_with : MountRequest → Option VolumeCapability → NodeRpc (Unit {0})
  publish_with req none = fail (invalid "NodePublishVolume Volume Capability must be provided")
  publish_with req (some c) = do
    fail_if (is_empty req.staging_target_path)
        (invalid "NodePublishVolume Staging Target Path must be provided")
    publish_as req c.access_type

  unfoldable pub node_publish_volume : MountRequest → NodeRpc (Unit {0})
  node_publish_volume req = do
    fail_if (is_empty req.volume_id) (invalid "NodePublishVolume Volume ID must be provided")
    fail_if (is_empty req.target_path) (invalid "NodePublishVolume Target Path must be provided")
    publish_with req req.volume_capability

  unfoldable pub node_unpublish_volume : String → String → NodeRpc (Unit {0})
  node_unpublish_volume volume target = do
    fail_if (is_empty target) (invalid "NodeUnpublishVolume Target Path must be provided")
    fail_if (is_empty volume) (invalid "NodeUnpublishVolume volumeID must be provided")
    wrap_err (as_text internal) (unmount_path host target)

  abbrev pub format_if : Bool → String → String → AccessType → NodeRpc (Unit {0})
  format_if false device target type = pure tt
  format_if true device target type =
      wrap_err (as_text internal)
        (format_and_mount host device target (fs_type type) (mount_flags type))

  -- A volume with a file system: formatted and mounted, unless something is mounted there.
  abbrev pub stage_mount : String → String → AccessType → NodeRpc (Unit {0})
  stage_mount device target type = do
    free ← wrap_err (as_text internal) (not_mount_point host target)
    format_if free device target type

  abbrev pub stage_as : String → String → AccessType → NodeRpc (Unit {0})
  stage_as device target block = pure tt
  stage_as device target (mount fs flags) = stage_mount device target (mount fs flags)
  stage_as device target no_access_type = stage_mount device target no_access_type

  abbrev pub stage_with : MountRequest → Option VolumeCapability → NodeRpc (Unit {0})
  stage_with req none = fail (invalid "NodeStageVolume Volume Capability must be provided")
  stage_with req (some c) = do
    device ← find_device req.volume_id
    stage_as device req.staging_target_path c.access_type

  unfoldable pub node_stage_volume : MountRequest → NodeRpc (Unit {0})
  node_stage_volume req = do
    fail_if (is_empty req.volume_id) (invalid "Volume Id not provided")
    fail_if (is_empty req.staging_target_path) (invalid "Staging target not provided")
    stage_with req req.volume_capability

  unfoldable pub node_unstage_volume : String → String → NodeRpc (Unit {0})
  node_unstage_volume volume staging = do
    fail_if (is_empty volume) (invalid "Volume Id not provided")
    fail_if (is_empty staging) (invalid "NodeUnstageVolume Staging Target Path must be provided")
    wrap_err (as_text internal) (unmount_path host staging)

  unfoldable pub node_get_volume_stats : StatsRequest → NodeRpc (List VolumeUsage)
  node_get_volume_stats req = do
    fail_if (is_empty req.volume_id) (invalid "Volume Id not provided")
    fail_if (is_empty req.volume_path) (invalid "Volume path not provided")
    exists ←
        wrap_err (as_status internal "failed to check whether volumePath exists: %s")
          (path_exists host req.volume_path)
    fail_if (not exists) (status not_found (format "target: %s not found"))
    stats ←
        wrap_err (as_status internal "failed to get stats by path: %s")
          (get_device_stats host req.volume_path)
    pure (usage_of stats)

  -- The volume's id, its path, and the capacity range.
  unfoldable pub node_expand_volume : String → String → Option CapacityRange → NodeRpc (Unit {0})
  node_expand_volume volume path range = do
    fail_if (is_empty volume) (invalid "Volume ID not provided")
    output ← wrap_err (as_status internal "Could not determine device path: %v") (findmnt host path)
    fail_if (is_empty (trim_space output))
        (status internal (format "Unable to find Device path for volume"))
    wrap_err (as_status internal "Could not verify %q volume size: %v")
        (rescan host (trim_space output) path (required_of range))
    wrap_err (as_status internal "Could not resize volume %q: %v")
        (resize_fs host (trim_space output) path)

-- NodeGetInfo
unfoldable pub node_get_info : Metadata → Result Failure NodeInfo
node_get_info metadata = elim metadata.instance_id [
  | err e ↦ err (status internal (format "NodeGetInfo failed with error %v"))
  | ok id ↦ elim metadata.availability_zone [
    | err e ↦ err (
        status internal
          (format "retrieving availability zone from MetaData service failed with error %v"))
    | ok zone ↦ ok (record {
      node_id = id;
      topology = ("topology.volume.csi.bizflycloud.vn/zone", zone) ∷ [];
      max_volumes_per_node = pos 20;
    })
  ]
]
