-- ===== src/Block/Node/HostCalls.antt =====
-- The mount library, blockdevice and the file system calls of the node, which the repository does not
-- hold, as a parameter: an answer may be any function of what was done so far.
use csi_bizflycloud.Base.{Bool, List, String, false, true, ◌∷◌}
use csi_bizflycloud.Base.Int.{ℤ}
use csi_bizflycloud.Base.Go.{Exec, GoError, Result}

pub data HostCall : Type 0 where
  device_sought : String → HostCall
  mount_point_asked : String → HostCall
  mounted : String → String → String → List String → HostCall
  formatted : String → String → String → List String → HostCall
  unmounted : String → HostCall
  path_asked : String → HostCall
  dir_made : String → HostCall
  file_made : String → HostCall
  file_removed : String → HostCall
  device_measured : String → HostCall
  findmnt_run : String → HostCall
  rescanned : String → String → ℤ → HostCall
  fs_resized : String → String → HostCall

-- What was done so far, the last call first.
abbrev pub Acts : Type 0
Acts = List HostCall

-- mount.DeviceStats
pub record DeviceStats : Type 0 where
  pub is_block : Bool
  pub total_bytes : ℤ
  pub available_bytes : ℤ
  pub used_bytes : ℤ
  pub total_inodes : ℤ
  pub available_inodes : ℤ
  pub used_inodes : ℤ

pub record Host : Type 0 where
  -- The path that GetDevicePath gives with its error, which is dropped.
  pub on_device_path : Acts → String → String
  -- IsLikelyNotMountPointAttach
  pub on_not_mount_point : Acts → String → Result GoError Bool
  pub on_mount : Acts → String → String → String → List String → Result GoError (Unit {0})
  pub on_format_and_mount :
      Acts → String → String → String → List String → Result GoError (Unit {0})
  pub on_unmount : Acts → String → Result GoError (Unit {0})
  -- utilpath.Exists
  pub on_exists : Acts → String → Result GoError Bool
  pub on_make_dir : Acts → String → Result GoError (Unit {0})
  pub on_make_file : Acts → String → Result GoError (Unit {0})
  pub on_remove : Acts → String → Result GoError (Unit {0})
  pub on_stats : Acts → String → Result GoError DeviceStats
  -- The output of findmnt at a path.
  pub on_findmnt : Acts → String → Result GoError String
  pub on_rescan : Acts → String → String → ℤ → Result GoError (Unit {0})
  pub on_resize : Acts → String → String → Result GoError (Unit {0})
  -- filepath.Dir, a function of the path whose text nothing reads.
  pub dir : String → String

-- A call of the host.
abbrev pub Act : Type 0 → Type 0
Act A = Exec Acts GoError A

module _ (host : Host) where
  abbrev pub not_mount_point : String → Act Bool
  not_mount_point path h = (host.on_not_mount_point h path, mount_point_asked path ∷ h)

  abbrev pub mount_at : String → String → String → List String → Act (Unit {0})
  mount_at source target fs options h =
      (host.on_mount h source target fs options, mounted source target fs options ∷ h)

  abbrev pub format_and_mount : String → String → String → List String → Act (Unit {0})
  format_and_mount source target fs options h =
      (host.on_format_and_mount h source target fs options, formatted source target fs options ∷ h)

  abbrev pub unmount_path : String → Act (Unit {0})
  unmount_path path h = (host.on_unmount h path, unmounted path ∷ h)

  abbrev pub path_exists : String → Act Bool
  path_exists path h = (host.on_exists h path, path_asked path ∷ h)

  abbrev pub make_dir : String → Act (Unit {0})
  make_dir path h = (host.on_make_dir h path, dir_made path ∷ h)

  abbrev pub make_file : String → Act (Unit {0})
  make_file path h = (host.on_make_file h path, file_made path ∷ h)

  abbrev pub remove_file : String → Act (Unit {0})
  remove_file path h = (host.on_remove h path, file_removed path ∷ h)

  abbrev pub get_device_stats : String → Act DeviceStats
  get_device_stats path h = (host.on_stats h path, device_measured path ∷ h)

  abbrev pub findmnt : String → Act String
  findmnt path h = (host.on_findmnt h path, findmnt_run path ∷ h)

  abbrev pub rescan : String → String → ℤ → Act (Unit {0})
  rescan device path size h = (host.on_rescan h device path size, rescanned device path size ∷ h)

  abbrev pub resize_fs : String → String → Act (Unit {0})
  resize_fs device path h = (host.on_resize h device path, fs_resized device path ∷ h)

abbrev pub formats : HostCall → Bool
formats (formatted source target fs options) = true
formats _ = false
