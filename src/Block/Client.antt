-- ===== src/Block/Client.antt =====
-- driver/blockstorage/client.go: queries over the cloud API, and the waits for its state changes.
pub mod Waits
pub mod SnapshotWait
use csi_bizflycloud.Base.{
  String, Bool, false, not, ◌&&◌, Option, none, some, List, [], ◌∷◌, first, select, head?, ◌==◌,
  if◌then◌else◌,
}
use csi_bizflycloud.Base.Go.{
  GoError, plain, err_wait_timeout, errors_is, error_eq, Result, ok, err, Exec, pure, fail, ◌>>=◌,
}
use csi_bizflycloud.Wait.{Backoff, Wait}
use csi_bizflycloud.Cloud.{
  Cloud, History, Api, Volume, Attachment, Snapshot, list_volumes, get_volume, list_snapshots_api,
  get_snapshot,
}

abbrev pub volume_in_use_status : String
volume_in_use_status = "in-use"

abbrev pub snapshot_available_status : String
snapshot_available_status = "available"

-- diskAttachInitDelay, diskAttachFactor, diskAttachSteps
abbrev pub disk_attach_backoff : Backoff
disk_attach_backoff = record { duration = 1; factor = 12; steps = 15 }

-- diskDetachInitDelay, diskDetachFactor, diskDetachSteps
abbrev pub disk_detach_backoff : Backoff
disk_detach_backoff = record { duration = 1; factor = 12; steps = 13 }

abbrev pub or_error {ℓ} : {S E A : Type ℓ} → E → Option A → Exec S E A
or_error e none = fail e
or_error e (some a) = pure a

-- The loop of GetVolumesByName.
abbrev pub named : String → List Volume → Option Volume
named name = first (λ v. v.name == name)

-- The loop over the attachments in GetAttachmentDiskPath.
abbrev pub device_to : String → List Attachment → Option String
device_to server [] = none
device_to server (a ∷ more) =
    let rest = device_to server more in if a.server_id == server then some a.device else rest

abbrev pub snapshots_of : String → String → List Snapshot → List Snapshot
snapshots_of volume name = select (λ s. s.volume_id == volume && s.name == name)

abbrev pub first_is : String → Option Attachment → Bool
first_is server none = false
first_is server (some a) = server == a.server_id

module _ (cloud : Cloud) where
  unfoldable pub get_volumes_by_name : String → Api Volume
  get_volumes_by_name name = do
    volumes ← list_volumes cloud
    or_error (plain "volume not found") (named name volumes)

  abbrev pub device_for : String → Volume → Api String
  device_for server v =
      if v.state == volume_in_use_status
      then or_error (plain "attachment Disk Patch not found") (device_to server v.attachments)
      else fail (plain "can not get device path of volume %s, its status is %s ")

  unfoldable pub get_attachment_disk_path : String → String → Api String
  get_attachment_disk_path server volume = do v ← get_volume cloud volume; device_for server v

  -- Only the first attachment is looked at.
  unfoldable pub disk_is_attached : String → String → Api Bool
  disk_is_attached server volume = do
    v ← get_volume cloud volume
    pure (first_is server (head? v.attachments))

  unfoldable pub get_snapshot_by_name_and_volume_id : String → String → Api (List Snapshot)
  get_snapshot_by_name_and_volume_id volume name = do
    snapshots ← list_snapshots_api cloud
    pure (snapshots_of volume name snapshots)

  unfoldable pub is_detached : String → String → Api Bool
  is_detached server volume = do attached ← disk_is_attached server volume; pure (not attached)

  unfoldable pub is_ready : String → Api Bool
  is_ready snapshot = do
    s ← get_snapshot cloud snapshot
    pure (s.state == snapshot_available_status)

-- The test on the error of `wait.ExponentialBackoff`, and the error that replaces a timeout.
abbrev pub renamed :
    (GoError → Bool) → String → Result GoError (Unit {0}) → Result GoError (Unit {0})
renamed is_timeout text (ok u) = ok u
renamed is_timeout text (err e) = if is_timeout e then err (plain text) else err e

module _ (cloud : Cloud) (wait : Wait) where
  abbrev polling : Backoff → Api Bool → (GoError → Bool) → String → Api (Unit {0})
  polling b check is_timeout text h =
      let (r, h') = wait.exponential_backoff History b check h in (renamed is_timeout text r, h')

  unfoldable pub wait_disk_attached : String → String → Api (Unit {0})
  wait_disk_attached server volume =
      polling disk_attach_backoff (disk_is_attached cloud server volume)
        (λ e. errors_is e err_wait_timeout)
        "volume %q failed to be attached within the alloted time"

  unfoldable pub wait_disk_detached : String → String → Api (Unit {0})
  wait_disk_detached server volume =
      polling disk_detach_backoff (is_detached cloud server volume)
        (λ e. error_eq e err_wait_timeout) "volume %q failed to detach within the alloted time"

  unfoldable pub wait_snapshot_ready : String → Api (Unit {0})
  wait_snapshot_ready snapshot =
      polling disk_detach_backoff (is_ready cloud snapshot) (λ e. errors_is e err_wait_timeout)
        "timeout, Snapshot  %s is still not Ready %v"
