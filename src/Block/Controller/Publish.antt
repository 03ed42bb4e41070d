-- ===== src/Block/Controller/Publish.antt =====
-- driver/blockstorage/controller.go, ControllerPublishVolume and ControllerUnpublishVolume: a volume is
-- attached to a server and detached from it.
use csi_bizflycloud.Base.{String, Bool, true, false, List, any, is_empty, ◌==◌, if◌then◌else◌}
use csi_bizflycloud.Base.Go.{
  GoError, err_not_found, errors_is, invalid_argument, not_found, internal, Failure, status, format,
  Result, ok, err, pure, fail, fail_if, attempt, wrap_err, as_status, ◌>>=◌, ◌>>◌,
}
use csi_bizflycloud.Wait.{Wait}
use csi_bizflycloud.Cloud.{Cloud, get_volume, get_server, attach_volume, detach_volume}
use csi_bizflycloud.Block.Client.{get_attachment_disk_path, wait_disk_attached, wait_disk_detached}
use csi_bizflycloud.Block.Controller.Volumes.{Rpc, forgive_not_found}

unfoldable pub volume_in_server : String → List String → Bool
volume_in_server volume attached = any (λ a. a == volume) attached

-- NotFound for an object that is not there, Internal for any other error.
abbrev pub not_found_or_internal : String → String → GoError → Failure
not_found_or_internal missing other e =
    if errors_is e err_not_found
    then status not_found (format missing)
    else status internal (format other)

module _ (cloud : Cloud) (wait : Wait) where
  -- The statements between the check and the label `publishVolume`.
  abbrev pub attach_unless : Bool → String → String → Rpc (Unit {0})
  attach_unless true volume instance_id = pure tt
  attach_unless false volume instance_id = do
    wrap_err (as_status internal "ControllerPublishVolume Attach Volume failed with error %v")
        (attach_volume cloud volume instance_id)
    wrap_err (as_status internal "ControllerPublishVolume failed with error %v")
        (wait_disk_attached cloud wait instance_id volume)

  -- From the label on: the device path is looked up, whether or not Attach was called.
  unfoldable pub attach_and_find : Bool → String → String → Rpc String
  attach_and_find attached volume instance_id = do
    attach_unless attached volume instance_id
    wrap_err (as_status internal "ControllerPublishVolume failed with error %v")
        (get_attachment_disk_path cloud instance_id volume)

  -- The answer is the device path, the one entry of the publish context.
  unfoldable pub controller_publish_volume : String → String → Rpc String
  unfolding volume_in_server
  controller_publish_volume volume instance_id = do
    fail_if (is_empty volume)
        (status invalid_argument (format "ControllerPublishVolume Volume ID must be provided"))
    fail_if (is_empty instance_id)
        (status invalid_argument (format "ControllerPublishVolume Instance ID must be provided"))
    wrap_err
        (not_found_or_internal "ControllerPublishVolume Volume not found"
          "ControllerPublishVolume get volume failed with error %v")
        (get_volume cloud volume)
    server ←
        wrap_err
          (not_found_or_internal "ControllerPublishVolume Instance not found"
            "ControllerPublishVolume GetInstanceByID failed with error %v")
          (get_server cloud instance_id)
    attach_and_find (volume_in_server volume server) volume instance_id

  -- What follows a call of Detach.
  abbrev pub after_detach : String → String → Result GoError (Unit {0}) → Rpc (Unit {0})
  after_detach volume instance_id (err e) =
      forgive_not_found
        (as_status internal "ControllerUnpublishVolume Detach Volume failed with error %v") (err e)
  after_detach volume instance_id (ok u) = do
    waited ← attempt (wait_disk_detached cloud wait instance_id volume)
    forgive_not_found (as_status internal "ControllerUnpublishVolume failed with error %v") waited

  abbrev pub detach_if : Bool → String → String → Rpc (Unit {0})
  detach_if false volume instance_id = pure tt
  detach_if true volume instance_id = do
    detached ← attempt (detach_volume cloud volume instance_id)
    after_detach volume instance_id detached

  -- What follows the query of the server.
  abbrev pub detach_from : String → String → Result GoError (List String) → Rpc (Unit {0})
  detach_from volume instance_id (ok server) =
      detach_if (volume_in_server volume server) volume instance_id
  detach_from volume instance_id (err e) =
      if errors_is e err_not_found
      then pure tt
      else fail (
          status internal (format "ControllerUnpublishVolume GetInstanceByID failed with error %v"))

  unfoldable pub controller_unpublish_volume : String → String → Rpc (Unit {0})
  unfolding volume_in_server
  controller_unpublish_volume volume instance_id = do
    fail_if (is_empty volume)
        (status invalid_argument (format "ControllerUnpublishVolume Volume ID must be provided"))
    server ← attempt (get_server cloud instance_id)
    detach_from volume instance_id server
