-- ===== src/Share/Controller/Service.antt =====
-- driver/filestorage/controllerserver.go: the controller service as gRPC registers it, one request
-- dispatched to its handler. The answer is kept as far as it is an error or none.
pub mod Capabilities
use csi_bizflycloud.Base.{List, Option, String, none, some, ℕ}
use csi_bizflycloud.Base.Go.{Failure, error_of, pure}
use csi_bizflycloud.Csi.{CreateVolumeRequest, ExpandRequest, ValidateRequest}
use csi_bizflycloud.Wait.{Wait}
use csi_bizflycloud.Share.Api.{FileStorage}
use csi_bizflycloud.Share.Controller.Pending.{World}
use csi_bizflycloud.Share.Controller.Volumes.{
  Rpc, controller_expand_volume, create_volume, delete_volume, unimplemented_rpc,
  validate_volume_capabilities,
}
use csi_bizflycloud.Share.Driver.{controller_capabilities}

pub data Request : Type 0 where
  creating_volume : CreateVolumeRequest → Request
  deleting_volume : String → Request
  validating : ValidateRequest → Request
  expanding : ExpandRequest → Request
  getting_capabilities : Request
  publishing unpublishing : Request
  listing_volumes asking_capacity : Request
  creating_snapshot deleting_snapshot listing_snapshots : Request
  getting_volume : Request

-- The capability of the protocol, by its number, that a request needs; `none` is a request that every
-- controller has to serve.
abbrev pub needs : Request → Option ℕ
needs (creating_volume r) = some 1
needs (deleting_volume v) = some 1
needs (validating r) = none
needs (expanding r) = some 9
needs getting_capabilities = none
needs publishing = some 2
needs unpublishing = some 2
needs listing_volumes = some 3
needs asking_capacity = some 4
needs creating_snapshot = some 5
needs deleting_snapshot = some 5
needs listing_snapshots = some 6
needs getting_volume = some 12

abbrev pub answer : {A : Type 0} → Rpc A → World → Option Failure × World
answer m w = (error_of (m w).0, (m w).1)

-- ControllerGetCapabilities gives the capabilities of the set-up.
unfoldable pub controller_get_capabilities : Rpc (List ℕ)
controller_get_capabilities = pure controller_capabilities

module _ (api : FileStorage) (wait : Wait) (proto : String) where
  unfoldable pub serve : Request → World → Option Failure × World
  serve (creating_volume r) = answer (create_volume api wait proto r)
  serve (deleting_volume v) = answer (delete_volume api v)
  serve (validating r) = answer (validate_volume_capabilities api r)
  serve (expanding r) = answer (controller_expand_volume api wait r)
  serve getting_capabilities = answer controller_get_capabilities
  serve publishing = answer (unimplemented_rpc {A = Unit {0}})
  serve unpublishing = answer (unimplemented_rpc {A = Unit {0}})
  serve listing_volumes = answer (unimplemented_rpc {A = Unit {0}})
  serve asking_capacity = answer (unimplemented_rpc {A = Unit {0}})
  serve creating_snapshot = answer (unimplemented_rpc {A = Unit {0}})
  serve deleting_snapshot = answer (unimplemented_rpc {A = Unit {0}})
  serve listing_snapshots = answer (unimplemented_rpc {A = Unit {0}})
  serve getting_volume = answer (unimplemented_rpc {A = Unit {0}})
